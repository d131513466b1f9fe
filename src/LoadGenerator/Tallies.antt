-- ===== src/LoadGenerator/Tallies.antt =====
-- The two totals that cmd/load-generator/main.go keeps beside the labels of `requestsTotal`, after whole actions, set-ups and
-- connections, one after another.
use todo_1m.Prelude.{
  ℕ, suc, ◌%◌, ◌^◌, ◌≡◌, String, List, [], ◌∷◌, Option, none, some, ltb, eqb, if◌then◌else◌, ◌==◌,
  trim_space, arith, Bool-cases, inl, inr, if_holds,
}
use todo_1m.LoadGenerator.{
  SimulatedUser, Answer, not_made, lost, unread, answered, Counted, Runner, add_one, count_success,
  count_error, is_expected_status, Response, failed, got, request_json, random_todo,
}
use todo_1m.LoadGenerator.Actions.{
  created, create_todo, updated, update_todo, deleted, delete_todo, to_create, to_update, act,
  run_action, Setup, given_group, with_token, logged_in, registered, setup_single_user,
}
use todo_1m.LoadGenerator.Streams.{
  Meters, Connection, Scanned, SseTurn, open_stream, close_stream, connect_and_read_sse,
  run_sse_loop,
}
use todo_1m.LoadGenerator.Streams

-- How many of the requests have this outcome.
unfoldable pub tally : String → List Counted → ℕ
tally outcome [] = 0
tally outcome (c ∷ cs) =
    let rest = tally outcome cs in if c.outcome == outcome then suc rest else rest

-- The totals are those of the labels, as 64 bits hold them.
pub record IsTallied (r : Runner) : Type 0 where
  pub success : r.requests_success ≡ tally "success" r.requests % 2 ^ 64
  pub error : r.requests_error ≡ tally "error" r.requests % 2 ^ 64

up : (n k : ℕ) → n ≡ k % 2 ^ 64 → add_one n ≡ suc k % 2 ^ 64
up n k h = omega (arith, h)

success-IsTallied :
    (endpoint method status : String) (r : Runner)
    → IsTallied r
    → IsTallied (count_success endpoint method status r)
unfolding tally
success-IsTallied endpoint method status r t = record {
  success = up r.requests_success (tally "success" r.requests) t.success;
  error = t.error;
}

error-IsTallied :
    (endpoint method status : String) (r : Runner)
    → IsTallied r
    → IsTallied (count_error endpoint method status r)
unfolding tally
error-IsTallied endpoint method status r t = record {
  success = t.success;
  error = up r.requests_error (tally "error" r.requests) t.error;
}

request_json-IsTallied :
    (decode : Option (String → Option String)) (endpoint method : String) (expected : List ℕ)
    (answer : Answer) (r : Runner)
    → IsTallied r
    → IsTallied (request_json decode endpoint method expected answer r).1
unfolding request_json
request_json-IsTallied decode endpoint method expected not_made r t = t
request_json-IsTallied decode endpoint method expected lost r t =
    error-IsTallied endpoint method _ r t
request_json-IsTallied decode endpoint method expected (unread status) r t =
    error-IsTallied endpoint method _ r t
request_json-IsTallied decode endpoint method expected (answered status body) r t =
    elim (Bool-cases (is_expected_status status expected)) [
      | inl good ↦ rw good (success-IsTallied endpoint method _ r t)
      | inr bad ↦ rw bad (error-IsTallied endpoint method _ r t)
    ]

module _ (decode : String → Option String) where
  created-IsTallied :
      (u : SimulatedUser) (x : Response × Runner) → IsTallied x.1 → IsTallied (created decode u x).1
  created-IsTallied u (failed status, r) t = record { success = t.success; error = t.error }
  created-IsTallied u (got status id, r) t = record { success = t.success; error = t.error }

  updated-IsTallied :
      (u : SimulatedUser) (x : Response × Runner) → IsTallied x.1 → IsTallied (updated decode u x).1
  updated-IsTallied u (failed status, r) t = record { success = t.success; error = t.error }
  updated-IsTallied u (got status id, r) t = record { success = t.success; error = t.error }

  deleted-IsTallied :
      (todo_id : String) (u : SimulatedUser) (x : Response × Runner)
      → IsTallied x.1
      → IsTallied (deleted decode todo_id u x).1
  deleted-IsTallied todo_id u (failed status, r) t = record { success = t.success; error = t.error }
  deleted-IsTallied todo_id u (got status id, r) t = record { success = t.success; error = t.error }

  module _ (answer : Answer) (u : SimulatedUser) (r : Runner) (t : IsTallied r) where
    create_todo-IsTallied : IsTallied (create_todo decode answer u r).1
    unfolding create_todo
    create_todo-IsTallied =
        created-IsTallied u _
          (request_json-IsTallied (some decode) "command_create" "POST" (202 ∷ []) answer r t)

    update_todo-IsTallied : (todo_id : String) → IsTallied (update_todo decode answer todo_id u r).1
    unfolding update_todo
    update_todo-IsTallied todo_id =
        if_holds (λ (x : SimulatedUser × Runner). IsTallied x.1) (trim_space todo_id == "") _ _
          create_todo-IsTallied
          (updated-IsTallied u _
            (request_json-IsTallied none "command_update" "POST" (202 ∷ []) answer r t))

    delete_todo-IsTallied : (todo_id : String) → IsTallied (delete_todo decode answer todo_id u r).1
    unfolding delete_todo
    delete_todo-IsTallied todo_id =
        if_holds (λ (x : SimulatedUser × Runner). IsTallied x.1) (trim_space todo_id == "") _ _
          (record { success = t.success; error = t.error })
          (deleted-IsTallied todo_id u _
            (request_json-IsTallied none "command_delete" "POST" (202 ∷ []) answer r t))

    act-IsTallied : (o : Option String) (choice : ℕ) → IsTallied (act decode o choice answer u r).1
    act-IsTallied none choice = create_todo-IsTallied
    act-IsTallied (some todo_id) choice =
        if_holds (λ (x : SimulatedUser × Runner). IsTallied x.1) (ltb choice to_create) _ _
          create_todo-IsTallied
          (if_holds (λ (x : SimulatedUser × Runner). IsTallied x.1) (ltb choice to_update) _ _
            (update_todo-IsTallied todo_id) (delete_todo-IsTallied todo_id))

    pub run_action-IsTallied :
        (index choice : ℕ) → IsTallied (run_action decode index choice answer u r).1
    unfolding run_action
    run_action-IsTallied index choice = act-IsTallied (random_todo index u) choice

module _ (group_id : String → Option String) (group : Answer) where
  given_group-IsTallied :
      (u : SimulatedUser) (x : Response × Runner) → IsTallied x.1 → IsTallied (given_group u x).1
  given_group-IsTallied u (failed status, r) t = t
  given_group-IsTallied u (got status id, r) t =
      if_holds (λ (x : Setup × Runner). IsTallied x.1) (trim_space id == "") _ _ t t

  with_token-IsTallied :
      (u : SimulatedUser) (token : String) (r : Runner)
      → IsTallied r
      → IsTallied (with_token group_id group u token r).1
  with_token-IsTallied u token r t =
      if_holds (λ (x : Setup × Runner). IsTallied x.1) (trim_space token == "") _ _ t
        (given_group-IsTallied (record u { access_token = token }) _
          (request_json-IsTallied (some group_id) "create_group" "POST" (201 ∷ []) group r t))

  logged_in-IsTallied :
      (u : SimulatedUser) (x : Response × Runner)
      → IsTallied x.1
      → IsTallied (logged_in group_id group u x).1
  logged_in-IsTallied u (failed status, r) t = t
  logged_in-IsTallied u (got status token, r) t = with_token-IsTallied u token r t

  registered-IsTallied :
      (access_token : String → Option String) (login : Answer) (u : SimulatedUser)
      (x : Response × Runner)
      → IsTallied x.1
      → IsTallied (registered access_token group_id login group u x).1
  registered-IsTallied access_token login u (failed status, r) t = t
  registered-IsTallied access_token login u (got status token, r) t =
      if_holds (λ (x : Setup × Runner). IsTallied x.1) (eqb status 409) _ _
        (logged_in-IsTallied u _
          (request_json-IsTallied (some access_token) "login" "POST" (200 ∷ []) login r t))
        (with_token-IsTallied u token r t)

  pub setup_single_user-IsTallied :
      (access_token : String → Option String) (register login : Answer) (u : SimulatedUser)
      (r : Runner)
      → IsTallied r
      → IsTallied (setup_single_user access_token group_id register login group u r).1
  unfolding setup_single_user
  setup_single_user-IsTallied access_token register login u r t =
      registered-IsTallied access_token login u
        (request_json (some access_token) "register" "POST" (201 ∷ 409 ∷ []) register r)
        (request_json-IsTallied (some access_token) "register" "POST" (201 ∷ 409 ∷ []) register r t)

pub open_stream-IsTallied :
    (c : Connection) (m : Meters) → IsTallied m.runner → IsTallied (open_stream c m).1.runner
unfolding open_stream
open_stream-IsTallied Streams.not_made m t = t
open_stream-IsTallied Streams.lost m t = error-IsTallied "events_stream_open" "GET" "0" m.runner t
open_stream-IsTallied (Streams.answered status) m t = elim (Bool-cases (eqb status 200)) [
  | inl good ↦ rw good (success-IsTallied "events_stream_open" "GET" _ m.runner t)
  | inr bad ↦ rw bad (error-IsTallied "events_stream_open" "GET" _ m.runner t)
]
