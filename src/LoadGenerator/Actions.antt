-- ===== src/LoadGenerator/Actions.antt =====
-- `setupSingleUser` and `runAction` of cmd/load-generator/main.go.
use Prim.Native.String
use todo_1m.Prelude.{
  ℕ, ◌+◌, ◌/◌, ◌%◌, String, [], ◌∷◌, Option, none, some, ltb, eqb, if◌then◌else◌, ◌==◌, trim_space,
  itoa,
}
use todo_1m.LoadGenerator.{
  SimulatedUser, add_todo, random_todo, remove_todo, Answer, Runner, Response, failed, got,
  request_json,
}

abbrev pub count_action : String → String → Runner → Runner
count_action action outcome r = record r {
  actions = record { action = action; outcome = outcome } ∷ r.actions;
}

-- 0.60 and 0.90, in the units of 2 ^ -53 in which rng.Float64 draws.
abbrev pub to_create : ℕ
to_create = 5404319552844595

abbrev pub to_update : ℕ
to_update = 8106479329266893

-- What `decode` reads is `todo_id` of an answer.
module _ (decode : String → Option String) where
  abbrev pub created : SimulatedUser → Response × Runner → SimulatedUser × Runner
  created u (failed status, r) = (u, count_action "create" "error" r)
  created u (got status todo_id, r) = (add_todo todo_id u, count_action "create" "success" r)

  -- `createTodo`: an id that is blank is not kept.
  unfoldable pub create_todo : Answer → SimulatedUser → Runner → SimulatedUser × Runner
  unfolding add_todo request_json
  create_todo answer u r =
      created u (request_json (some decode) "command_create" "POST" (202 ∷ []) answer r)

  abbrev pub updated : SimulatedUser → Response × Runner → SimulatedUser × Runner
  updated u (failed status, r) = (u, count_action "update" "error" r)
  updated u (got status out, r) = (u, count_action "update" "success" r)

  -- `updateTodo`
  unfoldable pub update_todo : Answer → String → SimulatedUser → Runner → SimulatedUser × Runner
  unfolding create_todo request_json
  update_todo answer todo_id u r =
      if trim_space todo_id == ""
      then create_todo answer u r
      else updated u (request_json none "command_update" "POST" (202 ∷ []) answer r)

  abbrev pub deleted : String → SimulatedUser → Response × Runner → SimulatedUser × Runner
  deleted todo_id u (failed status, r) = (u, count_action "delete" "error" r)
  deleted todo_id u (got status out, r) = (remove_todo todo_id u, count_action "delete" "success" r)

  -- `deleteTodo`
  unfoldable pub delete_todo : Answer → String → SimulatedUser → Runner → SimulatedUser × Runner
  unfolding remove_todo request_json
  delete_todo answer todo_id u r =
      if trim_space todo_id == ""
      then (u, count_action "delete" "error" r)
      else deleted todo_id u (request_json none "command_delete" "POST" (202 ∷ []) answer r)

  abbrev pub act : Option String → ℕ → Answer → SimulatedUser → Runner → SimulatedUser × Runner
  act none choice answer u r = create_todo answer u r
  act (some todo_id) choice answer u r =
      if ltb choice to_create
      then create_todo answer u r
      else if ltb choice to_update
      then update_todo answer todo_id u r
      else delete_todo answer todo_id u r

  -- `runAction`, with the index and the choice that are drawn and what the one request gets.
  unfoldable pub run_action : ℕ → ℕ → Answer → SimulatedUser → Runner → SimulatedUser × Runner
  unfolding random_todo create_todo update_todo delete_todo
  run_action index choice answer u r = act (random_todo index u) choice answer u r

-- How the set-up of a user ends.
pub data Setup : Type 0 where
  ready : SimulatedUser → Setup
  stopped : String → Setup

-- %04d
unfoldable pub pad4 : ℕ → String
pad4 n =
    String.◌++◌
      (if ltb n 10 then "000" else if ltb n 100 then "00" else if ltb n 1000 then "0" else "")
      (itoa n)

abbrev pub user_of : String → String → ℕ → SimulatedUser
user_of run_id password idx = record {
  username = String.◌++◌ "load-" (String.◌++◌ run_id (String.◌++◌ "-" (pad4 idx)));
  password = password;
  client_ip =
      String.◌++◌ "10.0."
        (String.◌++◌ (itoa (1 + idx / 250)) (String.◌++◌ "." (itoa (1 + idx % 250))));
  access_token = "";
  group_id = "";
  todos = [];
}

abbrev pub given_group : SimulatedUser → Response × Runner → Setup × Runner
given_group u (failed status, r) = (stopped "create group", r)
given_group u (got status id, r) =
    if trim_space id == ""
    then (stopped "empty group id", r)
    else (ready (record u { group_id = id }), r)

-- The second half, with the token.
abbrev pub with_token :
    (String → Option String) → Answer → SimulatedUser → String → Runner → Setup × Runner
with_token group_id group u token r =
    if trim_space token == ""
    then (stopped "empty access token", r)
    else given_group (record u { access_token = token })
        (request_json (some group_id) "create_group" "POST" (201 ∷ []) group r)

abbrev pub logged_in :
    (String → Option String) → Answer → SimulatedUser → Response × Runner → Setup × Runner
logged_in group_id group u (failed status, r) = (stopped "login", r)
logged_in group_id group u (got status token, r) = with_token group_id group u token r

abbrev pub registered :
    (String → Option String)
    → (String → Option String)
    → Answer
    → Answer
    → SimulatedUser
    → Response × Runner
    → Setup × Runner
registered access_token group_id login group u (failed status, r) = (stopped "register", r)
registered access_token group_id login group u (got status token, r) =
    if eqb status 409
    then logged_in group_id group u
        (request_json (some access_token) "login" "POST" (200 ∷ []) login r)
    else with_token group_id group u token r

-- `setupSingleUser`, of the two fields that are decoded and of what the requests for a registration, a login and a group
-- get. A name that is taken is logged in.
unfoldable pub setup_single_user :
    (String → Option String)
    → (String → Option String)
    → Answer
    → Answer
    → Answer
    → SimulatedUser
    → Runner
    → Setup × Runner
unfolding request_json
setup_single_user access_token group_id register login group u r =
    registered access_token group_id login group u
      (request_json (some access_token) "register" "POST" (201 ∷ 409 ∷ []) register r)
