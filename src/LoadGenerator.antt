-- ===== src/LoadGenerator.antt =====
-- cmd/load-generator/main.go: the simulated users and their requests. What comes back from the services, and what the
-- random generator gives, is given; the two counters of Prometheus are the list of their increments.
pub mod Config
pub mod Actions
pub mod Bookkeeping
pub mod Accounts
pub mod Streams
pub mod Users
pub mod Tallies
use Prim.Native.String
use todo_1m.Prelude.{
  ℕ, zero, suc, ◌+◌, ◌-◌, ◌/◌, ◌%◌, ◌^◌, String, Bool, true, false, not, ◌||◌, List, [], ◌∷◌, ◌++◌,
  Option, none, some, length, any, take, ltb, eqb, if◌then◌else◌, ◌==◌, trim_space, itoa,
}

pub record SimulatedUser : Type 0 where
  pub username : String
  pub password : String
  pub client_ip : String
  pub access_token : String
  pub group_id : String
  pub todos : List String

-- `addTodo`
unfoldable pub add_todo : String → SimulatedUser → SimulatedUser
add_todo todo_id u =
    if trim_space todo_id == "" then u else record u { todos = u.todos ++ (todo_id ∷ []) }

abbrev pub nth_or_empty : List String → ℕ → String
nth_or_empty [] n = ""
nth_or_empty (x ∷ xs) zero = x
nth_or_empty (x ∷ xs) (suc n) = nth_or_empty xs n

-- `randomTodo`, where `rng.Intn` gives `index`.
unfoldable pub random_todo : ℕ → SimulatedUser → Option String
random_todo index u = if eqb (length u.todos) 0 then none else some (nth_or_empty u.todos index)

-- The first entry that is `id` becomes `last`.
unfoldable pub put_first : String → String → List String → List String
put_first id last [] = []
put_first id last (x ∷ xs) =
    let rest = put_first id last xs in if x == id then last ∷ xs else x ∷ rest

abbrev pub last_of : String → List String → String
last_of x [] = x
last_of x (y ∷ ys) = last_of y ys

abbrev pub swap_out : String → List String → List String
swap_out id [] = []
swap_out id (x ∷ xs) = take (length xs) (put_first id (last_of x xs) (x ∷ xs))

abbrev pub is_id : String → String → Bool
is_id id x = x == id

-- `removeTodo`: the last entry takes the place of the first one that is `todo_id`.
unfoldable pub remove_todo : String → SimulatedUser → SimulatedUser
unfolding put_first
remove_todo todo_id u =
    if any (is_id todo_id) u.todos then record u { todos = swap_out todo_id u.todos } else u

-- What comes back for a request: it cannot be made, it gets no answer, its answer cannot be read, or a status with a body.
pub data Answer : Type 0 where
  not_made : Answer
  lost : Answer
  unread : ℕ → Answer
  answered : ℕ → String → Answer

-- An increment of `requestsTotal`.
pub record Counted : Type 0 where
  pub endpoint : String
  pub method : String
  pub status : String
  pub outcome : String

-- An increment of `actionsTotal`.
pub record ActionCounted : Type 0 where
  pub action : String
  pub outcome : String

pub record Runner : Type 0 where
  pub requests : List Counted
  pub actions : List ActionCounted
  pub requests_success : ℕ
  pub requests_error : ℕ

-- `Add(1)` on an atomic.Int64, as its bits.
abbrev pub add_one : ℕ → ℕ
add_one n = (n + 1) % 2 ^ 64

abbrev pub count_success : String → String → String → Runner → Runner
count_success endpoint method status r = record r {
  requests =
      record { endpoint = endpoint; method = method; status = status; outcome = "success" }
      ∷ r.requests;
  requests_success = add_one r.requests_success;
}

abbrev pub count_error : String → String → String → Runner → Runner
count_error endpoint method status r = record r {
  requests =
      record { endpoint = endpoint; method = method; status = status; outcome = "error" }
      ∷ r.requests;
  requests_error = add_one r.requests_error;
}

-- `isExpectedStatus`
unfoldable pub is_expected_status : ℕ → List ℕ → Bool
is_expected_status status [] = false
is_expected_status status (candidate ∷ expected) =
    eqb status candidate || is_expected_status status expected

-- What `requestJSON` returns: the status with an error, or with what it has decoded, empty where there is no body.
pub data Response : Type 0 where
  failed : ℕ → Response
  got : ℕ → String → Response

abbrev pub decoded : ℕ → Option String → Response
decoded status none = failed status
decoded status (some out) = got status out

-- The body, where the caller asks for it; `decode` reads the one field that the caller uses.
abbrev pub body_of : Option (String → Option String) → ℕ → String → Response
body_of none status body = got status ""
body_of (some decode) status body =
    if body == "" then got status "" else decoded status (decode body)

-- `requestJSON`
unfoldable pub request_json :
    Option (String → Option String) → String → String → List ℕ → Answer → Runner → Response × Runner
unfolding is_expected_status
request_json decode endpoint method expected not_made r = (failed 0, r)
request_json decode endpoint method expected lost r = (failed 0, count_error endpoint method "0" r)
request_json decode endpoint method expected (unread status) r =
    (failed status, count_error endpoint method (itoa status) r)
request_json decode endpoint method expected (answered status body) r =
    if is_expected_status status expected
    then (body_of decode status body, count_success endpoint method (itoa status) r)
    else (failed status, count_error endpoint method (itoa status) r)
