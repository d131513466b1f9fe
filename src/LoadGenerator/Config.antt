-- ===== src/LoadGenerator/Config.antt =====
-- `loadConfig` of cmd/load-generator/main.go with the readers that it uses, and `waitForHTTPStatus`. ParseDuration and
-- ParseFloat are parameters, the latter with its test for a positive number.
use todo_1m.Prelude.{
  ℕ, zero, suc, ◌+◌, ◌*◌, ◌<◌, String, Bool, true, false, ◌||◌, Option, none, some, ℤ, pos, negsuc,
  eqb, if◌then◌else◌, ◌==◌, trim_space, to_lower, atoi, code, arith, if_holds,
}
use todo_1m.Prelude.{is_nil}
use todo_1m.Prelude.Polling.{poll}
use todo_1m.Platform.Env.{Environment, positive_or}
use todo_1m.LoadGenerator.{Answer, unread, answered}

-- `stringEnv`
unfoldable pub string_env : Environment → String → String → String
string_env env key fallback =
    let value = trim_space (env key) in if value == "" then fallback else value

-- `intEnv`
unfoldable pub int_env : Environment → String → ℤ → ℤ
int_env env key fallback =
    let raw = trim_space (env key) in
    if raw == "" then fallback else positive_or fallback (atoi raw)

-- `durationEnv`
unfoldable pub duration_env : (String → Option ℤ) → Environment → String → ℤ → ℤ
duration_env parse_duration env key fallback =
    let raw = trim_space (env key) in
    if raw == "" then fallback else positive_or fallback (parse_duration raw)

abbrev pub or_given : {A : Type 0} → A → Option A → A
or_given fallback none = fallback
or_given fallback (some a) = a

-- `floatEnv`: the parameter gives a number only where it is positive.
unfoldable pub float_env : {A : Type 0} → (String → Option A) → Environment → String → A → A
float_env parse_positive env key fallback =
    let raw = trim_space (env key) in
    if raw == "" then fallback else or_given fallback (parse_positive raw)

-- `boolEnv`
unfoldable pub bool_env : Environment → String → Bool → Bool
bool_env env key fallback =
    let raw = trim_space (to_lower (env key)) in
    if raw == ""
    then fallback
    else if (raw == "1") || (raw == "true") || (raw == "yes") || (raw == "y") || (raw == "on")
    then true
    else if (raw == "0") || (raw == "false") || (raw == "no") || (raw == "n") || (raw == "off")
    then false
    else fallback

-- strings.TrimRight(v, "/")
unfoldable pub trim_right_slashes : String → String
trim_right_slashes String.[] = String.[]
trim_right_slashes (String.◌∷◌ c s) =
    let rest = trim_right_slashes s in
    if eqb (code c) b'/'
    then (if is_nil rest then String.[] else String.◌∷◌ c rest)
    else String.◌∷◌ c rest

-- `trimRightSlash`
unfoldable pub trim_right_slash : String → String
unfolding trim_right_slashes
trim_right_slash v = trim_right_slashes (trim_space v)

pub record LoadConfig (A : Type 0) : Type 0 where
  pub command_api_base : String
  pub sse_base : String
  pub users : ℤ
  pub setup_concurrency : ℤ
  pub startup_wait : ℤ
  pub duration : ℤ
  pub ramp_up : ℤ
  pub actions_per_user_per_second : A
  pub request_timeout : ℤ
  pub metrics_addr : String
  pub password : String
  pub enable_sse : Bool

abbrev pub second : ℕ
second = 1_000_000_000

module _ {A : Type 0} (parse_duration : String → Option ℤ) (parse_positive : String → Option A)
    (three_tenths : A) where
  -- `loadConfig`
  unfoldable pub load_config : Environment → LoadConfig A
  unfolding trim_right_slash string_env int_env duration_env float_env bool_env
  load_config env = record {
    command_api_base =
        trim_right_slash (string_env env "LOADGEN_COMMAND_API_BASE" "http://command-api:8080");
    sse_base = trim_right_slash (string_env env "LOADGEN_SSE_BASE" "http://sse-streamer:8081");
    users = int_env env "LOADGEN_USERS" (pos 200);
    setup_concurrency = int_env env "LOADGEN_SETUP_CONCURRENCY" (pos 25);
    startup_wait = duration_env parse_duration env "LOADGEN_STARTUP_WAIT" (pos (120 * second));
    duration = duration_env parse_duration env "LOADGEN_DURATION" (pos (600 * second));
    ramp_up = duration_env parse_duration env "LOADGEN_RAMP_UP" (pos (30 * second));
    actions_per_user_per_second =
        float_env parse_positive env "LOADGEN_ACTIONS_PER_USER_PER_SECOND" three_tenths;
    request_timeout = duration_env parse_duration env "LOADGEN_REQUEST_TIMEOUT" (pos (10 * second));
    metrics_addr = string_env env "LOADGEN_METRICS_ADDR" ":9099";
    password = string_env env "LOADGEN_PASSWORD" "load-test-pass-123";
    enable_sse = bool_env env "LOADGEN_ENABLE_SSE" true;
  }

-- How `waitForHTTPStatus` ends: with nil, an error of the context, or the last error.
pub data Waited : Type 0 where
  reached : Waited
  context_ended : Waited
  gave_up : Waited

-- A turn: the time, whether the context has ended, and what comes back.
pub record Turn : Type 0 where
  pub now : ℕ
  pub ended : Bool
  pub answer : Answer

abbrev pub is_status : ℕ → Answer → Bool
is_status expected (answered status body) = eqb status expected
is_status expected (unread status) = eqb status expected
is_status expected _ = false

abbrev pub turn_result : ℕ → Turn → Option Waited
turn_result expected t =
    if t.ended
    then some context_ended
    else if is_status expected t.answer
    then some reached
    else none

-- `waitForHTTPStatus`: a body that cannot be read does not matter.
unfoldable pub wait_for_http_status : (ℕ → Turn) → ℕ → ℕ → ℕ → ℕ → Option Waited
wait_for_http_status turns expected fuel start timeout =
    poll (λ n. (turns n).now) (λ n. turn_result expected (turns n)) (λ n. gave_up) fuel 0
      (start + timeout)

-- A number that main does not stop at.
abbrev pub IsPositive : ℤ → Type 0
IsPositive (pos n) = 0 < n
IsPositive (negsuc n) = ⊥

positive_or-IsPositive :
    (fallback : ℤ) (o : Option ℤ) → IsPositive fallback → IsPositive (positive_or fallback o)
positive_or-IsPositive fallback none h = h
positive_or-IsPositive fallback (some (pos zero)) h = h
positive_or-IsPositive fallback (some (pos (suc n))) h = omega arith
positive_or-IsPositive fallback (some (negsuc n)) h = h

int_env-IsPositive :
    (env : Environment) (key : String) (fallback : ℤ)
    → IsPositive fallback
    → IsPositive (int_env env key fallback)
unfolding int_env
int_env-IsPositive env key fallback h =
    if_holds IsPositive (trim_space (env key) == "") _ _ h
      (positive_or-IsPositive fallback (atoi (trim_space (env key))) h)

duration_env-IsPositive :
    (parse_duration : String → Option ℤ) (env : Environment) (key : String) (fallback : ℤ)
    → IsPositive fallback
    → IsPositive (duration_env parse_duration env key fallback)
unfolding duration_env
duration_env-IsPositive parse_duration env key fallback h =
    if_holds IsPositive (trim_space (env key) == "") _ _ h
      (positive_or-IsPositive fallback (parse_duration (trim_space (env key))) h)

-- Every number of the configuration is positive, whatever the environment says.
pub record IsUsable {A : Type 0} (c : LoadConfig A) : Type 0 where
  pub users : IsPositive c.users
  pub setup_concurrency : IsPositive c.setup_concurrency
  pub startup_wait : IsPositive c.startup_wait
  pub duration : IsPositive c.duration
  pub ramp_up : IsPositive c.ramp_up
  pub request_timeout : IsPositive c.request_timeout

pub load_config-IsUsable :
    {A : Type 0} (parse_duration : String → Option ℤ) (parse_positive : String → Option A)
    (three_tenths : A) (env : Environment)
    → IsUsable (load_config parse_duration parse_positive three_tenths env)
unfolding load_config
load_config-IsUsable parse_duration parse_positive three_tenths env = record {
  users = int_env-IsPositive env _ _ (omega arith);
  setup_concurrency = int_env-IsPositive env _ _ (omega arith);
  startup_wait = duration_env-IsPositive parse_duration env _ _ (omega arith);
  duration = duration_env-IsPositive parse_duration env _ _ (omega arith);
  ramp_up = duration_env-IsPositive parse_duration env _ _ (omega arith);
  request_timeout = duration_env-IsPositive parse_duration env _ _ (omega arith);
}
