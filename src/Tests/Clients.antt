-- ===== src/Tests/Clients.antt =====
-- The theorems on connecting, on readiness and on the load generator at concrete inputs.
use todo_1m.Prelude.{
  ℕ, suc, ◌+◌, ◌*◌, ◌≤◌, ◌≡◌, refl, String, true, false, [], ◌∷◌, Option, some, negsuc, ltb, arith,
  trim_space, to_lower, itoa, any,
}
use todo_1m.Platform.Nats.{
  Turn, Connected, connect_with_retry, Health, check_readiness, check_data_sink_readiness,
  readyz_status,
}
use todo_1m.Platform.Nats.Connecting.{Ending, connect_with_retry-Ending}
use todo_1m.Platform.Lifecycle.{Process, serving, active, connects}
use todo_1m.LoadGenerator.{SimulatedUser, Runner, answered}
use todo_1m.LoadGenerator.Actions.{run_action, user_of, pad4}
use todo_1m.LoadGenerator.Users.{wait_or_default, action_interval}
use todo_1m.LoadGenerator.Config.{bool_env, trim_right_slash}

-- NATS comes up after two seconds.
abbrev turn : ℕ → Turn
turn n = record {
  now = 500_000_000 * n;
  dial = record {
    connects = ltb 3 n;
    has_jetstream = true;
    server = record { streams = []; faults = [] };
  };
}

half_seconds : (k : ℕ) → 500_000_000 * k + 500_000_000 ≤ 500_000_000 * suc k
half_seconds k = omega arith

connect_with_retry-Ending_example :
    (r : Connected) × (connect_with_retry turn 181 0 90_000_000_000 ≡ some r)
    × Ending turn (0 + 90_000_000_000) r
connect_with_retry-Ending_example =
    connect_with_retry-Ending turn 0 90_000_000_000 180 half_seconds (omega arith) (omega arith)

abbrev up : Health
up = record { ready = false; connected = some true; ping = true }

-- The command API is ready where the data sink, before its subscription, is not.
command_api_ready : readyz_status (check_readiness up) ≡ 200
unfolding readyz_status check_readiness
command_api_ready = refl

data_sink_unready : readyz_status (check_data_sink_readiness up) ≡ 503
unfolding readyz_status check_data_sink_readiness
data_sink_unready = refl

abbrev user : SimulatedUser
user = record (user_of "7" "load-test-pass-123" 42) { todos = "a" ∷ "b" ∷ "c" ∷ [] }

abbrev idle : Runner
idle = record { requests = []; actions = []; requests_success = 0; requests_error = 0 }

abbrev whole_body : String → Option String
whole_body s = some s

deleted_first :
    (run_action whole_body 0 9_000_000_000_000_000 (answered 202 "") user idle).0.todos
    ≡ "c" ∷ "b" ∷ []
unfolding run_action trim_space any
deleted_first = refl

padded : pad4 42 ≡ "0042"
unfolding pad4 itoa
padded = refl

off : bool_env (λ key. " Off ") "LOADGEN_ENABLE_SSE" true ≡ false
unfolding bool_env trim_space to_lower
off = refl

without_slash : trim_right_slash " http://api/// " ≡ "http://api"
unfolding trim_right_slash trim_space
without_slash = refl

minutes : wait_or_default (negsuc 4) ≡ 120_000_000_000
unfolding wait_or_default
minutes = refl

quickest : action_interval (some 3) ≡ 25_000_000
unfolding action_interval
quickest = refl

-- The data sink lost NATS for a while and has it again.
abbrev reconnected : Process
reconnected = record {
  phase = serving;
  ready = true;
  subscription = active;
  connection = some true;
}
