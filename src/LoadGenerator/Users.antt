-- ===== src/LoadGenerator/Users.antt =====
-- `setupUsers`, `waitForDependencies` and the pace of `runUser` in cmd/load-generator/main.go.
pub mod Distinct
use Prim.Native.String
use todo_1m.Prelude.{
  ℕ, zero, suc, ◌+◌, ◌*◌, String, Bool, true, false, List, [], ◌∷◌, ◌++◌, Option, none, some, ℤ,
  pos, negsuc, ltb, if◌then◌else◌,
}
use todo_1m.LoadGenerator.Actions.{Setup, ready, stopped}
use todo_1m.LoadGenerator.{SimulatedUser}
use todo_1m.LoadGenerator.Config.{Waited, reached, second}

-- The results in the order in which the goroutines have sent them; the failures are counted.
unfoldable pub collect : List Setup → List SimulatedUser × ℕ
collect [] = ([], 0)
collect (ready u ∷ results) = let (users, failures) = collect results in (u ∷ users, failures)
collect (stopped e ∷ results) = let (users, failures) = collect results in (users, suc failures)

-- The wait that is configured, or two minutes.
unfoldable pub wait_or_default : ℤ → ℕ
wait_or_default (pos zero) = 120 * second
wait_or_default (pos (suc n)) = suc n
wait_or_default (negsuc n) = 120 * second

-- How `waitForDependencies` ends, of how each of its waits does; `none` is nil.
unfoldable pub wait_for_dependencies : Waited → Waited → Option String
wait_for_dependencies reached reached = none
wait_for_dependencies reached sse = some "sse-streamer not ready"
wait_for_dependencies command_api sse = some "command-api not ready"

-- The pause between two actions of a user, of what the conversion from a float gives where a rate is configured.
unfoldable pub action_interval : Option ℕ → ℕ
action_interval none = second
action_interval (some interval) = if ltb interval 25_000_000 then 25_000_000 else interval

-- `maxInt`
unfoldable pub max_int : ℕ → ℕ → ℕ
max_int a b = if ltb b a then a else b
