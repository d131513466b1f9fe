-- ===== src/Platform/Lifecycle/Readiness.antt =====
-- When /readyz of cmd/data-sink/main.go and of cmd/domain-engine/main.go answers 200.
use todo_1m.Prelude.{Bool, true, false, some, ◌≡◌}
use todo_1m.Platform.Lifecycle.{
  Program, data_sink, Phase, subscribed, serving, stopping, active, Process, is_listening,
}

abbrev is_serving : Phase → Bool
is_serving serving = true
is_serving _ = false

abbrev has_subscription : Phase → Bool
has_subscription subscribed = true
has_subscription serving = true
has_subscription stopping = true
has_subscription _ = false

-- What holds between two statements of `main`.
record IsConsistent (p : Process) : Type 0 where
  ready : is_listening p.phase ≡ true → p.ready ≡ is_serving p.phase
  active : has_subscription p.phase ≡ true → p.subscription ≡ active

-- What the answer 200 says.
pub record IsAtWork (program : Program) (ping : Bool) (p : Process) : Type 0 where
  pub serving : p.phase ≡ serving
  pub subscription : p.subscription ≡ active
  pub connection : p.connection ≡ some true
  pub postgres : program ≡ data_sink → ping ≡ true
