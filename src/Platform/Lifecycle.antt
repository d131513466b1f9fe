-- ===== src/Platform/Lifecycle.antt =====
-- `main` of cmd/data-sink/main.go and of cmd/domain-engine/main.go: from the start over the subscription and the flag `ready`
-- to the shutdown. Where NATS or Postgres goes away is up to the environment.
pub mod Readiness
use todo_1m.Prelude.{ℕ, Bool, true, false, Option, none, some, ◌≡◌, if◌then◌else◌}
use todo_1m.Errors.{Result}
use todo_1m.Platform.Nats.{
  Health, check_data_sink_readiness, check_domain_engine_readiness, readyz_status,
}

pub data Program : Type 0 where
  data_sink : Program
  domain_engine : Program

-- How far `main` is. `serving` waits for a signal; `died` is log.Fatal, which runs nothing that is deferred.
pub data Phase : Type 0 where
  launched : Phase
  pooled : Phase
  migrated : Phase
  connected : Phase
  subscribed : Phase
  serving : Phase
  stopping : Phase
  drained : Phase
  shut_down : Phase
  returned : Phase
  died : Phase

pub data Subscription : Type 0 where
  absent : Subscription
  active : Subscription
  draining : Subscription

pub record Process : Type 0 where
  pub phase : Phase
  pub ready : Bool
  pub subscription : Subscription
  -- `client.Conn`, and whether its status is CONNECTED
  pub connection : Option Bool

abbrev pub starting : Process
starting = record { phase = launched; ready = false; subscription = absent; connection = none }

-- Only the data sink has a pool and a schema to wait for.
abbrev pub before_connect : Program → Phase
before_connect data_sink = migrated
before_connect domain_engine = launched

-- Where an error is fatal.
abbrev pub may_die : Phase → Bool
may_die launched = true
may_die pooled = true
may_die migrated = true
may_die connected = true
may_die subscribed = false
may_die serving = true
may_die _ = false

-- Whether the health endpoint may answer.
abbrev pub is_listening : Phase → Bool
is_listening serving = true
is_listening stopping = true
is_listening drained = true
is_listening _ = false

abbrev pub drained_or_not : Bool → Subscription → Subscription
drained_or_not true s = draining
drained_or_not false s = s

pub data Step (program : Program) : Process → Process → Type 0 where
  opens_pool :
      (p : Process)
      → program ≡ data_sink
      → p.phase ≡ launched
      → Step program p (record p { phase = pooled })
  migrates : (p : Process) → p.phase ≡ pooled → Step program p (record p { phase = migrated })
  connects :
      (p : Process)
      → p.phase ≡ before_connect program
      → Step program p (record p { phase = connected; connection = some true })
  subscribes :
      (p : Process)
      → p.phase ≡ connected
      → Step program p (record p { phase = subscribed; subscription = active })
  is_ready :
      (p : Process)
      → p.phase ≡ subscribed
      → Step program p (record p { phase = serving; ready = true })
  is_signalled :
      (p : Process)
      → p.phase ≡ serving
      → Step program p (record p { phase = stopping; ready = false })
  drains :
      (succeeds : Bool) (p : Process)
      → p.phase ≡ stopping
      → Step program p
          (record p { phase = drained; subscription = drained_or_not succeeds p.subscription })
  shuts_down : (p : Process) → p.phase ≡ drained → Step program p (record p { phase = shut_down })
  returns :
      (p : Process)
      → p.phase ≡ shut_down
      → Step program p
          (record p { phase = returned; connection = some false; subscription = absent })
  dies : (p : Process) → may_die p.phase ≡ true → Step program p (record p { phase = died })
  status_changes :
      (before after : Bool) (p : Process)
      → p.connection ≡ some before
      → Step program p (record p { connection = some after })

pub data Reachable (program : Program) : Process → Type 0 where
  start : Reachable program starting
  next : {p q : Process} → Reachable program p → Step program p q → Reachable program q

abbrev pub readiness : Program → Health → Result (Unit {0})
readiness data_sink h = check_data_sink_readiness h
readiness domain_engine h = check_domain_engine_readiness h

-- What /readyz answers, where Postgres answers a ping or not; `none` where nothing listens.
unfoldable pub readyz : Program → Bool → Process → Option ℕ
unfolding check_data_sink_readiness check_domain_engine_readiness readyz_status
readyz program ping p =
    let h : Health = record { ready = p.ready; connected = p.connection; ping = ping } in
    if is_listening p.phase then some (readyz_status (readiness program h)) else none
