-- ===== src/Platform/Nats.antt =====
-- internal/platform/natsutil/nats.go, and what the services do with it and with Postgres when they start and when they
-- are asked whether they are ready. What the environment does at each turn of a loop is given; times are in nanoseconds.
pub mod Connecting
use todo_1m.Prelude.{
  ℕ, zero, suc, ◌+◌, Bool, true, false, not, List, [], ◌∷◌, Option, none, some, if◌then◌else◌,
}
use todo_1m.Prelude.Polling.{poll}
use todo_1m.Errors.{Error, Result, ok, err, nats_down, not_ready, database_down}
use todo_1m.Platform.Streams.{JetStream, ensure_streams}

-- What a connection meets: whether nats.Connect and conn.JetStream succeed, and the JetStream that is there.
pub record Dial : Type 0 where
  pub connects : Bool
  pub has_jetstream : Bool
  pub server : JetStream

-- The result, with the connections that were opened and closed.
pub record Attempt : Type 0 where
  pub client : Result JetStream
  pub opened : ℕ
  pub closed : ℕ

abbrev pub ensured : Result (Unit {0}) × JetStream → Attempt
ensured (ok u, js) = record { client = ok js; opened = 1; closed = 0 }
ensured (err e, js) = record { client = err e; opened = 1; closed = 1 }

-- `ConnectJetStream`
unfoldable pub connect_jetstream : Dial → Attempt
connect_jetstream d =
    if not d.connects
    then record { client = err nats_down; opened = 0; closed = 0 }
    else if not d.has_jetstream
    then record { client = err nats_down; opened = 1; closed = 1 }
    else ensured (ensure_streams d.server)

-- A turn of a loop that tries again.
pub record Turn : Type 0 where
  pub now : ℕ
  pub dial : Dial

-- The client, or the last error, if there was one, behind the text of the timeout.
pub data Connected : Type 0 where
  client : JetStream → Connected
  timed_out : Option Error → Connected

abbrev pub client_of : Result JetStream → Option Connected
client_of (ok js) = some (client js)
client_of (err e) = none

abbrev pub error_of : {A : Type 0} → Result A → Option Error
error_of (ok a) = none
error_of (err e) = some e

abbrev pub last_error : (ℕ → Turn) → ℕ → Option Error
last_error turns zero = none
last_error turns (suc n) = error_of (connect_jetstream (turns n).dial).client

-- `ConnectJetStreamWithRetry`; `none` where the fuel is spent.
unfoldable pub connect_with_retry : (ℕ → Turn) → ℕ → ℕ → ℕ → Option Connected
unfolding connect_jetstream
connect_with_retry turns fuel start timeout =
    poll (λ n. (turns n).now) (λ n. client_of (connect_jetstream (turns n).dial).client)
      (λ n. timed_out (last_error turns n)) fuel 0 (start + timeout)

-- `waitForIdentitySchema` and `waitForPostgres`, of what each attempt gives: nil before the first.
abbrev pub nil_if_ok : Result (Unit {0}) → Option (Result (Unit {0}))
nil_if_ok (ok u) = some (ok tt)
nil_if_ok (err e) = none

abbrev pub last_result : (ℕ → Result (Unit {0})) → ℕ → Result (Unit {0})
last_result attempt zero = ok tt
last_result attempt (suc n) = attempt n

unfoldable pub wait_for_schema :
    (ℕ → ℕ) → (ℕ → Result (Unit {0})) → ℕ → ℕ → ℕ → Option (Result (Unit {0}))
wait_for_schema now attempt fuel start timeout =
    poll now (λ n. nil_if_ok (attempt n)) (last_result attempt) fuel 0 (start + timeout)

-- An attempt of `waitForPostgres`: the ping, then the schema.
unfoldable pub ping_then_schema : Result (Unit {0}) → Result (Unit {0}) → Result (Unit {0})
ping_then_schema (ok u) schema = schema
ping_then_schema (err e) schema = err e

-- What a service knows when it is asked whether it is ready. A connection that is nil is none.
pub record Health : Type 0 where
  pub ready : Bool
  pub connected : Option Bool
  pub ping : Bool

abbrev pub nats_status : Option Bool → Result (Unit {0}) → Result (Unit {0})
nats_status none rest = err nats_down
nats_status (some false) rest = err nats_down
nats_status (some true) rest = rest

abbrev pub postgres_status : Bool → Result (Unit {0})
postgres_status true = ok tt
postgres_status false = err database_down

-- `checkCommandAPIReadiness` and `checkSSEStreamerReadiness`
unfoldable pub check_readiness : Health → Result (Unit {0})
check_readiness h = nats_status h.connected (postgres_status h.ping)

-- `checkDataSinkReadiness`
unfoldable pub check_data_sink_readiness : Health → Result (Unit {0})
unfolding check_readiness
check_data_sink_readiness h = if h.ready then check_readiness h else err not_ready

-- /readyz of the domain engine, which does not ask Postgres.
unfoldable pub check_domain_engine_readiness : Health → Result (Unit {0})
check_domain_engine_readiness h = if h.ready then nats_status h.connected (ok tt) else err not_ready

-- The status of /readyz.
unfoldable pub readyz_status : Result (Unit {0}) → ℕ
readyz_status (ok u) = 200
readyz_status (err e) = 503
