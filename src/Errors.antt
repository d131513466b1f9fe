-- ===== src/Errors.antt =====
-- The error values of the services, each package's sentinels under one type: `errors.Is` on a
-- sentinel is a test of the constructor. internal/app/{identity,commandapi,domainengine,datasink,query}
-- and internal/platform/auth declare them.
use todo_1m.Prelude.{Bool, true, false}

pub data Error : Type 0 where
  -- identity
  invalid_username invalid_password invalid_group_name invalid_group_id invalid_role : Error
  invalid_credentials forbidden_group forbidden_role : Error
  refresh_token_missing invalid_refresh_token not_found : Error
  -- commandapi
  title_required group_required todo_id_required unsupported_action : Error
  -- domainengine and datasink
  invalid_command_payload unsupported_command_action : Error
  invalid_event_payload unsupported_event_type : Error
  -- query
  todo_not_found : Error
  -- platform/auth
  invalid_token expired_token : Error
  -- what Postgres reports: a unique index, a foreign key, an undefined table (42P01), or no answer;
  -- and what pgx does not scan
  duplicate_key foreign_key undefined_table database_down database_scan : Error
  -- a value that its column does not take
  database_encode : Error
  -- bcrypt and the publishing of a message
  hash_failed publish_failed : Error
  -- JetStream
  stream_not_found stream_failed : Error
  -- NATS gives no connection, or the process is not ready
  nats_down not_ready : Error
  -- a context that is done
  context_done : Error

pub data Result {ℓ} (A : Type ℓ) : Type ℓ where
  ok : A → Result A
  err : Error → Result A

infixl 5 ◌>>=◌
abbrev pub ◌>>=◌ {ℓ κ} : {A : Type ℓ} {B : Type κ} → Result A → (A → Result B) → Result B
ok a >>= f = f a
err e >>= f = err e

-- `strings.Contains(strings.ToLower(err.Error()), "duplicate")`: of the errors here only the
-- violation of a unique index says so.
unfoldable pub is_duplicate : Error → Bool
is_duplicate duplicate_key = true
is_duplicate _ = false
