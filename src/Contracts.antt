-- ===== src/Contracts.antt =====
-- internal/contracts/contracts.go: the messages on the bus. A time is a number.
use todo_1m.Prelude.{ℕ, ◌≡◌, String, Option, some, ℤ}

pub record TodoCommand : Type 0 where
  pub command_id : String
  pub todo_id : String
  pub actor_user_id : String
  pub actor_name : String
  pub group_id : String
  pub action : String
  pub title : String
  pub created_at : ℕ

pub record TodoEvent : Type 0 where
  pub event_id : String
  pub command_id : String
  pub todo_id : String
  pub group_id : String
  pub actor_user_id : String
  pub actor_name : String
  pub event_type : String
  pub title : String
  pub occurred_at : ℕ
  pub shard_id : ℤ

-- `encoding/json` on the two messages. What a payload decodes to may be nothing.
pub record Json : Type 0 where
  pub marshal_command : TodoCommand → String
  pub unmarshal_command : String → Option TodoCommand
  pub marshal_event : TodoEvent → String
  pub unmarshal_event : String → Option TodoEvent

-- What was marshalled can be read back.
pub record RoundTrips (j : Json) : Type 0 where
  pub command : (c : TodoCommand) → j.unmarshal_command (j.marshal_command c) ≡ some c
  pub event : (e : TodoEvent) → j.unmarshal_event (j.marshal_event e) ≡ some e
