-- ===== src/DomainEngine.antt =====
-- internal/app/domainengine/service.go: commands become events. The disposition of a message is that
-- of the subscription in cmd/domain-engine/main.go.
pub mod Subjects
use todo_1m.Prelude.{
  ℕ, String, Bool, List, [], ◌∷◌, Option, none, some, ℤ, pos, itoa_int, atoi, split, trim_space,
  to_lower, if◌then◌else◌, ◌==◌,
}
use todo_1m.Errors.{Error, Result, ok, err, invalid_command_payload, unsupported_command_action}
use todo_1m.Exec.{Exec, gets, lift, ◌>>=◌}
use todo_1m.Contracts.{TodoCommand, TodoEvent, Json}
use todo_1m.Sharding.{get_shard_id}
use todo_1m.Platform.Auth.{◌+++◌}
use todo_1m.Bus.{Bus, publish, draw_id}

unfoldable pub map_event_type : String → Result String
map_event_type action =
    let a = trim_space (to_lower action) in
    if a == "create-todo"
    then ok "todo.created"
    else if a == "update-todo"
    then ok "todo.updated"
    else if a == "delete-todo"
    then ok "todo.deleted"
    else err unsupported_command_action

unfoldable pub event_subject : TodoEvent → String
event_subject e = "app.event." +++ itoa_int e.shard_id +++ ".group." +++ e.group_id

-- `parts[2]` where there is one.
abbrev pub third : List String → Option String
third (a ∷ b ∷ c ∷ rest) = some c
third _ = none

abbrev pub int_of : Option String → Option ℤ
int_of none = none
int_of (some s) = atoi s

abbrev pub or_shard : String → Option ℤ → ℤ
or_shard entity_id none = pos (get_shard_id entity_id)
or_shard entity_id (some n) = n

unfoldable pub shard_from_subject : String → String → ℤ
shard_from_subject entity_id subject = or_shard entity_id (int_of (third (split b'.' subject)))

abbrev pub command_of : Option TodoCommand → Result TodoCommand
command_of none = err invalid_command_payload
command_of (some c) = ok c

-- The event of a command. Its JSON can always be made.
unfoldable pub event_of : TodoCommand → String → String → ℕ → ℤ → TodoEvent
event_of cmd event_type id now shard = record {
  event_id = id;
  command_id = cmd.command_id;
  todo_id = cmd.todo_id;
  group_id = cmd.group_id;
  actor_user_id = cmd.actor_user_id;
  actor_name = cmd.actor_name;
  event_type = event_type;
  title = cmd.title;
  occurred_at = now;
  shard_id = shard;
}

module _ (j : Json) (nth_id : ℕ → String) where
  -- `Service.Handle`
  unfoldable pub handle : String → String → Exec Bus Unit
  unfolding event_of
  handle command_subject command_payload = do
    cmd ← lift (command_of (j.unmarshal_command command_payload))
    let shard = shard_from_subject cmd.group_id command_subject
    event_type ← lift (map_event_type cmd.action)
    id ← draw_id nth_id
    now ← gets (λ b. b.now)
    let event = event_of cmd event_type id now shard
    publish (event_subject event) (j.marshal_event event)

-- What the subscription does with a message.
pub data Disposition : Type 0 where
  ack term nak : Disposition

unfoldable pub disposition : Result (Unit {0}) → Disposition
disposition (ok u) = ack
disposition (err invalid_command_payload) = term
disposition (err unsupported_command_action) = term
disposition (err e) = nak
