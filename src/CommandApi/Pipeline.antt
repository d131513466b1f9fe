-- ===== src/CommandApi/Pipeline.antt =====
-- A command from the client to the read model: internal/app/commandapi, internal/app/domainengine and
-- internal/app/datasink one after the other, with the bus between them.
use todo_1m.Prelude.{ℕ, suc, ◌≡◌, refl, String, List, ◌∷◌, pos, trim_space}
use todo_1m.Errors.{ok}
use todo_1m.Contracts.{TodoCommand, TodoEvent, Json, RoundTrips}
use todo_1m.Sharding.{get_shard_id, get_subject}
use todo_1m.Bus.{Message}
use todo_1m.CommandApi.{Actor, CreateTodoRequest, CommandResponse, or_else, accept}
use todo_1m.ReadModel.{ReadModel}
use todo_1m.DataSink
use todo_1m.DataSink.{insert_event}
use todo_1m.DataSink.Projection.{project}
use todo_1m.DomainEngine
use todo_1m.DomainEngine.{map_event_type, event_subject, event_of, shard_from_subject}
use todo_1m.CommandApi.Stages.{
  Known, command_for, check_request-Known, Becomes-is_supported, IsValid, quiet, world, accept-ok,
  handle-ok, handle-sunk, shard-fits,
}

-- What the client is told, what goes over the bus, and what the read model is given.
pub record Journey : Type 0 where
  pub response : CommandResponse
  pub command_message : Message
  pub event_message : Message
  pub event : TodoEvent

module _ (j : Json) (api_id engine_id : ℕ → String) where
  journey : Actor → CreateTodoRequest → String → ℕ → ℕ → ℕ → ℕ → Journey
  unfolding command_for
  journey actor req event_type ids now ids' now' = record {
    response = record {
      status = "accepted";
      command_id = api_id ids;
      todo_id = or_else (trim_space req.todo_id) (api_id ids);
    };
    command_message = record {
      subject = get_subject "group" cmd.group_id;
      payload = j.marshal_command cmd;
    };
    event_message = record { subject = event_subject event; payload = j.marshal_event event };
    event = event;
  }
    where
      cmd : TodoCommand
      cmd = command_for actor req (api_id ids) now

      event : TodoEvent
      event = event_of cmd event_type (engine_id ids') now' (pos (get_shard_id cmd.group_id))

  -- Where encoded messages can be read back, the bus takes every message and the database
  -- answers: a request that names a group and carries what its action needs is accepted, its
  -- command is handled by the domain engine, and the event of it is applied to the read model.
  -- The event has the command's id and the todo's id that the client was told, and the trimmed
  -- group and title of the request.
  pub command_reaches_read_model :
      (actor : Actor) (req : CreateTodoRequest) (sent sent' : List Message)
      (ids now ids' now' seq at : ℕ) (m : ReadModel)
      → RoundTrips j
      → IsValid req
      → (t : Journey) × (accept j api_id actor req (quiet sent ids now)
          ≡ (ok t.response, quiet (t.command_message ∷ sent) (suc ids) now))
        × (DomainEngine.handle j engine_id t.command_message.subject t.command_message.payload
              (quiet sent' ids' now')
            ≡ (ok tt, quiet (t.event_message ∷ sent') (suc ids') now'))
        × ((DataSink.handle j t.event_message.payload seq (world m at)).0 ≡ ok tt)
        × ((DataSink.handle j t.event_message.payload seq (world m at)).1.tables
            ≡ project t.event seq at m)
        × (t.event.command_id ≡ t.response.command_id)
        × (t.event.todo_id ≡ t.response.todo_id)
        × (t.event.group_id ≡ trim_space req.group_id)
        × (t.event.title ≡ trim_space req.title)
  unfolding journey command_for Known event_of
  command_reaches_read_model actor req sent sent' ids now ids' now' seq at m rt v =
      let (event_type, b) = check_request-Known _ _ _ v.has_fields in
      let t = journey actor req event_type ids now ids' now' in
      let applied =
        handle-sunk j t.event seq at m rt (Becomes-is_supported _ event_type b t.event refl)
          (shard-fits (trim_space req.group_id)) in
      (
        t,
        accept-ok j api_id actor req sent ids now v,
        handle-ok j engine_id (command_for actor req (api_id ids) now) event_type sent' ids' now' rt
            b,
        applied.0,
        applied.1,
        refl,
        refl,
        refl,
        refl,
      )
