-- ===== src/DataSink.antt =====
-- internal/app/datasink: the consumer of the events, which keeps the read model, and the message
-- handler of cmd/data-sink/main.go.
pub mod Projection
pub mod History
pub mod Rows
pub mod Redelivery
pub mod Offsets
use todo_1m.Prelude.{
  ℕ, ◌^◌, String, Bool, true, false, not, ◌&&◌, List, [], ◌∷◌, Option, none, some, ℤ, pos, negsuc,
  ltb, to_int64, greatest, if◌then◌else◌, any, update_where, ◌==◌,
}
use todo_1m.Errors.{
  Error, Result, ok, err, invalid_event_payload, unsupported_event_type, database_encode,
}
use todo_1m.Exec.{Exec, pure, raise, lift, ◌>>=◌, ◌>>◌}
use todo_1m.Contracts.{TodoEvent, Json}
use todo_1m.Postgres
use todo_1m.Postgres.{database, transaction}
use todo_1m.ReadModel.{ReadModel, TodoView, StoredEvent, Offset}

abbrev pub World : Type 0
World = Postgres.World ReadModel

abbrev pub Statement : Type 0 → Type 0
Statement A = Postgres.Statement ReadModel A

abbrev pub has_event_id : String → StoredEvent → Bool
has_event_id id row = row.event.event_id == id

abbrev pub has_todo_id : String → TodoView → Bool
has_todo_id id t = t.todo_id == id

abbrev pub is_undeleted : TodoView → Bool
is_undeleted t = elim t.deleted_at [ none ↦ true | some d ↦ false ]

abbrev pub live_todo : String → TodoView → Bool
live_todo id t = has_todo_id id t && is_undeleted t

abbrev pub of_group : String → Offset → Bool
of_group id o = o.group_id == id

-- What a column of type integer takes.
unfoldable pub fits_integer : ℤ → Bool
fits_integer (pos n) = ltb n (2 ^ 31)
fits_integer (negsuc n) = ltb n (2 ^ 31)

-- insertEventSQL: ON CONFLICT (event_id) DO NOTHING, where `now()` is `at`. A shard_id that is no integer is refused.
unfoldable pub insert_event_row : TodoEvent → ℕ → Statement Unit
insert_event_row e at m =
    if not (fits_integer e.shard_id)
    then (err database_encode, m)
    else if any (has_event_id e.event_id) m.events
    then (ok tt, m)
    else (ok tt, record m { events = record { event = e; inserted_at = at } ∷ m.events })

unfoldable pub created_todo : TodoEvent → TodoView
created_todo e = record {
  todo_id = e.todo_id;
  group_id = e.group_id;
  title = e.title;
  created_by_user_id = e.actor_user_id;
  created_by_username = e.actor_name;
  updated_by_user_id = e.actor_user_id;
  updated_by_username = e.actor_name;
  created_at = e.occurred_at;
  updated_at = e.occurred_at;
  deleted_at = none;
}

-- upsertTodoCreatedSQL: ON CONFLICT (todo_id) DO NOTHING
unfoldable pub upsert_todo_created : TodoEvent → Statement Unit
unfolding created_todo
upsert_todo_created e m =
    if any (has_todo_id e.todo_id) m.todos
    then (ok tt, m)
    else (ok tt, record m { todos = created_todo e ∷ m.todos })

unfoldable pub updated_todo : TodoEvent → TodoView → TodoView
updated_todo e t = record t {
  title = e.title;
  updated_by_user_id = e.actor_user_id;
  updated_by_username = e.actor_name;
  updated_at = e.occurred_at;
}

unfoldable pub deleted_todo : TodoEvent → TodoView → TodoView
deleted_todo e t = record t {
  updated_by_user_id = e.actor_user_id;
  updated_by_username = e.actor_name;
  updated_at = e.occurred_at;
  deleted_at = some e.occurred_at;
}

-- applyTodoUpdatedSQL: WHERE todo_id = $1 AND deleted_at IS NULL
unfoldable pub apply_todo_updated : TodoEvent → Statement Unit
unfolding updated_todo
apply_todo_updated e m =
    (ok tt, record m { todos = update_where (live_todo e.todo_id) (updated_todo e) m.todos })

-- applyTodoDeletedSQL: WHERE todo_id = $1 AND deleted_at IS NULL
unfoldable pub apply_todo_deleted : TodoEvent → Statement Unit
unfolding deleted_todo
apply_todo_deleted e m =
    (ok tt, record m { todos = update_where (live_todo e.todo_id) (deleted_todo e) m.todos })

abbrev pub raise_offset : ℤ → ℕ → Offset → Offset
raise_offset seq at o = record o { last_event_seq = greatest o.last_event_seq seq; updated_at = at }

-- upsertGroupProjectionOffsetSQL, where `now()` is `at`.
unfoldable pub upsert_offset : String → ℤ → ℕ → Statement Unit
unfolding greatest
upsert_offset group_id seq at m =
    if any (of_group group_id) m.offsets
    then (
      ok tt,
      record m { offsets = update_where (of_group group_id) (raise_offset seq at) m.offsets },
    )
    else (
      ok tt,
      record m {
        offsets = record { group_id = group_id; last_event_seq = seq; updated_at = at } ∷ m.offsets;
      },
    )

-- The switch on the type of the event.
unfoldable pub apply_event : TodoEvent → Exec World Unit
apply_event e =
    if e.event_type == "todo.created"
    then database (upsert_todo_created e)
    else if e.event_type == "todo.updated"
    then database (apply_todo_updated e)
    else if e.event_type == "todo.deleted"
    then database (apply_todo_deleted e)
    else raise unsupported_event_type

-- `EventRepository.InsertEvent`: `now()` is the time at which the transaction begins.
unfoldable pub insert_event : TodoEvent → ℕ → Exec World Unit
unfolding apply_event
insert_event e event_seq w =
    transaction
      (do
        database (insert_event_row e w.now)
        apply_event e
        database (upsert_offset e.group_id (to_int64 event_seq) w.now))
      w

abbrev pub event_of : Option TodoEvent → Result TodoEvent
event_of none = err invalid_event_payload
event_of (some e) = ok e

-- `Service.Handle`
unfoldable pub handle : Json → String → ℕ → Exec World Unit
handle j payload event_seq = do
  e ← lift (event_of (j.unmarshal_event payload))
  insert_event e event_seq

-- What the subscription does with a message: `Ack`, `Term` or `Nak`.
pub data Disposition : Type 0 where
  ack term nak : Disposition

unfoldable pub disposition : Result (Unit {0}) → Disposition
disposition (ok u) = ack
disposition (err invalid_event_payload) = term
disposition (err unsupported_event_type) = term
disposition (err e) = nak
