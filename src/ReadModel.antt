-- ===== src/ReadModel.antt =====
-- The read model: the tables that internal/app/datasink/repository.go creates and writes, and that
-- internal/app/query/repository.go reads. A table is the list of its rows, the newest first.
use todo_1m.Prelude.{ℕ, String, List, Option, ℤ}
use todo_1m.Contracts.{TodoEvent}

-- A row of `todos`, which `query.TodoView` is.
pub record TodoView : Type 0 where
  pub todo_id : String
  pub group_id : String
  pub title : String
  pub created_by_user_id : String
  pub created_by_username : String
  pub updated_by_user_id : String
  pub updated_by_username : String
  pub created_at : ℕ
  pub updated_at : ℕ
  pub deleted_at : Option ℕ

-- A row of `todo_events`, with the time of the transaction that has inserted it.
pub record StoredEvent : Type 0 where
  pub event : TodoEvent
  pub inserted_at : ℕ

-- A row of `group_projection_offsets`.
pub record Offset : Type 0 where
  pub group_id : String
  pub last_event_seq : ℤ
  pub updated_at : ℕ

pub record ReadModel : Type 0 where
  pub events : List StoredEvent
  pub todos : List TodoView
  pub offsets : List Offset
