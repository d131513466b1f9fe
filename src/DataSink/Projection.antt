-- ===== src/DataSink/Projection.antt =====
-- What one delivered event does to the tables of internal/app/datasink/repository.go.
use todo_1m.Prelude.{
  ℕ, ◌≡◌, refl, ◌⊎◌, inl, inr, Bool, true, ◌||◌, List, [], ◌∷◌, ℤ, to_int64, if◌then◌else◌, any,
  update_where, ◌==◌, arith, Bool-cases,
}
use todo_1m.Errors.{Error, Result, ok, err}
use todo_1m.Exec.{raise, ◌>>=◌}
use todo_1m.Contracts.{TodoEvent}
use todo_1m.Postgres.{transaction}
use todo_1m.Exec.Returns.{Returns, bind-Returns, Returns-of}
use todo_1m.Postgres.Returns.{statement-Returns, transaction-Returns}
use todo_1m.Postgres.Atomic.{Failed, Same, Atomic-transaction}
use todo_1m.ReadModel.{ReadModel, TodoView, StoredEvent, Offset}
use todo_1m.DataSink.{
  World, has_event_id, fits_integer, has_todo_id, live_todo, of_group, insert_event_row,
  created_todo, upsert_todo_created, updated_todo, deleted_todo, apply_todo_updated,
  apply_todo_deleted, raise_offset, upsert_offset, apply_event, insert_event,
}

-- The types of event that the service knows.
abbrev pub is_supported : TodoEvent → Bool
is_supported e =
    (e.event_type == "todo.created")
    || (e.event_type == "todo.updated")
    || (e.event_type == "todo.deleted")

unfoldable pub events_after : TodoEvent → ℕ → List StoredEvent → List StoredEvent
events_after e at es =
    if any (has_event_id e.event_id) es then es else record { event = e; inserted_at = at } ∷ es

unfoldable pub todos_after : TodoEvent → List TodoView → List TodoView
todos_after e ts =
    if e.event_type == "todo.created"
    then (if any (has_todo_id e.todo_id) ts then ts else created_todo e ∷ ts)
    else if e.event_type == "todo.updated"
    then update_where (live_todo e.todo_id) (updated_todo e) ts
    else update_where (live_todo e.todo_id) (deleted_todo e) ts

unfoldable pub offsets_after : TodoEvent → ℤ → ℕ → List Offset → List Offset
offsets_after e seq at os =
    if any (of_group e.group_id) os
    then update_where (of_group e.group_id) (raise_offset seq at) os
    else record { group_id = e.group_id; last_event_seq = seq; updated_at = at } ∷ os

-- The read model after an event that was applied at a time.
unfoldable pub project : TodoEvent → ℕ → ℕ → ReadModel → ReadModel
project e seq at m = record {
  events = events_after e at m.events;
  todos = todos_after e m.todos;
  offsets = offsets_after e (to_int64 seq) at m.offsets;
}

abbrev Leaves : ReadModel → Result (Unit {0}) × World → Type 0
Leaves m = Returns (λ _ v. v.tables ≡ m)

event_row-Returns :
    (e : TodoEvent) (at : ℕ) (m : ReadModel)
    → Returns
        (λ _ t. t ≡ record m { events = events_after e at m.events })
        (insert_event_row e at m)
unfolding insert_event_row events_after
event_row-Returns e at m = elim (Bool-cases (fits_integer e.shard_id)) [
  | inl fits ↦ rw fits (ground arith)
  | inr unfit ↦ rw unfit tt
]

offset-Returns :
    (e : TodoEvent) (seq : ℤ) (at : ℕ) (m : ReadModel)
    → Returns
        (λ _ t. t ≡ record m { offsets = offsets_after e seq at m.offsets })
        (upsert_offset e.group_id seq at m)
unfolding upsert_offset offsets_after
offset-Returns e seq at m = ground arith

created-Returns :
    (e : TodoEvent) (m : ReadModel)
    → (e.event_type == "todo.created") ≡ true
    → Returns (λ _ t. t ≡ record m { todos = todos_after e m.todos }) (upsert_todo_created e m)
unfolding upsert_todo_created todos_after
created-Returns e m h = ground arith

apply-Leaves :
    (e : TodoEvent) (m : ReadModel) (w : World)
    → w.tables ≡ m
    → Leaves (record m { todos = todos_after e m.todos }) (apply_event e w)
unfolding apply_event raise
apply-Leaves e m w h = elim (Bool-cases (e.event_type == "todo.created")) [
  | inl c ↦
      rw (c, apply_event)
        (statement-Returns (λ _ t. t ≡ record m { todos = todos_after e m.todos }) _ w m h
          (created-Returns e m c))
  | inr nc ↦ elim (Bool-cases (e.event_type == "todo.updated")) [
    | inl u ↦
        rw (nc, u, apply_event)
          (statement-Returns (λ _ t. t ≡ record m { todos = todos_after e m.todos }) _ w m h
            (unfold apply_todo_updated todos_after in rw (nc, u) refl))
    | inr nu ↦ elim (Bool-cases (e.event_type == "todo.deleted")) [
      | inl d ↦
          rw (nc, nu, d, apply_event)
            (statement-Returns (λ _ t. t ≡ record m { todos = todos_after e m.todos }) _ w m h
              (unfold apply_todo_deleted todos_after in rw (nc, nu) refl))
      | inr nd ↦ rw (nc, nu, nd, apply_event) tt
    ]
  ]
]

insert-Leaves :
    (e : TodoEvent) (seq : ℕ) (w : World)
    → Leaves (project e seq w.now w.tables) (insert_event e seq w)
unfolding insert_event project
insert-Leaves e seq w =
    transaction-Returns (λ _ t. t ≡ project e seq w.now w.tables) _ w
      λ v same.
        bind-Returns
          (λ _ u. u.tables ≡ record w.tables { events = events_after e w.now w.tables.events }) _ _
          _ v
          (statement-Returns _ (insert_event_row e w.now) v w.tables same
            (event_row-Returns e w.now w.tables))
          λ _ u eu.
            bind-Returns
              (λ _ x. x.tables ≡ record w.tables {
                events = events_after e w.now w.tables.events;
                todos = todos_after e w.tables.todos;
              })
              _ _ _ u (apply-Leaves e _ u eu)
              λ _ x ex. statement-Returns _ _ x _ ex (offset-Returns e (to_int64 seq) w.now _)

apply-supported :
    (e : TodoEvent) (w : World) → Returns (λ _ _. is_supported e ≡ true) (apply_event e w)
unfolding apply_event raise
apply-supported e w = elim (Bool-cases (is_supported e)) [
  | inl known ↦ Returns-of (λ _. is_supported e ≡ true) _ known
  | inr unknown ↦ ground arith
]

insert-supported :
    (e : TodoEvent) (seq : ℕ) (w : World)
    → Returns (λ _ _. is_supported e ≡ true) (insert_event e seq w)
unfolding insert_event
insert-supported e seq w =
    transaction-Returns (λ _ _. is_supported e ≡ true) _ w
      λ v _.
        bind-Returns (λ _ _. Unit) _ _ _ v (Returns-of (λ _. Unit) _ tt)
          λ _ u _.
            bind-Returns (λ _ _. is_supported e ≡ true) _ _ _ u (apply-supported e u)
              λ _ x known. Returns-of (λ _. is_supported e ≡ true) _ known

abbrev pub Outcome : TodoEvent → ℕ → ℕ → ReadModel → Result (Unit {0}) × World → Type 0
Outcome e seq at m r =
    ((r.0 ≡ ok tt) × (is_supported e ≡ true) × (r.1.tables ≡ project e seq at m))
    ⊎ ((x : Error) × (r.0 ≡ err x) × (r.1.tables ≡ m))

outcome :
    (e : TodoEvent) (seq at : ℕ) (m : ReadModel) (r : Result (Unit {0}) × World)
    → Returns (λ _ _. is_supported e ≡ true) r
    → Leaves (project e seq at m) r
    → Failed (Same m) r
    → Outcome e seq at m r
outcome e seq at m (ok u, w) k l f = inl (refl, k, l)
outcome e seq at m (err x, w) k l f = inr (x, refl, f)

rolled_back : (e : TodoEvent) (seq : ℕ) (w : World) → Failed (Same w.tables) (insert_event e seq w)
unfolding insert_event
rolled_back e seq w = (Atomic-transaction _).rolled_back w

-- InsertEvent applies an event of a known type as a whole, as `project` says, and returns no error; or it
-- returns an error, and every table is as before.
pub insert_event_all_or_nothing :
    (e : TodoEvent) (seq : ℕ) (w : World) → Outcome e seq w.now w.tables (insert_event e seq w)
insert_event_all_or_nothing e seq w =
    outcome e seq w.now w.tables (insert_event e seq w) (insert-supported e seq w)
      (insert-Leaves e seq w) (rolled_back e seq w)

returns_ok :
    (e : TodoEvent) (seq ids now : ℕ) (m : ReadModel)
    → is_supported e ≡ true
    → fits_integer e.shard_id ≡ true
    → (insert_event e seq (record { tables = m; faults = []; ids = ids; now = now })).0 ≡ ok tt
unfolding insert_event apply_event insert_event_row upsert_todo_created apply_todo_updated
    apply_todo_deleted upsert_offset ◌>>=◌ raise transaction
returns_ok e seq ids now m h fits = rw fits (ground arith)

-- With no database fault, an event of a known type whose shard is an integer of Postgres is applied: InsertEvent returns
-- no error, the event is stored, its todo takes the step of its type, and the offset of its group is raised, as `project`
-- says.
pub insert_event_succeeds :
    (e : TodoEvent) (seq ids now : ℕ) (m : ReadModel)
    → is_supported e ≡ true
    → fits_integer e.shard_id ≡ true
    → ((insert_event e seq (record { tables = m; faults = []; ids = ids; now = now })).0 ≡ ok tt)
      × ((insert_event e seq (record { tables = m; faults = []; ids = ids; now = now })).1.tables
          ≡ project e seq now m)
insert_event_succeeds e seq ids now m known fits =
    let w : World = record { tables = m; faults = []; ids = ids; now = now } in
    elim (insert_event_all_or_nothing e seq w) [
      | inl (done, _, same) ↦ (done, same)
      | inr (x, failed, _) ↦ absurd (cc (failed, returns_ok e seq ids now m known fits))
    ]
