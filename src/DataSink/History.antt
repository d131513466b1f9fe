-- ===== src/DataSink/History.antt =====
-- The read model of internal/app/datasink after any sequence of deliveries, seen one todo at a time.
use todo_1m.Prelude.{
  ℕ, ◌≡◌, refl, ◌⊎◌, inl, inr, sym, ◌∙◌, ap, subst, String, Bool, true, false, not, ◌||◌, List, [],
  ◌∷◌, Option, none, some, if◌then◌else◌, any, find, update_where, ◌==◌, eq_iff, eq_refl, arith,
  Bool-cases, All,
}
use todo_1m.Errors.{ok}
use todo_1m.Contracts.{TodoEvent}
use todo_1m.ReadModel.{ReadModel, TodoView}
use todo_1m.DataSink.{
  has_todo_id, is_undeleted, live_todo, created_todo, updated_todo, deleted_todo, insert_event,
  fits_integer,
}
use todo_1m.DataSink.Projection.{
  is_supported, todos_after, project, insert_event_all_or_nothing, insert_event_succeeds,
}

-- A message as the consumer gets it: the event, its sequence in the stream, and the database faults
-- that it meets. A redelivery is one more delivery.
pub record Delivery : Type 0 where
  pub event : TodoEvent
  pub seq : ℕ
  pub faults : List Bool
  pub at : ℕ

pub deliver : Delivery → ReadModel → ReadModel
deliver d m =
    (insert_event d.event d.seq
      (record { tables = m; faults = d.faults; ids = 0; now = d.at })).1.tables

unfoldable pub consume : List Delivery → ReadModel → ReadModel
consume [] m = m
consume (d ∷ ds) m = consume ds (deliver d m)

-- The row of a todo.
unfoldable pub view : String → ReadModel → Option TodoView
view id m = find (has_todo_id id) m.todos

-- The life of one todo: what an event about it does.
unfoldable pub advance : TodoEvent → Option TodoView → Option TodoView
advance e none = if e.event_type == "todo.created" then some (created_todo e) else none
advance e (some t) =
    if e.event_type == "todo.created" || not (is_undeleted t)
    then some t
    else if e.event_type == "todo.updated"
    then some (updated_todo e t)
    else some (deleted_todo e t)

any-find :
    (id : String) (ts : List TodoView)
    → any (has_todo_id id) ts ≡ (elim (find (has_todo_id id) ts) [ none ↦ false | some t ↦ true ])
unfolding any find
any-find id [] = refl
any-find id (t ∷ ts) = ground (arith, any-find id ts)

-- An UPDATE of one todo leaves the rows of the others.
update-other :
    (id other : String) (f : TodoView → TodoView) (ts : List TodoView)
    → ((t : TodoView) → (f t).todo_id ≡ t.todo_id)
    → (id == other) ≡ false
    → find (has_todo_id other) (update_where (live_todo id) f ts) ≡ find (has_todo_id other) ts
unfolding find update_where
update-other id other f [] k h = refl
update-other id other f (t ∷ ts) k h = ground (
  arith,
  k t,
  eq_iff t.todo_id id,
  eq_iff t.todo_id other,
  eq_iff id other,
  update-other id other f ts k h,
)

abbrev change_live : (TodoView → TodoView) → Option TodoView → Option TodoView
change_live f none = none
change_live f (some t) = if is_undeleted t then some (f t) else some t

-- An UPDATE changes the row of its todo if it is live. Only the first row with the id is read, and it
-- is the one that the test reads.
update-own :
    (id : String) (f : TodoView → TodoView) (ts : List TodoView)
    → ((t : TodoView) → (f t).todo_id ≡ t.todo_id)
    → find (has_todo_id id) (update_where (live_todo id) f ts)
      ≡ change_live f (find (has_todo_id id) ts)
unfolding find update_where
update-own id f [] k = refl
update-own id f (t ∷ ts) k = ground (arith, k t, update-own id f ts k)

todos_after-own :
    (e : TodoEvent) (ts : List TodoView)
    → find (has_todo_id e.todo_id) (todos_after e ts) ≡ advance e (find (has_todo_id e.todo_id) ts)
unfolding todos_after advance find created_todo updated_todo deleted_todo
todos_after-own e ts = ground (
  arith,
  eq_refl e.todo_id,
  any-find e.todo_id ts,
  update-own e.todo_id (updated_todo e) ts (λ t. refl),
  update-own e.todo_id (deleted_todo e) ts (λ t. refl),
)

todos_after-other :
    (e : TodoEvent) (id : String) (ts : List TodoView)
    → (e.todo_id == id) ≡ false
    → find (has_todo_id id) (todos_after e ts) ≡ find (has_todo_id id) ts
unfolding todos_after find created_todo updated_todo deleted_todo
todos_after-other e id ts h = ground (
  arith,
  update-other e.todo_id id (updated_todo e) ts (λ t. refl) h,
  update-other e.todo_id id (deleted_todo e) ts (λ t. refl) h,
)

-- What a successful delivery does to one todo.
abbrev pub touch : String → TodoEvent → Option TodoView → Option TodoView
touch id e o = if e.todo_id == id then advance e o else o

view-project :
    (id : String) (e : TodoEvent) (seq at : ℕ) (m : ReadModel)
    → view id (project e seq at m) ≡ touch id e (view id m)
unfolding view project
view-project id e seq at m = elim (Bool-cases (e.todo_id == id)) [
  | inl own ↦ rw own (
      subst
        (λ k.
          find (has_todo_id k) (todos_after e m.todos) ≡ advance e (find (has_todo_id k) m.todos))
        ((eq_iff e.todo_id id).0 own) (todos_after-own e m.todos))
  | inr other ↦ rw other (todos_after-other e id m.todos other)
]

-- A delivery makes one todo take the step of its event, or leaves it as it was: where the event is about
-- another todo, or the delivery failed.
pub deliver_touches :
    (id : String) (d : Delivery) (m : ReadModel)
    → (view id (deliver d m) ≡ touch id d.event (view id m)) ⊎ (deliver d m ≡ m)
unfolding deliver
deliver_touches id d m =
    elim (insert_event_all_or_nothing d.event d.seq
      (record { tables = m; faults = d.faults; ids = 0; now = d.at })) [
        | inl (done, known, e) ↦ inl (ap (view id) e ∙ view-project id d.event d.seq d.at m)
        | inr (x, failed, e) ↦ inr e
      ]

-- The events about a todo, in the order of delivery.
unfoldable pub life : String → List Delivery → Option TodoView → Option TodoView
life id [] o = o
life id (d ∷ ds) o = life id ds (touch id d.event o)

-- Nothing goes wrong: the event is of a known type, its shard is an integer of Postgres, and the database answers.
abbrev pub IsClean : Delivery → Type 0
IsClean d = (d.faults ≡ []) × (is_supported d.event ≡ true) × (fits_integer d.event.shard_id ≡ true)

succeeds :
    (e : TodoEvent) (seq : ℕ) (faults : List Bool) (at : ℕ) (m : ReadModel)
    → faults ≡ []
    → is_supported e ≡ true
    → fits_integer e.shard_id ≡ true
    → (insert_event e seq (record { tables = m; faults = faults; ids = 0; now = at })).0 ≡ ok tt
succeeds e seq faults at m quiet known fits =
    subst
      (λ f. (insert_event e seq (record { tables = m; faults = f; ids = 0; now = at })).0 ≡ ok tt)
      (sym quiet) (insert_event_succeeds e seq 0 at m known fits).0

pub deliver-clean :
    (d : Delivery) (m : ReadModel) → IsClean d → deliver d m ≡ project d.event d.seq d.at m
unfolding deliver
deliver-clean d m c =
    elim (insert_event_all_or_nothing d.event d.seq
      (record { tables = m; faults = d.faults; ids = 0; now = d.at })) [
        | inl (done, known, e) ↦ e
        | inr (x, failed, e) ↦
            absurd (cc (failed, succeeds d.event d.seq d.faults d.at m c.0 c.1 c.2))
      ]

-- Where every event is of a known type, its shard is an integer of Postgres, and the database answers, the row of each todo after the
-- deliveries is what the events about it make of it, in the order in which they were delivered.
pub consume_refines_life :
    (id : String) (ds : List Delivery) (m : ReadModel)
    → All IsClean ds
    → view id (consume ds m) ≡ life id ds (view id m)
unfolding consume life
consume_refines_life id [] m h = refl
consume_refines_life id (d ∷ ds) m h =
    consume_refines_life id ds (deliver d m) h.1
    ∙ ap (life id ds) (ap (view id) (deliver-clean d m h.0) ∙ view-project id d.event d.seq d.at m)
