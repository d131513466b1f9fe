-- ===== src/DataSink/Redelivery.antt =====
-- At-least-once delivery to internal/app/datasink: what a second delivery of an event does.
use todo_1m.Prelude.{
  ℕ, ◌≡◌, refl, sym, ◌∙◌, ap, String, true, false, List, [], ◌∷◌, some, ℤ, pos, negsuc, greatest,
  to_int64, any, update_where, update_where-none, update_where-twice, ◌==◌, eq_iff, eq_refl, arith,
}
use todo_1m.Contracts.{TodoEvent}
use todo_1m.ReadModel.{ReadModel, TodoView, StoredEvent, Offset}
use todo_1m.DataSink.{
  is_undeleted, live_todo, created_todo, updated_todo, deleted_todo, of_group, raise_offset,
}
use todo_1m.DataSink.Projection.{events_after, todos_after, offsets_after, project}
use todo_1m.DataSink.History.{
  Delivery, IsClean, deliver, deliver-clean, consume, view, touch, life, advance,
  consume_refines_life,
}

events-twice :
    (e : TodoEvent) (at again : ℕ) (es : List StoredEvent)
    → events_after e again (events_after e at es) ≡ events_after e at es
unfolding events_after any
events-twice e at again es = ground (arith, eq_refl e.event_id)

todos-twice :
    (e : TodoEvent) (ts : List TodoView) → todos_after e (todos_after e ts) ≡ todos_after e ts
unfolding todos_after any created_todo
todos-twice e ts = ground (
  arith,
  eq_refl e.todo_id,
  update_where-twice (live_todo e.todo_id) (updated_todo e) ts
      (λ t h. unfold updated_todo in ground arith),
  update_where-twice (live_todo e.todo_id) (deleted_todo e) ts
      (λ t h. unfold deleted_todo in ground arith),
)

greatest_self : (a b : ℤ) → greatest (greatest a b) b ≡ greatest a b
unfolding greatest
greatest_self (pos a) (pos b) = ground arith
greatest_self (pos a) (negsuc b) = ground arith
greatest_self (negsuc a) (pos b) = ground arith
greatest_self (negsuc a) (negsuc b) = ground arith

greatest_idem : (a : ℤ) → greatest a a ≡ a
unfolding greatest
greatest_idem (pos a) = ground arith
greatest_idem (negsuc a) = ground arith

any-raised :
    (g : String) (s : ℤ) (at : ℕ) (os : List Offset)
    → any (of_group g) (update_where (of_group g) (raise_offset s at) os) ≡ any (of_group g) os
unfolding any update_where
any-raised g s at [] = refl
any-raised g s at (o ∷ os) = ground (arith, any-raised g s at os)

-- The second of two updates of an offset with one sequence leaves its own time.
raised-twice :
    (g : String) (s : ℤ) (at again : ℕ) (os : List Offset)
    → update_where
        (of_group g)
        (raise_offset s again)
        (update_where (of_group g) (raise_offset s at) os)
      ≡ update_where (of_group g) (raise_offset s again) os
unfolding update_where
raised-twice g s at again [] = refl
raised-twice g s at again (o ∷ os) =
    ground (arith, greatest_self o.last_event_seq s, raised-twice g s at again os)

offsets-twice :
    (e : TodoEvent) (s : ℤ) (at again : ℕ) (os : List Offset)
    → offsets_after e s again (offsets_after e s at os) ≡ offsets_after e s again os
unfolding offsets_after any update_where
offsets-twice e s at again os = ground (
  arith,
  eq_refl e.group_id,
  any-raised e.group_id s at os,
  greatest_idem s,
  update_where-none (of_group e.group_id) (raise_offset s again) os,
  raised-twice e.group_id s at again os,
)

project-twice :
    (e : TodoEvent) (seq at again : ℕ) (m : ReadModel)
    → project e seq again (project e seq at m)
      ≡ record (project e seq at m) { offsets = (project e seq again m).offsets }
unfolding project
project-twice e seq at again m = λ i. record {
  events = events-twice e at again m.events i;
  todos = todos-twice e m.todos i;
  offsets = offsets-twice e (to_int64 seq) at again m.offsets i;
}

-- Where the event is of a known type, its shard is an integer of Postgres, and the database answers: a second delivery
-- right after the first leaves the stored events and the todos as the first did, and the offsets, with the time of their
-- change, as if only the second had been.
pub redelivery_idempotent :
    (d : Delivery) (again : ℕ) (m : ReadModel)
    → IsClean d
    → consume (d ∷ record d { at = again } ∷ []) m
      ≡ record (consume (d ∷ []) m) { offsets = (consume (record d { at = again } ∷ []) m).offsets }
unfolding consume
redelivery_idempotent d again m c =
    deliver-clean (record d { at = again }) _ c
    ∙ ap (project d.event d.seq again) (deliver-clean d m c)
    ∙ project-twice d.event d.seq d.at again m
    ∙ sym (
        ap (λ (x : ReadModel). record x { offsets = (deliver (record d { at = again }) m).offsets })
          (deliver-clean d m c)
        ∙ ap (λ (x : ReadModel). record (project d.event d.seq d.at m) { offsets = x.offsets })
            (deliver-clean (record d { at = again }) m c))

-- An event that updates a todo.
pub record IsUpdateOf (id : String) (d : Delivery) : Type 0 where
  pub clean : IsClean d
  pub same_todo : (d.event.todo_id == id) ≡ true
  pub updates : (d.event.event_type == "todo.updated") ≡ true

touch-update :
    (id : String) (d : Delivery) (t : TodoView)
    → IsUpdateOf id d
    → is_undeleted t ≡ true
    → touch id d.event (some t) ≡ some (updated_todo d.event t)
unfolding advance
touch-update id d t u alive =
    rw (u.same_todo, not_created d.event.event_type u.updates, alive, u.updates) refl
  where
    not_created :
        (type : String) → (type == "todo.updated") ≡ true → (type == "todo.created") ≡ false
    not_created type h = rw ((eq_iff type "todo.updated").0 h) refl

-- For a todo that is not deleted, where the database answers and shards are integers of Postgres: an update that is delivered again
-- after a later update leaves the row as if the later update had not been.
pub redelivery_reverts :
    (id : String) (t : TodoView) (first later : Delivery) (m : ReadModel)
    → view id m ≡ some t
    → is_undeleted t ≡ true
    → IsUpdateOf id first
    → IsUpdateOf id later
    → view id (consume (first ∷ later ∷ first ∷ []) m) ≡ some (updated_todo first.event t)
unfolding life updated_todo
redelivery_reverts id t first later m h alive a b =
    consume_refines_life id (first ∷ later ∷ first ∷ []) m (a.clean, (b.clean, (a.clean, tt)))
    ∙ ap (λ o. touch id first.event (touch id later.event (touch id first.event o))) h
    ∙ ap (λ o. touch id first.event (touch id later.event o)) (touch-update id first t a alive)
    ∙ ap (touch id first.event) (touch-update id later _ b alive)
    ∙ touch-update id first _ a alive
