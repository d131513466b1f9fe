-- ===== src/DataSink/Rows.antt =====
-- What of a row of `todos` no event of internal/app/datasink changes.
use todo_1m.Prelude.{
  ℕ, ◌≡◌, refl, inl, inr, ◌∙◌, ap, String, false, List, [], ◌∷◌, Option, none, some, ◌==◌, arith,
  Bool-cases,
}
use todo_1m.Contracts.{TodoEvent}
use todo_1m.ReadModel.{ReadModel, TodoView}
use todo_1m.DataSink.{is_undeleted, updated_todo, deleted_todo}
use todo_1m.DataSink.History.{Delivery, deliver, consume, view, advance, touch, deliver_touches}

-- A property of one todo that the steps of events keep holds after any deliveries.
module _ (P : Option TodoView → Type 0) (id : String)
    (keep : (e : TodoEvent) (o : Option TodoView) → P o → P (advance e o)) where
  touch_keeps : (e : TodoEvent) (o : Option TodoView) → P o → P (touch id e o)
  touch_keeps e o p = elim (Bool-cases (e.todo_id == id)) [
    | inl own ↦ rw own (keep e o p)
    | inr other ↦ rw other p
  ]

  pub consume_keeps :
      (ds : List Delivery) (m : ReadModel) → P (view id m) → P (view id (consume ds m))
  unfolding consume
  consume_keeps [] m p = p
  consume_keeps (d ∷ ds) m p = consume_keeps ds (deliver d m) (elim (deliver_touches id d m) [
    | inl step ↦ rw step (touch_keeps d.event (view id m) p)
    | inr same ↦ rw same p
  ])

advance-dead : (e : TodoEvent) (t : TodoView) → is_undeleted t ≡ false → advance e (some t) ≡ some t
unfolding advance
advance-dead e t h = rw (h, advance) (ground arith)

-- A row of a deleted todo is the same after any deliveries.
pub deleted_forever :
    (id : String) (t : TodoView) (ds : List Delivery) (m : ReadModel)
    → view id m ≡ some t
    → is_undeleted t ≡ false
    → view id (consume ds m) ≡ some t
deleted_forever id t ds m h gone =
    consume_keeps (λ o. o ≡ some t) id (λ e o p. ap (advance e) p ∙ advance-dead e t gone) ds m h

abbrev pub origin : TodoView → String × String × String × ℕ
origin t = (t.group_id, t.created_by_user_id, t.created_by_username, t.created_at)

abbrev pub HasOrigin : String × String × String × ℕ → Option TodoView → Type 0
HasOrigin g none = ⊥
HasOrigin g (some t) = origin t ≡ g

advance-HasOrigin :
    (g : String × String × String × ℕ) (e : TodoEvent) (o : Option TodoView)
    → HasOrigin g o
    → HasOrigin g (advance e o)
unfolding advance updated_todo deleted_todo
advance-HasOrigin g e none h = absurd h
advance-HasOrigin g e (some t) h = ground arith

-- A todo that has a row has one after any deliveries, with the same group, creator and time of
-- creation.
pub origin_fixed :
    (id : String) (t : TodoView) (ds : List Delivery) (m : ReadModel)
    → view id m ≡ some t
    → HasOrigin (origin t) (view id (consume ds m))
origin_fixed id t ds m h =
    consume_keeps (HasOrigin (origin t)) id (advance-HasOrigin (origin t)) ds m (rw h refl)
