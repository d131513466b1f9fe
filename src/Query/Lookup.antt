-- ===== src/Query/Lookup.antt =====
-- What GetTodoByID of internal/app/query/repository.go finds.
use todo_1m.Prelude.{
  ◌≡◌, refl, ap, subst, ◌∙◌, String, Bool, true, false, Option, none, some, if◌then◌else◌, arith,
}
use todo_1m.Errors.{Result, ok, err, not_found, todo_not_found}
use todo_1m.Exec.{pure, raise, after_error, on_error}
use todo_1m.Exec.Inversion.{bind-ok}
use todo_1m.Postgres.Returns.{database-ok}
use todo_1m.ReadModel.{TodoView}
use todo_1m.DataSink.{World, is_undeleted}
use todo_1m.DataSink.History.{view}
use todo_1m.Query.{found_row, select_todo, hide_missing, only_live, get_todo_by_id}

only_live-ok :
    (t u : TodoView) (w : World) → (only_live t w).0 ≡ ok u → (t ≡ u) × (is_undeleted u ≡ true)
unfolding pure raise
only_live-ok t u w h = go (is_undeleted t) refl h
  where
    ok_injective : ok t ≡ ok u → t ≡ u
    ok_injective e = cc

    go :
        (b : Bool)
        → is_undeleted t ≡ b
        → ((if b then pure t else raise todo_not_found) w).0 ≡ ok u
        → (t ≡ u) × (is_undeleted u ≡ true)
    go true alive h = let e = ok_injective h in (e, subst (λ x. is_undeleted x ≡ true) e alive)
    go false gone h = absurd (cc)

shown-ok :
    (r : Result TodoView) (w : World) {t : TodoView}
    → (after_error hide_missing r w).0 ≡ ok t
    → r ≡ ok t
unfolding hide_missing raise
shown-ok (ok t) w h = h
shown-ok (err not_found) w h = cc
shown-ok (err _) w h = cc

found_row-ok : (o : Option TodoView) {t : TodoView} → found_row o ≡ ok t → o ≡ some t
found_row-ok none h = cc
found_row-ok (some t) h = ground arith

-- A todo that is found is the row with its id, and it is not deleted.
pub get_todo_by_id-ok :
    (id : String) (w : World) {t : TodoView}
    → (get_todo_by_id id w).0 ≡ ok t
    → (view id w.tables ≡ some t) × (is_undeleted t ≡ true)
unfolding get_todo_by_id on_error select_todo view
get_todo_by_id-ok id w {t} h =
    let (u, p, q) = bind-ok _ _ w h in
    let (same, alive) = only_live-ok u t _ q in
    (found_row-ok _ (database-ok (select_todo id) w (shown-ok _ _ p)) ∙ ap some same, alive)
