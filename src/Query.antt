-- ===== src/Query.antt =====
-- internal/app/query/repository.go: what the API and the streams read of the read model.
pub mod Listing
pub mod Rows
pub mod Waiting
pub mod Lookup
use todo_1m.Prelude.{
  ℕ, zero, suc, ◌-◌, ◌^◌, String, Bool, true, false, not, ◌&&◌, ◌||◌, List, [], ◌∷◌, Option, none,
  some, ℤ, pos, negsuc, ltb, leb, eqb, if◌then◌else◌, find, select, any, take, ◌==◌,
}
use todo_1m.Errors.{
  Error, Result, ok, err, not_found, todo_not_found, undefined_table, database_scan,
}
use todo_1m.Exec.{Exec, pure, raise, lift, on_error, ◌>>=◌}
use todo_1m.Contracts.{TodoEvent}
use todo_1m.Postgres.{database}
use todo_1m.ReadModel.{ReadModel, TodoView, Offset}
use todo_1m.DataSink.{World, Statement, has_todo_id, is_undeleted, of_group}

abbrev pub live_in_group : String → TodoView → Bool
live_in_group group_id t = (t.group_id == group_id) && is_undeleted t

-- ORDER BY created_at DESC, by insertion.
unfoldable pub insert_by_creation : TodoView → List TodoView → List TodoView
insert_by_creation t [] = t ∷ []
insert_by_creation t (u ∷ us) =
    let rest = insert_by_creation t us in
    if leb u.created_at t.created_at then t ∷ u ∷ us else u ∷ rest

unfoldable pub latest_first : List TodoView → List TodoView
unfolding insert_by_creation
latest_first [] = []
latest_first (t ∷ ts) = insert_by_creation t (latest_first ts)

unfoldable pub select_group_todos : String → ℕ → Statement (List TodoView)
select_group_todos group_id limit m =
    (ok (take limit (latest_first (select (live_in_group group_id) m.todos))), m)

-- A limit that is not positive or above 200 becomes 50.
unfoldable pub page_limit : ℤ → ℕ
page_limit (pos n) = if eqb n 0 || ltb 200 n then 50 else n
page_limit (negsuc n) = 50

unfoldable pub list_group_todos : String → ℤ → Exec World (List TodoView)
unfolding page_limit
list_group_todos group_id limit = database (select_group_todos group_id (page_limit limit))

abbrev pub found_row {ℓ} : {A : Type ℓ} → Option A → Result A
found_row none = err not_found
found_row (some a) = ok a

unfoldable pub select_todo : String → Statement TodoView
select_todo todo_id m = (found_row (find (has_todo_id todo_id) m.todos), m)

unfoldable pub hide_missing : Error → Exec World TodoView
hide_missing not_found = raise todo_not_found
hide_missing e = raise e

abbrev pub only_live : TodoView → Exec World TodoView
only_live t = if is_undeleted t then pure t else raise todo_not_found

unfoldable pub get_todo_by_id : String → Exec World TodoView
unfolding hide_missing
get_todo_by_id todo_id = do t ← on_error (database (select_todo todo_id)) hide_missing; only_live t

-- The column of a row as a uint64: pgx refuses a negative value.
abbrev pub offset_of : Option Offset → Result ℕ
offset_of none = err not_found
offset_of (some o) = elim o.last_event_seq [ pos n ↦ ok n | negsuc n ↦ err database_scan ]

unfoldable pub select_offset : String → Statement ℕ
select_offset group_id m = (offset_of (find (of_group group_id) m.offsets), m)

-- No row and no table yet are the offset 0.
unfoldable pub zero_if_missing : Error → Exec World ℕ
zero_if_missing not_found = pure 0
zero_if_missing undefined_table = pure 0
zero_if_missing e = raise e

unfoldable pub get_group_projection_offset : String → Exec World ℕ
unfolding zero_if_missing
get_group_projection_offset group_id = on_error (database (select_offset group_id)) zero_if_missing
