-- ===== src/Query/Listing.antt =====
-- What a page of ListGroupTodos of internal/app/query/repository.go is.
use todo_1m.Prelude.{
  ℕ, ◌+◌, ◌≤◌, ◌≡◌, refl, ◌∙◌, ◌⊎◌, inl, inr, String, Bool, true, false, ◌&&◌, List, [], ◌∷◌, ℤ,
  pos, negsuc, length, select, take, eqb, ltb, All, Bool-cases, arith,
}
use todo_1m.Errors.{Result, ok, err, database_down}
use todo_1m.Postgres.{database, call}
use todo_1m.ReadModel.{ReadModel, TodoView}
use todo_1m.DataSink.{World}
use todo_1m.Query.{live_in_group, latest_first, select_group_todos, page_limit, list_group_todos}
use todo_1m.Query.Rows.{
  IsDescending, Has, older, latest-IsDescending, latest-All, Has-latest, Has-select, select-All,
  take-All, take-IsDescending, length-take, cut_off, count, beyond, count-beyond, count-latest,
  count-select, full_or_all,
}

page_limit-bounded : (limit : ℤ) → page_limit limit ≤ 200
unfolding page_limit
page_limit-bounded (pos n) = ground arith
page_limit-bounded (negsuc n) = ground arith

-- How many todos are asked for: the limit where it is between 1 and 200, and else 50.
abbrev pub IsAsked : ℤ → ℕ → Type 0
IsAsked (pos m) n = ((m ≡ n) × (1 ≤ m) × (m ≤ 200)) ⊎ ((n ≡ 50) × ((m ≡ 0) ⊎ (201 ≤ m)))
IsAsked (negsuc m) n = n ≡ 50

page_limit-IsAsked : (limit : ℤ) → IsAsked limit (page_limit limit)
unfolding page_limit
page_limit-IsAsked (pos m) = elim (Bool-cases (eqb m 0)) [
  | inl zero_asked ↦ rw zero_asked (inr (refl, inl (is_zero m zero_asked)))
  | inr given ↦ rw given (elim (Bool-cases (ltb 200 m)) [
    | inl much ↦ rw much (inr (refl, inr (above m much)))
    | inr fits ↦ rw fits (inl (refl, positive m given, within m fits))
  ])
]
  where
    is_zero : (m : ℕ) → eqb m 0 ≡ true → m ≡ 0
    is_zero m h = ground arith

    positive : (m : ℕ) → eqb m 0 ≡ false → 1 ≤ m
    positive m h = ground arith

    above : (m : ℕ) → ltb 200 m ≡ true → 201 ≤ m
    above m h = ground arith

    within : (m : ℕ) → ltb 200 m ≡ false → m ≤ 200
    within m h = ground arith
page_limit-IsAsked (negsuc m) = refl

-- What a page of the todos of a group is, with the read model that it is read from and the limit that is asked for. With
-- the rows that are cut off it has each live todo of the group as often as the table has it, and a row is cut off only
-- where the page has as many as are asked for.
pub record IsPage (group_id : String) (limit : ℤ) (m : ReadModel) (page : List TodoView)
    : Type 0 where
  pub size : ℕ
  pub asked : IsAsked limit size
  pub rest : List TodoView
  pub complete :
      (p : TodoView → Bool)
      → count p page + count p rest ≡ count (λ t. live_in_group group_id t && p t) m.todos
  pub full : (length page ≡ size) ⊎ ((rest ≡ []) × (length page ≤ size))
  pub short : length page ≤ 200
  pub live : All (λ t. live_in_group group_id t ≡ true) page
  pub ordered : IsDescending page
  pub newest :
      (t : TodoView)
      → live_in_group group_id t ≡ true
      → Has t m.todos
      → Has t page ⊎ All (λ u. t.created_at ≤ u.created_at) page

select-IsPage :
    (group_id : String) (limit : ℤ) (m : ReadModel)
    → IsPage group_id limit m
        (take (page_limit limit) (latest_first (select (live_in_group group_id) m.todos)))
select-IsPage group_id limit m = record {
  size = page_limit limit;
  asked = page_limit-IsAsked limit;
  rest = beyond (page_limit limit) rows;
  complete = λ p.
      count-beyond p (page_limit limit) rows
      ∙ count-latest p (select (live_in_group group_id) m.todos)
      ∙ count-select p (live_in_group group_id) m.todos;
  full = full_or_all (page_limit limit) rows;
  short = older _ _ 200 (length-take (page_limit limit) rows) (page_limit-bounded limit);
  live =
      take-All _ (page_limit limit) rows
        (latest-All _ _ (select-All (live_in_group group_id) m.todos));
  ordered = take-IsDescending (page_limit limit) rows (latest-IsDescending _);
  newest = λ t is_live there.
      cut_off (page_limit limit) t rows (latest-IsDescending _)
        (Has-latest t _ (Has-select (live_in_group group_id) t m.todos is_live there));
}
  where
    rows : List TodoView
    rows = latest_first (select (live_in_group group_id) m.todos)

abbrev pub Listed : String → ℤ → World → Result (List TodoView) × World → Type 0
Listed group_id limit w r =
    (r.1.tables ≡ w.tables)
    × (((page : List TodoView) × (r.0 ≡ ok page) × IsPage group_id limit w.tables page)
        ⊎ ((r.0 ≡ err database_down) × ((rest : List Bool) × (w.faults ≡ true ∷ rest))))

call-Listed :
    (group_id : String) (limit : ℤ) (w : World) (faults : List Bool)
    → w.faults ≡ faults
    → Listed group_id limit w (call faults (select_group_todos group_id (page_limit limit)) w)
unfolding select_group_todos
call-Listed group_id limit w [] e = (refl, inl (_, refl, select-IsPage group_id limit w.tables))
call-Listed group_id limit w (false ∷ rest) e =
    (refl, inl (_, refl, select-IsPage group_id limit w.tables))
call-Listed group_id limit w (true ∷ rest) e = (refl, inr (refl, (rest, e)))

-- ListGroupTodos returns the live todos of the group, each as often as the table has it and the newest first, up to the
-- number that is asked for, which is the limit where that is between 1 and 200 and else 50. A todo is left out only where
-- the page is full, and then none of the page is older. It fails only where its round trip fails.
pub list_group_todos-IsPage :
    (group_id : String) (limit : ℤ) (w : World)
    → Listed group_id limit w (list_group_todos group_id limit w)
unfolding list_group_todos database
list_group_todos-IsPage group_id limit w = call-Listed group_id limit w w.faults refl
