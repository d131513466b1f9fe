-- ===== src/Postgres/Returns.antt =====
-- What a round trip that succeeds says of its statement.
use todo_1m.Prelude.{◌≡◌, Bool, true, false, List, [], ◌∷◌}
use todo_1m.Errors.{Result, ok, err}
use todo_1m.Exec.Returns.{Returns}
use todo_1m.Exec.{Exec}
use todo_1m.Postgres.{
  World, Statement, database, call, transaction, no_change, commit, finish, begun,
}
use todo_1m.Postgres.Invariants.{no_change-tables}

-- What a statement establishes of its value and the tables, its call does.
module _ {T A : Type 0} (Q : A → T → Type 0) where
  answer-Returns :
      (r : Result A × T) (w : World T)
      → Returns Q r
      → Returns (λ a v. Q a v.tables) (r.0, record w { tables = r.1 })
  answer-Returns (ok a, t) w h = h
  answer-Returns (err e, t) w h = tt

  call-Returns :
      (faults : List Bool) (q : Statement T A) (w : World T)
      → Returns Q (q w.tables)
      → Returns (λ a v. Q a v.tables) (call faults q w)
  call-Returns [] q w h = answer-Returns (q w.tables) w h
  call-Returns (false ∷ rest) q w h = answer-Returns (q w.tables) (record w { faults = rest }) h
  call-Returns (true ∷ rest) q w h = tt

  pub database-Returns :
      (q : Statement T A) (w : World T)
      → Returns Q (q w.tables)
      → Returns (λ a v. Q a v.tables) (database q w)
  unfolding database
  database-Returns q w h = call-Returns w.faults q w h

call-ok :
    {T A : Type 0} (faults : List Bool) (q : Statement T A) (w : World T) {a : A}
    → (call faults q w).0 ≡ ok a
    → (q w.tables).0 ≡ ok a
call-ok [] q w h = h
call-ok (false ∷ rest) q w h = h
call-ok (true ∷ rest) q w h = cc

pub database-ok :
    {T A : Type 0} (q : Statement T A) (w : World T) {a : A}
    → (database q w).0 ≡ ok a
    → (q w.tables).0 ≡ ok a
unfolding database
database-ok q w h = call-ok w.faults q w h

module _ {T A : Type 0} (Q : A → T → Type 0) where
  commit-Returns :
      (saved : T) (a : A) (r : Result (Unit {0}) × World T)
      → Q a r.1.tables
      → Returns (λ a v. Q a v.tables) (commit saved a r)
  commit-Returns saved a (ok u, w) h = h
  commit-Returns saved a (err e, w) h = tt

  finish-Returns :
      (saved : T) (r : Result A × World T)
      → Returns (λ a v. Q a v.tables) r
      → Returns (λ a v. Q a v.tables) (finish saved r)
  finish-Returns saved (ok a, w) h =
      commit-Returns saved a (database no_change w) (rw (no_change-tables w) h)
  finish-Returns saved (err e, w) h = tt

  begun-Returns :
      (body : Exec (World T) A) (t : T) (r : Result (Unit {0}) × World T)
      → r.1.tables ≡ t
      → ((v : World T) → v.tables ≡ t → Returns (λ a v. Q a v.tables) (body v))
      → Returns (λ a v. Q a v.tables) (begun body r)
  begun-Returns body t (ok u, w) e k = finish-Returns w.tables (body w) (k w e)
  begun-Returns body t (err x, w) e k = tt

  pub transaction-Returns :
      (body : Exec (World T) A) (w : World T)
      → ((v : World T) → v.tables ≡ w.tables → Returns (λ a v. Q a v.tables) (body v))
      → Returns (λ a v. Q a v.tables) (transaction body w)
  unfolding transaction
  transaction-Returns body w k =
      begun-Returns body w.tables (database no_change w) (no_change-tables w) k

  -- A statement that always succeeds, on tables that are known.
  pub statement-Returns :
      (q : Statement T A) (w : World T) (t : T)
      → w.tables ≡ t
      → Returns Q (q t)
      → Returns (λ a v. Q a v.tables) (database q w)
  statement-Returns q w t e h = database-Returns Q q w (rw e h)
