-- ===== src/Postgres/Invariants.antt =====
-- From what the statements keep to what round trips and transactions keep, whatever fails.
use todo_1m.Prelude.{◌≡◌, refl, Bool, true, false, List, [], ◌∷◌}
use todo_1m.Errors.{Result, ok, err}
use todo_1m.Exec.{Exec, resume, ◌>>=◌}
use todo_1m.Exec.Invariants.{Holds, invariant_rules}
use todo_1m.Postgres.{
  World, Statement, database, transaction, no_change, call, commit, finish, begun,
}

-- What the requests that change rows ask of the statements.
abbrev pub Keeps : {T A : Type 0} → (T → Type 0) → Statement T A → Type 0
Keeps {T} P q = (t : T) → P t → P (q t).1

pub record InTables {T : Type 0} (P : T → Type 0) (w : World T) : Type 0 where
  pub at : P w.tables

module _ {T A : Type 0} {P : T → Type 0} where
  call-InTables :
      (faults : List Bool) (q : Statement T A) (w : World T)
      → Keeps P q
      → P w.tables
      → P (call faults q w).1.tables
  call-InTables [] q w k p = k w.tables p
  call-InTables (false ∷ rest) q w k p = k w.tables p
  call-InTables (true ∷ rest) q w k p = p

  pub Holds-database : (q : Statement T A) → Keeps P q → Holds (InTables P) (database q)
  unfolding database
  Holds-database q k = record { keep = λ w p. record { at = call-InTables w.faults q w k p.at } }

pub no_change-tables : {T : Type 0} (w : World T) → (database no_change w).1.tables ≡ w.tables
unfolding database
no_change-tables {T} w = go w.faults w
  where
    go : (faults : List Bool) (w : World T) → (call faults no_change w).1.tables ≡ w.tables
    go [] w = refl
    go (false ∷ rest) w = refl
    go (true ∷ rest) w = refl

-- What holds of the state that a success leaves; a failure inside a transaction is rolled back.
abbrev pub After : {S A : Type 0} → (S → Type 0) → Result A × S → Type 0
After Q (ok a, s) = Q s
After Q (err e, s) = Unit

module _ {T A : Type 0} (P : T → Type 0) where
  commit-InTables :
      (saved : T) (a : A) (r : Result (Unit {0}) × World T)
      → P saved
      → P r.1.tables
      → P (commit saved a r).1.tables
  commit-InTables saved a (ok u, w) s p = p
  commit-InTables saved a (err e, w) s p = s

  finish-InTables :
      (saved : T) (r : Result A × World T)
      → P saved
      → After (λ w. P w.tables) r
      → P (finish saved r).1.tables
  finish-InTables saved (ok a, w) s p =
      commit-InTables saved a (database no_change w) s (rw (no_change-tables w) p)
  finish-InTables saved (err e, w) s p = s

  begun-InTables :
      (body : Exec (World T) A) (r : Result (Unit {0}) × World T)
      → ((w : World T) → P w.tables → After (λ w. P w.tables) (body w))
      → P r.1.tables
      → P (begun body r).1.tables
  begun-InTables body (ok u, w) h p = finish-InTables w.tables (body w) p (h w p)
  begun-InTables body (err e, w) h p = p

module _ {T A : Type 0} {P : T → Type 0} where
  -- A transaction keeps what its body establishes when it succeeds.
  pub Holds-transaction :
      (body : Exec (World T) A)
      → ((w : World T) → P w.tables → After (λ w. P w.tables) (body w))
      → Holds (InTables P) (transaction body)
  unfolding transaction
  Holds-transaction body h = record {
    keep = λ w p. record {
      at = begun-InTables P body (database no_change w) h (rw (no_change-tables w) p.at);
    };
  }

module _ {T A : Type 0} (Q : T → Type 0) where
  After-answer :
      (r : Result A × T) (w : World T)
      → After Q r
      → After (λ w. Q w.tables) (r.0, record w { tables = r.1 })
  After-answer (ok a, t) w h = h
  After-answer (err e, t) w h = tt

  After-call :
      (faults : List Bool) (q : Statement T A) (w : World T)
      → After Q (q w.tables)
      → After (λ w. Q w.tables) (call faults q w)
  After-call [] q w h = After-answer (q w.tables) w h
  After-call (false ∷ rest) q w h = After-answer (q w.tables) (record w { faults = rest }) h
  After-call (true ∷ rest) q w h = tt

  pub After-database :
      (q : Statement T A) (w : World T)
      → After Q (q w.tables)
      → After (λ w. Q w.tables) (database q w)
  unfolding database
  After-database q w h = After-call w.faults q w h

module _ {T A B : Type 0} (Q R : World T → Type 0) (f : A → Exec (World T) B) where
  After-resume :
      (r : Result A × World T)
      → After Q r
      → ((a : A) (w : World T) → Q w → After R (f a w))
      → After R (resume r.0 f r.1)
  After-resume (ok a, w) h k = k a w h
  After-resume (err e, w) h k = tt

  pub After-bind :
      (m : Exec (World T) A) (w : World T)
      → After Q (m w)
      → ((a : A) (w : World T) → Q w → After R (f a w))
      → After R ((m >>= f) w)
  unfolding ◌>>=◌
  After-bind m w h k = After-resume (m w) h k

pub ruleset table_rules = (invariant_rules, Holds-database)
