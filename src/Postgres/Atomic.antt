-- ===== src/Postgres/Atomic.antt =====
-- Methods that change the tables only when they succeed.
use todo_1m.Prelude.{◌≡◌, refl, ◌∙◌, Bool, true, false, List, [], ◌∷◌}
use todo_1m.Errors.{Result, ok, err}
use todo_1m.Exec.{Exec, resume, pure, ◌>>=◌, ◌>>◌}
use todo_1m.Exec.Invariants.{Holds}
use todo_1m.Postgres.{
  World, Statement, database, transaction, no_change, call, commit, finish, begun,
}
use todo_1m.Postgres.Invariants.{InTables, no_change-tables}

-- The state that a failure leaves, and what it says of the tables `t`.
abbrev pub Failed : {S A : Type 0} → (S → Type 0) → Result A × S → Type 0
Failed Q (ok a, s) = Unit
Failed Q (err e, s) = Q s

abbrev pub Same : {T : Type 0} → T → World T → Type 0
Same t w = w.tables ≡ t

pub record Atomic {T A : Type 0} (m : Exec (World T) A) : Type 0 where
  pub rolled_back : (w : World T) → Failed (Same w.tables) (m w)

-- Whatever the tables are, they stay.
abbrev pub ReadsOnly : {T A : Type 0} → Exec (World T) A → Type 0
ReadsOnly {T} m = (t : T) → Holds (InTables (λ u. u ≡ t)) m

module _ {T A : Type 0} where
  Failed-trans : (t u : T) (r : Result A × World T) → u ≡ t → Failed (Same u) r → Failed (Same t) r
  Failed-trans t u (ok b, w) e h = tt
  Failed-trans t u (err x, w) e h = h ∙ e

module _ {T A B : Type 0} (f : A → Exec (World T) B) where
  Failed-resume :
      (t : T) (r : Result A × World T)
      → r.1.tables ≡ t
      → ((a : A) → Atomic (f a))
      → Failed (Same t) (resume r.0 f r.1)
  Failed-resume t (ok a, w) e h = Failed-trans t w.tables (f a w) e ((h a).rolled_back w)
  Failed-resume t (err x, w) e h = e

  pub Atomic-bind :
      (m : Exec (World T) A) → ReadsOnly m → ((a : A) → Atomic (f a)) → Atomic (m >>= f)
  unfolding ◌>>=◌
  Atomic-bind m r h = record {
    rolled_back =
        λ w. Failed-resume w.tables (m w) ((r w.tables).keep w (record { at = refl })).at h;
  }

module _ {T A : Type 0} where
  Failed-answer :
      (t : T) (r : Result A × T) (w : World T)
      → Failed (λ u. u ≡ t) r
      → Failed (Same t) (r.0, record w { tables = r.1 })
  Failed-answer t (ok a, u) w h = tt
  Failed-answer t (err e, u) w h = h

  Failed-call :
      (faults : List Bool) (q : Statement T A) (w : World T)
      → Failed (λ u. u ≡ w.tables) (q w.tables)
      → Failed (Same w.tables) (call faults q w)
  Failed-call [] q w h = Failed-answer w.tables (q w.tables) w h
  Failed-call (false ∷ rest) q w h =
      Failed-answer w.tables (q w.tables) (record w { faults = rest }) h
  Failed-call (true ∷ rest) q w h = refl

  pub Atomic-database :
      (q : Statement T A) → ((t : T) → Failed (λ u. u ≡ t) (q t)) → Atomic (database q)
  unfolding database
  Atomic-database q h = record { rolled_back = λ w. Failed-call w.faults q w (h w.tables) }

  Failed-commit :
      (saved : T) (a : A) (r : Result (Unit {0}) × World T) → Failed (Same saved) (commit saved a r)
  Failed-commit saved a (ok u, w) = tt
  Failed-commit saved a (err e, w) = refl

  Failed-finish : (saved : T) (r : Result A × World T) → Failed (Same saved) (finish saved r)
  Failed-finish saved (ok a, w) = Failed-commit saved a (database no_change w)
  Failed-finish saved (err e, w) = refl

  Failed-begun :
      (t : T) (body : Exec (World T) A) (r : Result (Unit {0}) × World T)
      → r.1.tables ≡ t
      → Failed (Same t) (begun body r)
  Failed-begun t body (ok u, w) e =
      Failed-trans t w.tables (begun body (ok u, w)) e (Failed-finish w.tables (body w))
  Failed-begun t body (err x, w) e = e

  -- After an error the rows are those from before, whatever the body had done.
  pub Atomic-transaction : (body : Exec (World T) A) → Atomic (transaction body)
  unfolding transaction
  Atomic-transaction body = record {
    rolled_back = λ w. Failed-begun w.tables body (database no_change w) (no_change-tables w);
  }

module _ {T A : Type 0} where
  Failed-pure :
      (t : T) (a : A) (r : Result (Unit {0}) × World T)
      → Failed (Same t) r
      → Failed (Same t) (resume r.0 (λ _. pure a) r.1)
  unfolding pure
  Failed-pure t a (ok u, w) h = tt
  Failed-pure t a (err e, w) h = h

  pub Atomic-pure : (m : Exec (World T) Unit) (a : A) → Atomic m → Atomic (m >> pure a)
  unfolding ◌>>=◌
  Atomic-pure m a h = record { rolled_back = λ w. Failed-pure w.tables a (m w) (h.rolled_back w) }
