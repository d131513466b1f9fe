-- ===== src/Postgres.antt =====
-- The database as the repositories use it (internal/platform/dbpool, pgx): statements over the tables
-- of one service, round trips that may fail, and transactions. The head of `faults` says whether the
-- next round trip fails.
pub mod Invariants
pub mod Atomic
pub mod Returns
use todo_1m.Prelude.{ℕ, Bool, true, false, List, [], ◌∷◌}
use todo_1m.Errors.{Result, ok, err, database_down}
use todo_1m.Exec.{Exec}

-- What a request reads and writes: the tables, the faults to come, how many ids the generator has
-- given out, and the time of the request.
pub record World (T : Type 0) : Type 0 where
  pub tables : T
  pub faults : List Bool
  pub ids : ℕ
  pub now : ℕ

-- A statement reads the tables and gives a result, or an error, and the tables that it leaves.
abbrev pub Statement : Type 0 → Type 0 → Type 0
Statement T A = T → Result A × T

-- BEGIN and COMMIT change no row themselves.
abbrev pub no_change : {T : Type 0} → Statement T Unit
no_change t = (ok tt, t)

module _ {T A : Type 0} where
  abbrev pub answer : Statement T A → World T → Result A × World T
  answer q w = let (r, t) = q w.tables in (r, record w { tables = t })

  abbrev pub call : List Bool → Statement T A → World T → Result A × World T
  call [] q w = answer q w
  call (false ∷ rest) q w = answer q (record w { faults = rest })
  call (true ∷ rest) q w = (err database_down, record w { faults = rest })

  -- One round trip.
  unfoldable pub database : Statement T A → Exec (World T) A
  database q w = call w.faults q w

module _ {T A : Type 0} where
  abbrev pub commit : T → A → Result (Unit {0}) × World T → Result A × World T
  commit saved a (ok u, w) = (ok a, w)
  commit saved a (err e, w) = (err e, record w { tables = saved })

  abbrev pub finish : T → Result A × World T → Result A × World T
  finish saved (ok a, w) = commit saved a (database no_change w)
  finish saved (err e, w) = (err e, record w { tables = saved })

  abbrev pub begun : Exec (World T) A → Result (Unit {0}) × World T → Result A × World T
  begun body (ok u, w) = finish w.tables (body w)
  begun body (err e, w) = (err e, w)

  -- BeginTx, the body, Commit; the deferred Rollback puts the tables back after any error.
  unfoldable pub transaction : Exec (World T) A → Exec (World T) A
  unfolding database
  transaction body w = begun body (database no_change w)
