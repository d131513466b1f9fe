-- ===== src/Exec.antt =====
-- Methods that change a state and may fail: what was written before an error stays written, so the
-- state comes back beside the error too. `Holds` lifts an invariant of states to such methods.
pub mod Invariants
pub mod Inversion
pub mod Returns
use todo_1m.Prelude.{Bool, Option, none, some}
use todo_1m.Errors.{Error, Result, ok, err}

abbrev pub Exec : Type 0 → Type 0 → Type 0
Exec S A = S → Result A × S

module _ {S A : Type 0} where
  unfoldable pub pure : A → Exec S A
  pure a s = (ok a, s)

  unfoldable pub raise : Error → Exec S A
  raise e s = (err e, s)

  unfoldable pub gets : (S → A) → Exec S A
  gets f s = (ok (f s), s)

  -- The value, or the error, of a function that touches no state.
  unfoldable pub lift : Result A → Exec S A
  lift r s = (r, s)

module _ {S A B : Type 0} where
  abbrev pub resume : Result A → (A → Exec S B) → Exec S B
  resume (ok a) f s = f a s
  resume (err e) f s = (err e, s)

  infixl 10 ◌>>=◌ ◌>>◌
  unfoldable pub ◌>>=◌ : Exec S A → (A → Exec S B) → Exec S B
  unfolding pure raise gets lift
  ◌>>=◌ m f s = let (r, s') = m s in resume r f s'

  abbrev pub ◌>>◌ : Exec S A → Exec S B → Exec S B
  m >> n = m >>= λ _. n

module _ {S A : Type 0} where
  abbrev pub after_error : (Error → Exec S A) → Result A → Exec S A
  after_error f (ok a) s = (ok a, s)
  after_error f (err e) s = f e s

  -- `if err := m(); err != nil { … }`: the handler runs from the state that the failure left.
  unfoldable pub on_error : Exec S A → (Error → Exec S A) → Exec S A
  unfolding pure raise
  on_error m f s = let (r, s') = m s in after_error f r s'
