-- ===== src/Exec/Inversion.antt =====
-- What a success of a sequence of actions says of its parts.
use todo_1m.Prelude.{◌≡◌, ◌⊎◌, inl, inr, refl}
use todo_1m.Errors.{Error, Result, ok, err}
use todo_1m.Exec.{Exec, ◌>>=◌, resume}

module _ {A : Type 0} where
  pub Result-cases : (r : Result A) → ((a : A) × (r ≡ ok a)) ⊎ ((e : Error) × (r ≡ err e))
  Result-cases (ok a) = inl (a, refl)
  Result-cases (err e) = inr (e, refl)

module _ {S A B : Type 0} where
  resume-ok :
      (r : Result A) (f : A → Exec S B) (s : S) {b : B}
      → (resume r f s).0 ≡ ok b
      → (a : A) × (r ≡ ok a) × ((f a s).0 ≡ ok b)
  resume-ok (ok a) f s h = (a, refl, h)
  resume-ok (err e) f s h = cc

  pub bind-ok :
      (m : Exec S A) (f : A → Exec S B) (s : S) {b : B}
      → ((m >>= f) s).0 ≡ ok b
      → (a : A) × ((m s).0 ≡ ok a) × ((f a (m s).1).0 ≡ ok b)
  unfolding ◌>>=◌
  bind-ok m f s h = resume-ok (m s).0 f (m s).1 h
