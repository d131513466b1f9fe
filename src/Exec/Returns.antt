-- ===== src/Exec/Returns.antt =====
-- What holds of the value and the state when a method succeeds.
use todo_1m.Errors.{Error, Result, ok, err}
use todo_1m.Exec.{Exec, ◌>>=◌, on_error, resume, after_error}

abbrev pub Returns : {S A : Type 0} → (A → S → Type 0) → Result A × S → Type 0
Returns Q (ok a, s) = Q a s
Returns Q (err e, s) = Unit

module _ {S A B : Type 0} (Q : A → S → Type 0) (R : B → S → Type 0) where
  resume-Returns :
      (f : A → Exec S B) (r : Result A × S)
      → Returns Q r
      → ((a : A) (s : S) → Q a s → Returns R (f a s))
      → Returns R (resume r.0 f r.1)
  resume-Returns f (ok a, s) h k = k a s h
  resume-Returns f (err e, s) h k = tt

  pub bind-Returns :
      (m : Exec S A) (f : A → Exec S B) (s : S)
      → Returns Q (m s)
      → ((a : A) (s : S) → Q a s → Returns R (f a s))
      → Returns R ((m >>= f) s)
  unfolding ◌>>=◌
  bind-Returns m f s h k = resume-Returns f (m s) h k

module _ {S A : Type 0} (Q : A → S → Type 0) where
  handled-Returns :
      (f : Error → Exec S A) (r : Result A × S)
      → Returns Q r
      → ((e : Error) (s : S) → Returns Q (f e s))
      → Returns Q (after_error f r.0 r.1)
  handled-Returns f (ok a, s) h k = h
  handled-Returns f (err e, s) h k = k e s

  -- A handler that only raises again.
  pub on_error-Returns :
      (m : Exec S A) (f : Error → Exec S A) (s : S)
      → Returns Q (m s)
      → ((e : Error) (s : S) → Returns Q (f e s))
      → Returns Q (on_error m f s)
  unfolding on_error
  on_error-Returns m f s h k = handled-Returns f (m s) h k

module _ {S A : Type 0} where
  -- What holds of any state after the method holds after its success.
  pub Returns-of : (P : S → Type 0) (r : Result A × S) → P r.1 → Returns (λ _. P) r
  Returns-of P (ok a, s) h = h
  Returns-of P (err e, s) h = tt
