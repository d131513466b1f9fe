-- ===== src/Exec/Invariants.antt =====
-- An invariant that a method keeps, whether it returns or fails, with a rule for each way in which
-- methods are built.
use todo_1m.Prelude.{Bool, true, false, if◌then◌else◌}
use todo_1m.Errors.{Error, Result, ok, err}
use todo_1m.Exec.{Exec, pure, raise, gets, lift, ◌>>=◌, ◌>>◌, on_error, after_error, resume}

pub record Holds {S A : Type 0} (P : S → Type 0) (m : Exec S A) : Type 0 where
  pub keep : (s : S) → P s → P (m s).1

module _ {S A : Type 0} {P : S → Type 0} where
  pub Holds-pure : (a : A) → Holds P (pure a)
  unfolding pure
  Holds-pure a = record { keep = λ s p. p }

  pub Holds-raise : (e : Error) → Holds P (raise {A = A} e)
  unfolding raise
  Holds-raise e = record { keep = λ s p. p }

  pub Holds-gets : (f : S → A) → Holds P (gets f)
  unfolding gets
  Holds-gets f = record { keep = λ s p. p }

  pub Holds-lift : (r : Result A) → Holds P (lift r)
  unfolding lift
  Holds-lift r = record { keep = λ s p. p }

  pub Holds-if : (b : Bool) (m n : Exec S A) → Holds P m → Holds P n → Holds P (if b then m else n)
  Holds-if true m n hm hn = hm
  Holds-if false m n hm hn = hn

  pub Holds-on_error :
      (m : Exec S A) (f : Error → Exec S A)
      → Holds P m
      → ((e : Error) → Holds P (f e))
      → Holds P (on_error m f)
  unfolding on_error
  Holds-on_error m f hm hf = record { keep = λ s p. let (r, s') = m s in go r s' (hm.keep s p) }
    where
      go : (r : Result A) (s : S) → P s → P (after_error f r s).1
      go (ok a) s p = p
      go (err e) s p = (hf e).keep s p

module _ {S A B : Type 0} {P : S → Type 0} where
  pub Holds-bind :
      (m : Exec S A) (f : A → Exec S B) → Holds P m → ((a : A) → Holds P (f a)) → Holds P (m >>= f)
  unfolding ◌>>=◌
  Holds-bind m f hm hf = record { keep = λ s p. let (r, s') = m s in go r s' (hm.keep s p) }
    where
      go : (r : Result A) (s : S) → P s → P (resume r f s).1
      go (ok a) s p = (hf a).keep s p
      go (err e) s p = p

  pub Holds-then : (m : Exec S A) (n : Exec S B) → Holds P m → Holds P n → Holds P (m >> n)
  Holds-then m n hm hn = Holds-bind m (λ _. n) hm (λ _. hn)

pub ruleset invariant_rules = (
  Holds-pure, Holds-raise, Holds-gets, Holds-lift, Holds-if, Holds-on_error, Holds-bind, Holds-then,
)
