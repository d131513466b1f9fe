-- ===== src/Prelude/Splits.antt =====
-- Texts put together and split again at a separator.
use Prim.Native.Nat.{ℕ}
use Prim.Native.Char.{Char, code}
use Prim.Native.String
use Prim.Native.String.{String}
use mathlib.Core.Path.{◌≡◌, refl, ap, ◌∙◌}
use mathlib.Core.Bool.{Bool, true, false, not, ◌&&◌}
use mathlib.Core.Logic.{inl, inr}
use mathlib.Core.List.{[], ◌∷◌}
use native.Mathlib.Omega.{arith}
use todo_1m.Prelude.Tests.{eqb, Bool-cases}
use todo_1m.Prelude.Text.{split}

-- A literal in front of a text, a character at a time.
pub step :
    (c : Char) (s t : String) {u : String}
    → String.◌++◌ s t ≡ u
    → String.◌++◌ (String.◌∷◌ c s) t ≡ String.◌∷◌ c u
step c s t h = (λ i. String.append.cons c s t i) ∙ ap (String.◌∷◌ c) h

pub empty_append : (t : String) → String.◌++◌ "" t ≡ t
empty_append t = λ i. String.append.nil t i

pub dot : (t : String) → String.◌++◌ "." t ≡ String.◌∷◌ "." t
dot t = step "." "" t (empty_append t)

pub append_assoc :
    (s t u : String) → String.◌++◌ (String.◌++◌ s t) u ≡ String.◌++◌ s (String.◌++◌ t u)
append_assoc String.[] t u = rw (empty_append t, empty_append (String.◌++◌ t u)) refl
append_assoc (String.◌∷◌ c s) t u =
    rw
      (
        String.append.cons c s t,
        String.append.cons c (String.◌++◌ s t) u,
        String.append.cons c s (String.◌++◌ t u),
      )
      (ap (String.◌∷◌ c) (append_assoc s t u))

-- No character of the text is the separator.
unfoldable pub lacks : ℕ → String → Bool
lacks sep String.[] = true
lacks sep (String.◌∷◌ c s) = not (eqb (code c) sep) && lacks sep s

eqb_refl : (n : ℕ) → eqb n n ≡ true
eqb_refl n = ground arith

clash : {b : Bool} (r : Bool) → b ≡ true → (not b && r) ≡ true → ⊥
clash r p q = ground arith

rest : {b : Bool} (r : Bool) → b ≡ false → (not b && r) ≡ true → r ≡ true
rest r p q = ground arith

pub split-part :
    (sep : Char) (s t : String)
    → lacks (code sep) s ≡ true
    → split (code sep) (String.◌++◌ s (String.◌∷◌ sep t)) ≡ s ∷ split (code sep) t
unfolding lacks split
split-part sep String.[] t h = rw (String.append.nil (String.◌∷◌ sep t), eqb_refl (code sep)) refl
split-part sep (String.◌∷◌ c s) t h = elim (Bool-cases (eqb (code c) (code sep))) [
  | inl hit ↦ absurd (clash _ hit h)
  | inr miss ↦
      rw (String.append.cons c s (String.◌∷◌ sep t), miss, split-part sep s t (rest _ miss h)) refl
]

pub split-whole : (sep : ℕ) (s : String) → lacks sep s ≡ true → split sep s ≡ s ∷ []
unfolding lacks split
split-whole sep String.[] h = refl
split-whole sep (String.◌∷◌ c s) h = elim (Bool-cases (eqb (code c) sep)) [
  | inl hit ↦ absurd (clash _ hit h)
  | inr miss ↦ rw (miss, split-whole sep s (rest _ miss h)) refl
]
