-- ===== src/Prelude/Trim.antt =====
-- `trim_space` on texts that are trimmed.
use Prim.Native.Char.{Char, code}
use Prim.Native.String.{String}
use mathlib.Core.Path.{◌≡◌, refl, ap, ◌∙◌}
use mathlib.Core.Bool.{Bool, true, false, ◌&&◌}
use mathlib.Core.Logic.{inl, inr}
use todo_1m.Prelude.Tests.{Bool-cases, if◌then◌else◌}
use todo_1m.Prelude.Text.{is_space, is_nil, trim_left, trim_right, trim_space}

-- The text does not begin with a space.
abbrev NoLead : String → Type 0
NoLead String.[] = Unit
NoLead (String.◌∷◌ c s) = is_space (code c) ≡ false

trim_left-NoLead : (s : String) → NoLead (trim_left s)
unfolding trim_left
trim_left-NoLead String.[] = tt
trim_left-NoLead (String.◌∷◌ c s) = elim (Bool-cases (is_space (code c))) [
  | inl space ↦ rw space (trim_left-NoLead s)
  | inr other ↦ rw other other
]

trim_left_id : (s : String) → NoLead s → trim_left s ≡ s
unfolding trim_left
trim_left_id String.[] h = refl
trim_left_id (String.◌∷◌ c s) h = rw h refl

trim_right-NoLead : (s : String) → NoLead s → NoLead (trim_right s)
unfolding trim_right
trim_right-NoLead String.[] h = tt
trim_right-NoLead (String.◌∷◌ c s) h = rw h h

keep_idem :
    (c : Char) (b : Bool) (r : String)
    → (is_space (code c) && is_nil r) ≡ b
    → trim_right r ≡ r
    → trim_right (if b then String.[] else String.◌∷◌ c r)
      ≡ (if b then String.[] else String.◌∷◌ c r)
unfolding trim_right
keep_idem c true r e h = refl
keep_idem c false r e h = rw (h, e) refl

trim_right_idem : (s : String) → trim_right (trim_right s) ≡ trim_right s
unfolding trim_right
trim_right_idem String.[] = refl
trim_right_idem (String.◌∷◌ c s) = keep_idem c _ (trim_right s) refl (trim_right_idem s)

pub trim_space_idem : (s : String) → trim_space (trim_space s) ≡ trim_space s
unfolding trim_space
trim_space_idem s =
    ap trim_right (trim_left_id _ (trim_right-NoLead (trim_left s) (trim_left-NoLead s)))
    ∙ trim_right_idem (trim_left s)
