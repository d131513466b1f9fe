-- ===== src/Prelude/Numerals/Exact.antt =====
-- The decimal text of a number determines it.
use Prim.Native.Nat.{ℕ, zero, suc, ◌+◌, ◌-◌, ◌*◌, ◌/◌, ◌%◌, ◌<◌}
use Prim.Native.Char.{Char, code}
use Prim.Native.String
use Prim.Native.String.{String}
use mathlib.Core.Path.{◌≡◌, refl, sym, ap, ◌∙◌}
use mathlib.Core.Bool.{Bool, true, false, ◌&&◌}
use mathlib.Core.Logic.{inl, inr}
use mathlib.Core.Option.{some}
use native.Mathlib.Omega.{arith}
use todo_1m.Prelude.Tests.{ltb, eqb, Bool-cases, all_below, all_below-lt, eqb_iff}
use todo_1m.Prelude.Numerals.{digit_char, digits, is_digit, read_digits, itoa}

abbrev is_digit_of : ℕ → Bool
is_digit_of k = is_digit (code (digit_char k)) && eqb (code (digit_char k) - b'0') k

digit_table : all_below 10 is_digit_of ≡ true
unfolding all_below is_digit digit_char
digit_table = refl

both : (a b : Bool) → (a && b) ≡ true → (a ≡ true) × (b ≡ true)
both a b h = ground arith

pub digit_char-exact :
    (k : ℕ) → k < 10 → (is_digit (code (digit_char k)) ≡ true) × (code (digit_char k) - b'0' ≡ k)
digit_char-exact k h =
    let p =
      both (is_digit (code (digit_char k))) (eqb (code (digit_char k) - b'0') k)
        (all_below-lt 10 is_digit_of k digit_table h) in
    (p.0, (eqb_iff (code (digit_char k) - b'0') k).0 p.1)

read_digit :
    (k acc : ℕ) (out : String)
    → k < 10
    → read_digits acc (String.◌∷◌ (digit_char k) out) ≡ read_digits (acc * 10 + k) out
unfolding read_digits
read_digit k acc out h = let p = digit_char-exact k h in rw (p.0, p.1) refl

digits-append :
    (fuel n : ℕ) (out rest : String)
    → String.◌++◌ (digits fuel n out) rest ≡ digits fuel n (String.◌++◌ out rest)
unfolding digits
digits-append zero n out rest = refl
digits-append (suc fuel) n out rest = elim (Bool-cases (ltb n 10)) [
  | inl small ↦ rw (small, digits) (String.append.cons (digit_char (n % 10)) out rest)
  | inr big ↦
      rw (big, digits)
        (digits-append fuel (n / 10) (String.◌∷◌ (digit_char (n % 10)) out) rest
          ∙ ap (digits fuel (n / 10)) (String.append.cons (digit_char (n % 10)) out rest))
]

-- What reads a text digit by digit reads a number back, whatever follows.
module _ {A : Type 0} (read : ℕ → String → A)
    (step : (k acc : ℕ) (out : String)
      → k < 10
      → read acc (String.◌∷◌ (digit_char k) out) ≡ read (acc * 10 + k) out) where
  read-digits : (fuel n : ℕ) (out : String) → n < fuel → read 0 (digits fuel n out) ≡ read n out
  unfolding digits
  read-digits zero n out h = absurd (omega arith)
  read-digits (suc fuel) n out h = elim (Bool-cases (ltb n 10)) [
    | inl small ↦
        rw (small, digits)
          (step (n % 10) 0 out (omega arith) ∙ ap (λ (k : ℕ). read k out) (last n small))
    | inr big ↦
        rw (big, digits)
          (read-digits fuel (n / 10) (String.◌∷◌ (digit_char (n % 10)) out) (fewer n fuel big h)
            ∙ step (n % 10) (n / 10) out (omega arith)
            ∙ ap (λ (k : ℕ). read k out) (whole n))
  ]
    where
      last : (n : ℕ) → ltb n 10 ≡ true → 0 * 10 + n % 10 ≡ n
      last n small = ground arith

      whole : (n : ℕ) → n / 10 * 10 + n % 10 ≡ n
      whole n = omega arith

      fewer : (n fuel : ℕ) → ltb n 10 ≡ false → n < suc fuel → n / 10 < fuel
      fewer n fuel big h = ground arith

  pub read-itoa : (n : ℕ) (out : String) → read 0 (String.◌++◌ (itoa n) out) ≡ read n out
  unfolding itoa
  read-itoa n out =
      ap (read 0) (digits-append (suc n) n "" out ∙ ap (digits (suc n) n) (String.append.nil out))
      ∙ read-digits (suc n) n out (omega arith)

  pub read-itoa_alone : (n : ℕ) → read 0 (itoa n) ≡ read n ""
  unfolding itoa
  read-itoa_alone n = read-digits (suc n) n "" (omega arith)

pub read_digits-itoa : (n : ℕ) → read_digits 0 (itoa n) ≡ some n
unfolding read_digits
read_digits-itoa n = read-itoa_alone read_digits read_digit n

pub itoa_injective : (m n : ℕ) → itoa m ≡ itoa n → m ≡ n
itoa_injective m n e =
    let both_read : some m ≡ some n =
      sym (read_digits-itoa m) ∙ ap (read_digits 0) e ∙ read_digits-itoa n in
    cc

same_rest : (c : Char) (s t : String) → String.◌∷◌ c s ≡ String.◌∷◌ c t → s ≡ t
same_rest c s t e = cc

pub append_cancel : (s t u : String) → String.◌++◌ s t ≡ String.◌++◌ s u → t ≡ u
append_cancel String.[] t u e = sym (String.append.nil t) ∙ e ∙ String.append.nil u
append_cancel (String.◌∷◌ c s) t u e =
    append_cancel s t u
      (same_rest c _ _ (sym (String.append.cons c s t) ∙ e ∙ String.append.cons c s u))
