-- ===== src/Prelude/Numerals.antt =====
-- Go's `strconv.Itoa` and `strconv.Atoi` on decimal texts.
pub mod Exact
use Prim.Native.Nat.{ℕ, zero, suc, ◌+◌, ◌-◌, ◌*◌, ◌/◌, ◌%◌, ◌^◌}
use Prim.Native.Char.{Char, code}
use Prim.Native.String.{String}
use mathlib.Core.Path.{◌≡◌, refl}
use mathlib.Core.Bool.{Bool, true, false, ◌&&◌}
use mathlib.Core.Option.{Option, none, some}
use todo_1m.Prelude.Tests.{ltb, leb, eqb, if◌then◌else◌}

pub digit_char : ℕ → Char
digit_char zero = "0"
digit_char (suc zero) = "1"
digit_char (suc (suc zero)) = "2"
digit_char (suc (suc (suc zero))) = "3"
digit_char (suc (suc (suc (suc zero)))) = "4"
digit_char (suc (suc (suc (suc (suc zero))))) = "5"
digit_char (suc (suc (suc (suc (suc (suc zero)))))) = "6"
digit_char (suc (suc (suc (suc (suc (suc (suc zero))))))) = "7"
digit_char (suc (suc (suc (suc (suc (suc (suc (suc zero)))))))) = "8"
digit_char _ = "9"

-- Puts the digits of `n` in front of `out`; fuel `n + 1` is enough, since `n / 10 < n`.
pub digits : ℕ → ℕ → String → String
unfolding digit_char
digits zero n out = out
digits (suc fuel) n out =
    let out' = String.◌∷◌ (digit_char (n % 10)) out in
    elim (ltb n 10) [ true ↦ out' | false ↦ digits fuel (n / 10) out' ]

-- `strconv.Itoa`, of a number that is not negative.
unfoldable pub itoa : ℕ → String
unfolding digits
itoa n = digits (suc n) n ""

unfoldable pub is_digit : ℕ → Bool
is_digit c = leb b'0' c && leb c b'9'

-- An int: `negsuc n` is -(n + 1).
pub data ℤ : Type 0 where
  pos : ℕ → ℤ
  negsuc : ℕ → ℤ

-- `strconv.Itoa`, of any int.
unfoldable pub itoa_int : ℤ → String
unfolding itoa
itoa_int (pos n) = itoa n
itoa_int (negsuc n) = String.◌∷◌ "-" (itoa (suc n))

unfoldable pub read_digits : ℕ → String → Option ℕ
unfolding is_digit
read_digits n String.[] = some n
read_digits n (String.◌∷◌ c s) =
    if is_digit (code c) then read_digits (n * 10 + (code c - b'0')) s else none

abbrev pub max_int : ℕ
max_int = 2 ^ 63 - 1

-- int64(n), of a uint64.
unfoldable pub to_int64 : ℕ → ℤ
to_int64 n = let m = n % 2 ^ 64 in if ltb m (2 ^ 63) then pos m else negsuc (2 ^ 64 - m - 1)

-- GREATEST, on int64 values.
unfoldable pub greatest : ℤ → ℤ → ℤ
greatest (pos a) (pos b) = if leb a b then pos b else pos a
greatest (pos a) (negsuc b) = pos a
greatest (negsuc a) (pos b) = pos b
greatest (negsuc a) (negsuc b) = if leb a b then negsuc a else negsuc b

-- There is one zero.
opposite : ℕ → ℤ
opposite zero = pos zero
opposite (suc n) = negsuc n

in_range : ℕ → (ℕ → ℤ) → Option ℕ → Option ℤ
in_range bound sign none = none
in_range bound sign (some n) = if leb n bound then some (sign n) else none

digits_of : String → Option ℕ
unfolding read_digits
digits_of String.[] = none
digits_of (String.◌∷◌ c s) = read_digits 0 (String.◌∷◌ c s)

-- `strconv.Atoi`: a sign, then one digit at least, within the range of an int64.
unfoldable pub atoi : String → Option ℤ
unfolding in_range digits_of opposite
atoi String.[] = none
atoi (String.◌∷◌ c s) =
    if eqb (code c) b'-'
    then in_range (2 ^ 63) opposite (digits_of s)
    else if eqb (code c) b'+'
    then in_range max_int pos (digits_of s)
    else in_range max_int pos (digits_of (String.◌∷◌ c s))

itoa_some : itoa 1023 ≡ "1023"
unfolding itoa
itoa_some = refl

atoi-some : atoi "-17" ≡ some (negsuc 16)
unfolding atoi
atoi-some = refl
