-- ===== src/Prelude/Text.antt =====
-- Go's `strings` package on native texts. A text is a sequence of Unicode scalar values, which is
-- what a Go string holds after `encoding/json` or a URL decoder has made it; `len` counts its UTF-8
-- bytes, as Go's does. `to_lower` is exact on ASCII and Latin-1, and leaves other letters alone.
use Prim.Native.Nat.{ℕ, ◌+◌, ◌<◌, compare, Ordering}
use Prim.Native.Char.{Char, char, code, IsScalar}
use Prim.Native.String.{String}
use mathlib.Core.Path.{◌≡◌, refl}
use mathlib.Core.Bool.{Bool, true, false, ◌&&◌, ◌||◌}
use mathlib.Core.Logic.{dite}
use mathlib.Core.List.{List, [], ◌∷◌}
use native.Mathlib.Decide.{dec_lt}
use native.Mathlib.Omega.{arith}
use text.Mathlib.Text.{◌==◌}
use todo_1m.Prelude.Tests.{ltb, leb, eqb, if◌then◌else◌}

-- `unicode.IsSpace`, on the code point.
pub is_space : ℕ → Bool
is_space c =
    (leb 9 c && leb c 13)
    || eqb c 32
    || eqb c 0x85
    || eqb c 0xa0
    || eqb c 0x1680
    || (leb 0x2000 c && leb c 0x200a)
    || eqb c 0x2028
    || eqb c 0x2029
    || eqb c 0x202f
    || eqb c 0x205f
    || eqb c 0x3000

abbrev pub is_nil : String → Bool
is_nil String.[] = true
is_nil (String.◌∷◌ c s) = false

unfoldable pub trim_left : String → String
unfolding is_space
trim_left String.[] = String.[]
trim_left (String.◌∷◌ c s) = if is_space (code c) then trim_left s else String.◌∷◌ c s

unfoldable pub trim_right : String → String
unfolding is_space
trim_right String.[] = String.[]
trim_right (String.◌∷◌ c s) =
    let rest = trim_right s in
    if is_space (code c) && is_nil rest then String.[] else String.◌∷◌ c rest

-- `strings.TrimSpace`
unfoldable pub trim_space : String → String
unfolding trim_left trim_right
trim_space s = trim_right (trim_left s)

is_upper : ℕ → Bool
is_upper c = (leb b'A' c && leb c b'Z') || (leb 0xc0 c && leb c 0xde && (ltb c 0xd7 || ltb 0xd7 c))

compare_of_lt : (n m : ℕ) → n < m → compare n m ≡ Ordering.lt
compare_of_lt n m h = ground arith

pub IsScalar-of_lt : (n : ℕ) → n < 55296 → IsScalar n
IsScalar-of_lt n h = rw (compare_of_lt n 55296 h) tt

-- `unicode.ToLower`, on ASCII and Latin-1.
unfoldable pub to_lower_rune : Char → Char
unfolding is_upper dec_lt
to_lower_rune c =
    if is_upper (code c)
    then dite (dec_lt (code c + 32) 55296)
        (λ h. char (code c + 32) (IsScalar-of_lt (code c + 32) h)) (λ _. c)
    else c

-- `strings.ToLower`
unfoldable pub to_lower : String → String
unfolding to_lower_rune
to_lower String.[] = String.[]
to_lower (String.◌∷◌ c s) = String.◌∷◌ (to_lower_rune c) (to_lower s)

-- `strings.EqualFold`
unfoldable pub equal_fold : String → String → Bool
unfolding to_lower
equal_fold s t = to_lower s == to_lower t

add_to_first : Char → List String → List String
add_to_first c [] = String.◌∷◌ c "" ∷ []
add_to_first c (part ∷ parts) = String.◌∷◌ c part ∷ parts

-- `strings.Split(s, sep)` at a separator of one character.
unfoldable pub split : ℕ → String → List String
unfolding add_to_first
split sep String.[] = "" ∷ []
split sep (String.◌∷◌ c s) =
    let parts = split sep s in if eqb (code c) sep then "" ∷ parts else add_to_first c parts

trims : trim_space " \n ab c\t" ≡ "ab c"
unfolding trim_space
trims = refl

lowers : to_lower "ÀbC×" ≡ "àbc×"
unfolding to_lower
lowers = refl

splits : split b'.' "app.event.7" ≡ "app" ∷ "event" ∷ "7" ∷ []
unfolding split
splits = refl
