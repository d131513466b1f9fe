-- ===== src/Tests/Codecs.antt =====
-- Encodings for the examples: texts without a dot, and lists of texts joined by dots, which can be read back.
pub mod Messages
use Prim.Native.String
use Prim.Native.Char.{Char, code}
use text.Mathlib.TextEquality.{Char-path}
use todo_1m.Prelude.{
  ℕ, zero, suc, ◌+◌, ◌≡◌, refl, sym, ap, ◌∙◌, inl, inr, String, Bool, true, false, not, ◌&&◌, List,
  [], ◌∷◌, Option, none, some, ℤ, pos, negsuc, eqb, if◌then◌else◌, split, arith, Bool-cases,
  eqb_iff, All,
}
use todo_1m.Prelude.Splits.{lacks, split-part, split-whole}
use todo_1m.Platform.Auth.{Claims, Codec}
use todo_1m.Platform.Auth.Tokens.{IsCodec}
use todo_1m.Contracts.{TodoCommand, TodoEvent, Json, RoundTrips}

-- Every character is marked, and a dot is replaced.
abbrev pub escape : String → String
escape String.[] = String.[]
escape (String.◌∷◌ c s) =
    if eqb (code c) b'.'
    then String.◌∷◌ "d" (String.◌∷◌ "d" (escape s))
    else String.◌∷◌ "c" (String.◌∷◌ c (escape s))

abbrev put_back : Char → Char → String → String
put_back mark c s = if eqb (code mark) b'd' then String.◌∷◌ "." s else String.◌∷◌ c s

abbrev pub unescape : String → String
unescape String.[] = String.[]
unescape (String.◌∷◌ mark String.[]) = String.[]
unescape (String.◌∷◌ mark (String.◌∷◌ c s)) = put_back mark c (unescape s)

is_dot : (c : Char) → eqb (code c) b'.' ≡ true → "." ≡ c
is_dot c h = Char-path "." c (sym ((eqb_iff (code c) b'.').0 h))

pub unescape-escape : (s : String) → unescape (escape s) ≡ s
unescape-escape String.[] = refl
unescape-escape (String.◌∷◌ c s) = elim (Bool-cases (eqb (code c) b'.')) [
  | inl d ↦ rw (d, unescape-escape s) (ap (λ x. String.◌∷◌ x s) (is_dot c d))
  | inr o ↦ rw (o, unescape-escape s) refl
]

pub lacks-escape : (s : String) → lacks b'.' (escape s) ≡ true
unfolding lacks
lacks-escape String.[] = refl
lacks-escape (String.◌∷◌ c s) = elim (Bool-cases (eqb (code c) b'.')) [
  | inl d ↦ rw d (lacks-escape s)
  | inr o ↦ rw (o, o, lacks-escape s) refl
]

-- A number as so many marks.
abbrev pub unary : ℕ → String
unary zero = String.[]
unary (suc n) = String.◌∷◌ "x" (unary n)

abbrev pub count : String → ℕ
count String.[] = 0
count (String.◌∷◌ c s) = suc (count s)

pub count-unary : (n : ℕ) → count (unary n) ≡ n
count-unary zero = refl
count-unary (suc n) = ap (λ k. suc k) (count-unary n)

pub lacks-unary : (n : ℕ) → lacks b'.' (unary n) ≡ true
unfolding lacks
lacks-unary zero = refl
lacks-unary (suc n) = lacks-unary n

-- Texts without a dot, joined by dots.
abbrev pub join : List String → String
join [] = ""
join (s ∷ []) = s
join (s ∷ t ∷ rest) = String.◌++◌ s (String.◌∷◌ "." (join (t ∷ rest)))

pub split-join :
    (s : String) (rest : List String)
    → All (λ x. lacks b'.' x ≡ true) (s ∷ rest)
    → split b'.' (join (s ∷ rest)) ≡ s ∷ rest
split-join s [] h = split-whole b'.' s h.0
split-join s (t ∷ rest) h = split-part "." s _ h.0 ∙ ap (◌∷◌ s) (split-join t rest h.1)

abbrev claims_rest : Claims → List String
claims_rest k = escape k.username ∷ unary k.exp ∷ []

abbrev claims_text : Claims → String
claims_text k = join (escape k.subject ∷ claims_rest k)

abbrev claims_of : List String → Option Claims
claims_of (a ∷ b ∷ c ∷ []) =
    some (record { subject = unescape a; username = unescape b; exp = count c })
claims_of _ = none

-- A codec that is no secret: the MAC is the secret and the text.
abbrev pub plain : Codec
plain = record {
  marshal_claims = claims_text;
  unmarshal_claims = λ s. claims_of (split b'.' s);
  encode = escape;
  decode = λ s. some (unescape s);
  mac = λ secret s. String.◌++◌ secret s;
}

claims-back : (k : Claims) → claims_of (split b'.' (claims_text k)) ≡ some k
claims-back k =
    ap claims_of (
      split-join (escape k.subject) (claims_rest k)
        (lacks-escape k.subject, (lacks-escape k.username, (lacks-unary k.exp, tt))))
    ∙ λ i. some (record {
      subject = unescape-escape k.subject i;
      username = unescape-escape k.username i;
      exp = count-unary k.exp i;
    })

pub plain-IsCodec : IsCodec plain
plain-IsCodec = record {
  decode-encode = λ s. ap some (unescape-escape s);
  unmarshal-marshal = claims-back;
  no_dot = lacks-escape;
}
