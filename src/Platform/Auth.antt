-- ===== src/Platform/Auth.antt =====
-- internal/platform/auth/jwt.go: access tokens signed with HMAC-SHA256. A time is a number of
-- nanoseconds. The JSON and base64 of a segment and the MAC come as a `Codec`.
use Prim.Native.String
pub mod Tokens
pub mod Authentic
use todo_1m.Prelude.{
  ℕ, ◌+◌, ◌/◌, String, code, Bool, ◌||◌, List, [], ◌∷◌, Option, none, some, leb, eqb, if◌then◌else◌,
  split, equal_fold, trim_space, ◌==◌,
}
use todo_1m.Errors.{Result, ok, err, invalid_token, expired_token}

pub record Claims : Type 0 where
  pub subject : String
  pub username : String
  pub exp : ℕ

abbrev pub second : ℕ
second = 1_000_000_000

-- The secret and how long a token lives; `Now` is an argument of each method.
pub record Manager : Type 0 where
  pub secret : String
  pub ttl : ℕ

-- What the tokens use of `encoding/json`, `encoding/base64` and `crypto/hmac`. A text of bytes
-- stands for a byte slice.
pub record Codec : Type 0 where
  pub marshal_claims : Claims → String
  pub unmarshal_claims : String → Option Claims
  pub encode : String → String
  pub decode : String → Option String
  -- the secret, then the text that is signed
  pub mac : String → String → String

infixr 65 ◌+++◌
abbrev pub ◌+++◌ : String → String → String
s +++ t = String.◌++◌ s t

abbrev pub header : String
header = "{\"alg\":\"HS256\",\"typ\":\"JWT\"}"

abbrev pub is_empty : String → Bool
is_empty s = s == ""

module _ (c : Codec) where
  -- The two segments that the MAC covers.
  unfoldable pub signed_part : Claims → String
  signed_part claims = c.encode header +++ "." +++ c.encode (c.marshal_claims claims)

  unfoldable pub sign : Manager → ℕ → String → String → Result String
  unfolding signed_part
  sign m now user_id username =
      let claims : Claims = record {
        subject = user_id;
        username = username;
        exp = (now + m.ttl) / second;
      } in
      let signed = signed_part claims in ok (signed +++ "." +++ c.encode (c.mac m.secret signed))

  unfoldable pub check_claims : ℕ → Option Claims → Result Claims
  check_claims now none = err invalid_token
  check_claims now (some claims) =
      if is_empty claims.subject || is_empty claims.username || eqb claims.exp 0
      then err invalid_token
      else if leb claims.exp (now / second)
      then err expired_token
      else ok claims

  unfoldable pub check_payload : ℕ → Option String → Result Claims
  check_payload now none = err invalid_token
  check_payload now (some payload) = check_claims now (c.unmarshal_claims payload)

  unfoldable pub check_mac : Manager → ℕ → String → String → Option String → Result Claims
  check_mac m now head payload none = err invalid_token
  check_mac m now head payload (some got) =
      if c.mac m.secret (head +++ "." +++ payload) == got
      then check_payload now (c.decode payload)
      else err invalid_token

  unfoldable pub parse_parts : Manager → ℕ → List String → Result Claims
  unfolding check_claims check_payload check_mac
  parse_parts m now (head ∷ payload ∷ mac ∷ []) = check_mac m now head payload (c.decode mac)
  parse_parts m now _ = err invalid_token

  unfoldable pub parse : Manager → ℕ → String → Result Claims
  unfolding parse_parts
  parse m now token = parse_parts m now (split b'.' token)

-- `strings.SplitN(s, sep, 2)`: `none` where there is no separator.
unfoldable pub cut : ℕ → String → Option (String × String)
cut sep String.[] = none
cut sep (String.◌∷◌ x s) =
    let rest = cut sep s in
    if eqb (code x) sep
    then some ("", s)
    else elim rest [ none ↦ none | some (a, b) ↦ some (String.◌∷◌ x a, b) ]

unfoldable pub bearer_token : String → String
unfolding cut
bearer_token auth_header = elim (cut b' ' auth_header) [
  | none ↦ ""
  | some (scheme, rest) ↦ if equal_fold scheme "Bearer" then trim_space rest else ""
]
