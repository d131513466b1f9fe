-- ===== src/Platform/Auth/Tokens.antt =====
-- Access tokens of internal/platform/auth/jwt.go from Sign to Parse.
use todo_1m.Prelude.{
  ℕ, ◌+◌, ◌/◌, ◌≤◌, ◌≡◌, refl, ap, ◌∙◌, String, true, false, [], ◌∷◌, some, leb, eqb, if◌then◌else◌,
  split, ◌==◌, eq_refl, arith,
}
use todo_1m.Prelude.Splits.{dot, append_assoc, lacks, split-part, split-whole}
use todo_1m.Errors.{ok, err, expired_token}
use todo_1m.Platform.Auth.{
  Claims, Manager, Codec, ◌+++◌, header, second, signed_part, sign, is_empty, check_claims,
  check_payload, check_mac, parse_parts, parse,
}

-- What the tokens rely on: the encodings can be read back, and the base64 alphabet has no dot.
pub record IsCodec (c : Codec) : Type 0 where
  pub decode-encode : (s : String) → c.decode (c.encode s) ≡ some s
  pub unmarshal-marshal : (k : Claims) → c.unmarshal_claims (c.marshal_claims k) ≡ some k
  pub no_dot : (s : String) → lacks b'.' (c.encode s) ≡ true

-- The claims of a token that is made now.
abbrev pub claims_at : Manager → ℕ → String → String → Claims
claims_at m now user_id username = record {
  subject = user_id;
  username = username;
  exp = (now + m.ttl) / second;
}

joined :
    (h p s : String)
    → (h +++ "." +++ p) +++ "." +++ s ≡ h +++ String.◌∷◌ "." (p +++ String.◌∷◌ "." s)
joined h p s =
    append_assoc h ("." +++ p) ("." +++ s)
    ∙ ap (◌+++◌ h) (
        append_assoc "." p ("." +++ s)
        ∙ dot (p +++ "." +++ s)
        ∙ ap (λ t. String.◌∷◌ "." (p +++ t)) (dot s))

three_parts :
    (h p s : String)
    → lacks b'.' h ≡ true
    → lacks b'.' p ≡ true
    → lacks b'.' s ≡ true
    → split b'.' ((h +++ "." +++ p) +++ "." +++ s) ≡ h ∷ p ∷ s ∷ []
three_parts h p s a b c =
    ap (split b'.') (joined h p s)
    ∙ split-part "." h _ a
    ∙ ap (◌∷◌ h) (split-part "." p s b ∙ ap (◌∷◌ p) (split-whole b'.' s c))

module _ (c : Codec) (m : Manager) where
  token : Claims → String
  token k = signed_part c k +++ "." +++ c.encode (c.mac m.secret (signed_part c k))

  parse-token :
      (now : ℕ) (k : Claims) → IsCodec c → parse c m now (token k) ≡ check_claims c now (some k)
  unfolding parse parse_parts check_mac check_payload token signed_part
  parse-token now k law =
      ap (parse_parts c m now) (
        three_parts (c.encode header) (c.encode (c.marshal_claims k)) _ (law.no_dot _)
          (law.no_dot _) (law.no_dot _))
      ∙ rw
          (
            law.decode-encode
                (c.mac m.secret (c.encode header +++ "." +++ c.encode (c.marshal_claims k))),
            eq_refl (c.mac m.secret (c.encode header +++ "." +++ c.encode (c.marshal_claims k))),
            law.decode-encode (c.marshal_claims k),
            law.unmarshal-marshal k,
          )
          refl

whole_claims :
    (c : Codec) (now : ℕ) (k : Claims)
    → is_empty k.subject ≡ false
    → is_empty k.username ≡ false
    → eqb k.exp 0 ≡ false
    → check_claims c now (some k) ≡ (if leb k.exp (now / second) then err expired_token else ok k)
unfolding check_claims
whole_claims c now k a b d = rw (a, b, d) refl

positive : (n : ℕ) → second ≤ n → eqb (n / second) 0 ≡ false
positive n h = ground arith

-- Where the encodings can be read back and base64 has no dot: Sign makes a token for a user with
-- an id and a name, where it expires a second after the epoch or later. Parse accepts it, with
-- the claims that it was made with, until the second in which it expires, and refuses it as
-- expired from then on.
pub token_lifetime :
    (c : Codec) (m : Manager) (issued read : ℕ) (user_id username : String)
    → IsCodec c
    → (user_id == "") ≡ false
    → (username == "") ≡ false
    → second ≤ issued + m.ttl
    → (t : String) × (sign c m issued user_id username ≡ ok t)
      × (parse c m read t ≡ (
          if leb ((issued + m.ttl) / second) (read / second)
          then err expired_token
          else ok (claims_at m issued user_id username)))
unfolding sign token
token_lifetime c m issued read user_id username law has_id has_name old = (
  token c m (claims_at m issued user_id username),
  refl,
  parse-token c m read _ law
      ∙ whole_claims c read (claims_at m issued user_id username) has_id has_name
          (positive (issued + m.ttl) old),
)
