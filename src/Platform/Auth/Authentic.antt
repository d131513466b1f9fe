-- ===== src/Platform/Auth/Authentic.antt =====
-- What a token that Parse of internal/platform/auth/jwt.go accepts carries.
use todo_1m.Prelude.{
  ℕ, ◌/◌, ◌<◌, ◌≡◌, refl, sym, ap, ◌∙◌, subst, inl, inr, String, Bool, true, false, ◌||◌, List, [],
  ◌∷◌, Option, none, some, leb, eqb, if◌then◌else◌, split, ◌==◌, eq_iff, arith, Bool-cases,
}
use todo_1m.Errors.{Result, ok, err, invalid_token, expired_token}
use todo_1m.Platform.Auth.{
  Claims, Manager, Codec, ◌+++◌, second, is_empty, check_claims, check_payload, check_mac,
  parse_parts, parse,
}

module _ (c : Codec) (m : Manager) where
  later : (a b : ℕ) → leb b a ≡ false → a < b
  later a b h = ground arith

  ok_injective : (a b : Claims) → ok a ≡ ok b → a ≡ b
  ok_injective a b e = cc

  live :
      (now : ℕ) (a k : Claims) (b : Bool)
      → b ≡ leb a.exp (now / second)
      → (if b then err expired_token else ok a) ≡ ok k
      → now / second < k.exp
  live now a k true e h = absurd (cc)
  live now a k false e h =
      subst (λ x. now / second < x.exp) (ok_injective a k h) (later (now / second) a.exp (sym e))

  claims-live :
      (now : ℕ) (o : Option Claims) (k : Claims)
      → check_claims c now o ≡ ok k
      → now / second < k.exp
  unfolding check_claims
  claims-live now none k h = absurd (cc)
  claims-live now (some a) k h =
      elim (Bool-cases (is_empty a.subject || is_empty a.username || eqb a.exp 0)) [
        | inl partial ↦ absurd (clash _ partial h)
        | inr whole ↦ live now a k _ refl (passed _ whole h)
      ]
    where
      clash :
          {b : Bool} (r : Result Claims)
          → b ≡ true
          → (if b then err invalid_token else r) ≡ ok k
          → ⊥
      clash r e h = ground arith

      passed :
          {b : Bool} (r : Result Claims)
          → b ≡ false
          → (if b then err invalid_token else r) ≡ ok k
          → r ≡ ok k
      passed r e h = ground arith

  payload-live :
      (now : ℕ) (o : Option String) (k : Claims)
      → check_payload c now o ≡ ok k
      → now / second < k.exp
  unfolding check_payload
  payload-live now none k h = absurd (cc)
  payload-live now (some p) k h = claims-live now _ k h

  -- The parts of the token, its MAC, and the time.
  pub record IsAuthentic (now : ℕ) (token : String) (k : Claims) : Type 0 where
    pub head : String
    pub payload : String
    pub signature : String
    pub parts : split b'.' token ≡ head ∷ payload ∷ signature ∷ []
    pub signed : c.decode signature ≡ some (c.mac m.secret (head +++ "." +++ payload))
    pub unexpired : now / second < k.exp

  check_mac-IsAuthentic :
      (now : ℕ) (token head payload signature : String) (o : Option String) (k : Claims)
      → split b'.' token ≡ head ∷ payload ∷ signature ∷ []
      → c.decode signature ≡ o
      → check_mac c m now head payload o ≡ ok k
      → IsAuthentic now token k
  unfolding check_mac
  check_mac-IsAuthentic now token head payload signature none k parts e h = absurd (cc)
  check_mac-IsAuthentic now token head payload signature (some got) k parts e h =
      elim (Bool-cases (c.mac m.secret (head +++ "." +++ payload) == got)) [
        | inl same ↦ record {
          head = head;
          payload = payload;
          signature = signature;
          parts = parts;
          signed =
              e ∙ ap some (sym ((eq_iff (c.mac m.secret (head +++ "." +++ payload)) got).0 same));
          unexpired = payload-live now _ k (taken _ same h);
        }
        | inr other ↦ absurd (forged _ other h)
      ]
    where
      taken :
          {b : Bool} (r : Result Claims)
          → b ≡ true
          → (if b then r else err invalid_token) ≡ ok k
          → r ≡ ok k
      taken r e h = ground arith

      forged :
          {b : Bool} (r : Result Claims)
          → b ≡ false
          → (if b then r else err invalid_token) ≡ ok k
          → ⊥
      forged r e h = ground arith

  parse_parts-IsAuthentic :
      (now : ℕ) (token : String) (parts : List String) (k : Claims)
      → split b'.' token ≡ parts
      → parse_parts c m now parts ≡ ok k
      → IsAuthentic now token k
  unfolding parse_parts
  parse_parts-IsAuthentic now token (a ∷ b ∷ s ∷ []) k e h =
      check_mac-IsAuthentic now token a b s (c.decode s) k e refl h
  parse_parts-IsAuthentic now token [] k e h = absurd (cc)
  parse_parts-IsAuthentic now token (a ∷ []) k e h = absurd (cc)
  parse_parts-IsAuthentic now token (a ∷ b ∷ []) k e h = absurd (cc)
  parse_parts-IsAuthentic now token (a ∷ b ∷ s ∷ d ∷ rest) k e h = absurd (cc)

  -- A token that Parse accepts has three parts, of which the last is the MAC of the other two under the secret, and has
  -- not expired.
  pub parse-IsAuthentic :
      (now : ℕ) (token : String) (k : Claims) → parse c m now token ≡ ok k → IsAuthentic now token k
  unfolding parse
  parse-IsAuthentic now token k h = parse_parts-IsAuthentic now token (split b'.' token) k refl h
