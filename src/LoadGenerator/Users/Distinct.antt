-- ===== src/LoadGenerator/Users/Distinct.antt =====
-- The users of one run of cmd/load-generator/main.go: their names and the addresses that they send in X-Forwarded-For, by
-- which the limiter of the command API tells them apart.
use Prim.Native.String
use todo_1m.Prelude.{
  ℕ, ◌+◌, ◌-◌, ◌*◌, ◌/◌, ◌%◌, ◌<◌, ◌≡◌, refl, sym, ap, ◌∙◌, String, Bool, true, false, List, [],
  ◌∷◌, some, length, ltb, itoa, code, if◌then◌else◌, arith,
}
use todo_1m.Prelude.Numerals.{is_digit, digit_char, read_digits}
use todo_1m.Prelude.Numerals.Exact.{
  append_cancel, read-itoa, read-itoa_alone, read_digits-itoa, digit_char-exact,
}
use todo_1m.LoadGenerator.Actions.{Setup, ready, stopped, pad4, user_of}
use todo_1m.LoadGenerator.Users.{collect}

-- Every result is a user or a failure.
pub length-collect :
    (results : List Setup) → length (collect results).0 + (collect results).1 ≡ length results
unfolding collect
length-collect [] = refl
length-collect (ready u ∷ results) = omega (arith, length-collect results)
length-collect (stopped e ∷ results) = omega (arith, length-collect results)

-- The numbers of an address.
parts : ℕ → String → List ℕ
unfolding is_digit
parts acc String.[] = acc ∷ []
parts acc (String.◌∷◌ c s) =
    let more = parts (acc * 10 + (code c - b'0')) s in
    let rest = parts 0 s in if is_digit (code c) then more else acc ∷ rest

parts-digit :
    (k acc : ℕ) (out : String)
    → k < 10
    → parts acc (String.◌∷◌ (digit_char k) out) ≡ parts (acc * 10 + k) out
unfolding parts
parts-digit k acc out h = let p = digit_char-exact k h in rw (p.0, p.1) refl

parts-rest : (a n : ℕ) → parts 0 (String.◌++◌ (itoa a) (String.◌++◌ "." (itoa n))) ≡ a ∷ n ∷ []
unfolding parts
parts-rest a n =
    read-itoa parts parts-digit a (String.◌++◌ "." (itoa n))
    ∙ rw (String.append.cons "." "" (itoa n), String.append.nil (itoa n))
        (ap (λ ns. a ∷ ns) (read-itoa_alone parts parts-digit n))

prefix :
    (s : String)
    → String.◌++◌ "10.0." s
      ≡ String.◌∷◌ "1" (String.◌∷◌ "0" (String.◌∷◌ "." (String.◌∷◌ "0" (String.◌∷◌ "." s))))
prefix s =
    rw
      (
        String.append.cons "1" "0.0." s,
        String.append.cons "0" ".0." s,
        String.append.cons "." "0." s,
        String.append.cons "0" "." s,
        String.append.cons "." "" s,
        String.append.nil s,
      )
      refl

parts-client_ip :
    (run_id password : String) (i : ℕ)
    → parts 0 (user_of run_id password i).client_ip ≡ 10 ∷ 0 ∷ (1 + i / 250) ∷ (1 + i % 250) ∷ []
unfolding parts
parts-client_ip run_id password i =
    ap (parts 0) (prefix (String.◌++◌ (itoa (1 + i / 250)) (String.◌++◌ "." (itoa (1 + i % 250)))))
    ∙ ap (λ ns. 10 ∷ 0 ∷ ns) (parts-rest (1 + i / 250) (1 + i % 250))

tails : (a b c d : ℕ) → 10 ∷ 0 ∷ a ∷ b ∷ [] ≡ 10 ∷ 0 ∷ c ∷ d ∷ [] → (a ≡ c) × (b ≡ d)
tails a b c d e = (cc, cc)

-- Two users of a run send different addresses.
pub client_ip_distinct :
    (run_id password : String) (i j : ℕ)
    → (user_of run_id password i).client_ip ≡ (user_of run_id password j).client_ip
    → i ≡ j
client_ip_distinct run_id password i j e =
    let p = tails _ _ _ _ (
      sym (parts-client_ip run_id password i)
      ∙ ap (parts 0) e
      ∙ parts-client_ip run_id password j) in
    omega (arith, p.0, p.1)

-- Every part is at most 255 while there are fewer than 63750 users; the next one has the address 10.0.256.1.
pub client_ip-bounded : (i : ℕ) → i < 63750 → (1 + i / 250 < 256) × (1 + i % 250 < 256)
client_ip-bounded i h = (omega arith, omega arith)

zero_dropped :
    (s t : String)
    → read_digits 0 (String.◌++◌ (String.◌∷◌ "0" t) s) ≡ read_digits 0 (String.◌++◌ t s)
unfolding read_digits is_digit
zero_dropped s t = rw (String.append.cons "0" t s) refl

read-pad4 : (n : ℕ) → read_digits 0 (pad4 n) ≡ some n
unfolding pad4
read-pad4 n =
    let bare = read_digits-itoa n in
    let none = ap (read_digits 0) (String.append.nil (itoa n)) ∙ bare in
    let one = zero_dropped (itoa n) "" ∙ none in
    let two = zero_dropped (itoa n) "0" ∙ one in
    let three = zero_dropped (itoa n) "00" ∙ two in
    padded (λ zeros. read_digits 0 (String.◌++◌ zeros (itoa n))) three two one none (ltb n 10)
      (ltb n 100) (ltb n 1000)
  where
    padded :
        {A : Type 0} (f : String → A) {x : A}
        → f "000" ≡ x
        → f "00" ≡ x
        → f "0" ≡ x
        → f "" ≡ x
        → (a b c : Bool) → f (if a then "000" else if b then "00" else if c then "0" else "") ≡ x
    padded f p q r s true b c = p
    padded f p q r s false true c = q
    padded f p q r s false false true = r
    padded f p q r s false false false = s

-- Two users of a run have different names.
pub username_distinct :
    (run_id password : String) (i j : ℕ)
    → (user_of run_id password i).username ≡ (user_of run_id password j).username
    → i ≡ j
username_distinct run_id password i j e =
    let same : pad4 i ≡ pad4 j =
      append_cancel "-" _ _ (append_cancel run_id _ _ (append_cancel "load-" _ _ e)) in
    let both_read : some i ≡ some j = sym (read-pad4 i) ∙ ap (read_digits 0) same ∙ read-pad4 j in
    cc
