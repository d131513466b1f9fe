-- ===== src/LoadGenerator/Bookkeeping.antt =====
-- The todos that a simulated user of cmd/load-generator/main.go knows.
use todo_1m.Prelude.{
  ℕ, zero, suc, ◌+◌, ◌<◌, ◌≡◌, ◌≢◌, refl, ap, ◌⊎◌, inl, inr, String, Bool, true, false, ◌||◌, List,
  [], ◌∷◌, ◌++◌, Option, length, any, take, if◌then◌else◌, ◌==◌, eq_iff, eq_refl, arith, Bool-cases,
}
use todo_1m.LoadGenerator.{
  SimulatedUser, nth_or_empty, put_first, last_of, swap_out, is_id, Answer, not_made, lost, unread,
  answered, Counted, ActionCounted, Runner, Response, is_expected_status, request_json,
}

abbrev pub one_if : Bool → ℕ
one_if b = if b then 1 else 0

-- How often a text is in a list.
abbrev pub count : String → List String → ℕ
count x [] = 0
count x (y ∷ ys) = one_if (y == x) + count x ys

pub count-append : (x : String) (xs ys : List String) → count x (xs ++ ys) ≡ count x xs + count x ys
count-append x [] ys = omega arith
count-append x (z ∷ xs) ys = omega (arith, count-append x xs ys)

-- All but the last entry.
count-front :
    (x y : String) (ys : List String)
    → count x (take (length ys) (y ∷ ys)) + one_if (last_of y ys == x) ≡ count x (y ∷ ys)
count-front x y [] = omega arith
count-front x y (z ∷ zs) = omega (arith, count-front x z zs)

-- The last entry takes the place of the first that is `id`.
count-put_first :
    (x id y : String) (ys : List String)
    → any (is_id id) (y ∷ ys) ≡ true
    → count x (take (length ys) (put_first id (last_of y ys) (y ∷ ys))) + one_if (id == x)
      ≡ count x (y ∷ ys)
unfolding any put_first
count-put_first x id y [] h = ground (arith, eq_iff y id, eq_iff y x, eq_iff id x)
count-put_first x id y (z ∷ zs) h = elim (Bool-cases (y == id)) [
  | inl hit ↦ rw hit (
      moved (count x (take (length zs) (z ∷ zs))) (count x (z ∷ zs)) (one_if (last_of z zs == x))
        (one_if (id == x)) (one_if (y == x)) (count-front x z zs)
        (ap (λ w. one_if (w == x)) ((eq_iff y id).0 hit)))
  | inr miss ↦ rw miss (
      kept (one_if (y == x)) _ (one_if (id == x)) (count x (z ∷ zs))
        (count-put_first x id z zs (later (y == id) _ miss h)))
]
  where
    moved : (a c l i k : ℕ) → a + l ≡ c → k ≡ i → l + a + i ≡ k + c
    moved a c l i k e f = omega arith

    kept : (k a i c : ℕ) → a + i ≡ c → k + a + i ≡ k + c
    kept k a i c e = omega arith

    later : (b r : Bool) → b ≡ false → (b || r) ≡ true → r ≡ true
    later b r e h = ground arith

pub count-swap_out :
    (x id : String) (ys : List String)
    → any (is_id id) ys ≡ true
    → count x (swap_out id ys) + one_if (id == x) ≡ count x ys
unfolding any
count-swap_out x id [] h = absurd (cc)
count-swap_out x id (y ∷ ys) h = count-put_first x id y ys h

pub nth-listed :
    (index : ℕ) (xs : List String)
    → index < length xs
    → any (is_id (nth_or_empty xs index)) xs ≡ true
unfolding any
nth-listed index [] h = absurd (omega arith)
nth-listed zero (x ∷ xs) h = rw (eq_refl x) refl
nth-listed (suc n) (x ∷ xs) h =
    or_true (x == nth_or_empty xs n) _ (nth-listed n xs (smaller n xs h))
  where
    or_true : (a b : Bool) → b ≡ true → (a || b) ≡ true
    or_true a b e = ground arith

    smaller : (n : ℕ) (xs : List String) → suc n < suc (length xs) → n < length xs
    smaller n xs h = omega arith

abbrev pub counted_as : String → String → ActionCounted
counted_as action outcome = record { action = action; outcome = outcome }

-- What an action does to the todos that the user knows.
pub data Effect (a : ActionCounted) (u v : SimulatedUser) : Type 0 where
  kept : a ≢ counted_as "delete" "success" → v ≡ u → Effect a u v
  grew :
      (id : String)
      → a ≡ counted_as "create" "success"
      → ((x : String) → count x v.todos ≡ count x u.todos + one_if (id == x))
      → Effect a u v
  shrank :
      (id : String)
      → a ≡ counted_as "delete" "success"
      → ((x : String) → count x v.todos + one_if (id == x) ≡ count x u.todos)
      → Effect a u v

-- One action is counted, and one request at most.
pub record IsAccounted (u : SimulatedUser) (r : Runner) (s : SimulatedUser × Runner) : Type 0 where
  pub action : ActionCounted
  pub counted : s.1.actions ≡ action ∷ r.actions
  pub effect : Effect action u s.0
  pub requests : (s.1.requests ≡ r.requests) ⊎ ((c : Counted) × (s.1.requests ≡ c ∷ r.requests))

-- A request counts no action, and itself at most once.
pub record IsRequest (r : Runner) (s : Response × Runner) : Type 0 where
  pub actions : s.1.actions ≡ r.actions
  pub requests : (s.1.requests ≡ r.requests) ⊎ ((c : Counted) × (s.1.requests ≡ c ∷ r.requests))

pub request_json-IsRequest :
    (decode : Option (String → Option String)) (endpoint method : String) (expected : List ℕ)
    (answer : Answer) (r : Runner)
    → IsRequest r (request_json decode endpoint method expected answer r)
unfolding request_json
request_json-IsRequest decode endpoint method expected not_made r = record {
  actions = refl;
  requests = inl refl;
}
request_json-IsRequest decode endpoint method expected lost r = record {
  actions = refl;
  requests = inr (_, refl);
}
request_json-IsRequest decode endpoint method expected (unread status) r = record {
  actions = refl;
  requests = inr (_, refl);
}
request_json-IsRequest decode endpoint method expected (answered status body) r =
    elim (Bool-cases (is_expected_status status expected)) [
      | inl good ↦ rw good (record { actions = refl; requests = inr (_, refl) })
      | inr bad ↦ rw bad (record { actions = refl; requests = inr (_, refl) })
    ]
