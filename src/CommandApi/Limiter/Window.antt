-- ===== src/CommandApi/Limiter/Window.antt =====
-- The rate limiter of internal/app/commandapi/http.go over one window of a client.
use todo_1m.Prelude.{
  ℕ, suc, ◌+◌, ◌-◌, ◌*◌, ◌<◌, ◌≡◌, refl, sym, ap, ◌∙◌, subst, String, Bool, true, false, not, ◌&&◌,
  List, [], ◌∷◌, Option, none, some, inl, inr, ltb, leb, if◌then◌else◌, length, find, select, ◌==◌,
  eq_iff, eq_refl, arith, Bool-cases, if_holds, All,
}
use todo_1m.CommandApi.Limiter.{
  ClientWindowState, IpRateLimiter, has_key, store, evict, set_clients, open_window, allow_found,
  allow,
}

-- A request: who asks, and when.
pub record Arrival : Type 0 where
  pub key : String
  pub at : ℕ

-- How many of the requests of a client are let through.
unfoldable pub admitted : String → List Arrival → IpRateLimiter → ℕ
admitted key [] l = 0
admitted key (a ∷ rest) l =
    let (passed, l') = allow l a.key a.at in
    let n = admitted key rest l' in if passed && (a.key == key) then suc n else n

-- How many requests a client makes.
unfoldable pub requests : String → List Arrival → ℕ
requests key [] = 0
requests key (a ∷ rest) = let n = requests key rest in if a.key == key then suc n else n

abbrev pub smaller : ℕ → ℕ → ℕ
smaller a b = if leb a b then a else b

find-select :
    {A : Type 0} (p q : A → Bool) (xs : List A) (x : A)
    → find p xs ≡ some x
    → q x ≡ true
    → find p (select q xs) ≡ some x
unfolding find select
find-select p q [] x h k = ground (arith, h)
find-select p q (y ∷ ys) x h k = ground (arith, find-select p q ys x)

find-store-own :
    (c : ClientWindowState) (cs : List ClientWindowState)
    → find (has_key c.key) (store c cs) ≡ some c
unfolding find store
find-store-own c cs = rw (eq_refl c.key) refl

find-passes : {A : Type 0} (p : A → Bool) (xs : List A) (x : A) → find p xs ≡ some x → p x ≡ true
unfolding find
find-passes p [] x h = ground (arith, h)
find-passes p (y ∷ ys) x h = ground (arith, find-passes p ys x)

keys_differ : (a b k : String) → (a == k) ≡ false → (b == k) ≡ true → not (b == a) ≡ true
keys_differ a b k other own = ground (arith, eq_iff a k, eq_iff b k, eq_iff b a)

find-store-other :
    (key : String) (c d : ClientWindowState) (cs : List ClientWindowState)
    → (c.key == key) ≡ false
    → find (has_key key) cs ≡ some d
    → find (has_key key) (store c cs) ≡ some d
unfolding find store
find-store-other key c d cs other h = rw other (
    find-select (has_key key) _ cs d h
      (keys_differ c.key d.key key other (find-passes (has_key key) cs d h)))

find-evict :
    (key : String) (window now : ℕ) (d : ClientWindowState) (cs : List ClientWindowState)
    → now < d.window_start + window
    → find (has_key key) cs ≡ some d
    → find (has_key key) (evict window now cs) ≡ some d
unfolding evict
find-evict key window now d cs t h = elim (Bool-cases (ltb 100_000 (length cs))) [
  | inl many ↦ rw many (find-select (has_key key) _ cs d h (kept d.window_start window now t))
  | inr few ↦ rw few h
]
  where
    kept : (s w n : ℕ) → n < s + w → not (ltb (s + 2 * w) n) ≡ true
    kept s w n t = ground arith

still_open : (s w t : ℕ) → t < s + w → (leb s t && leb w (t - s)) ≡ false
still_open s w t h = ground arith

-- Another client's request leaves the entry and the bounds.
Left : String → ClientWindowState → IpRateLimiter → Bool × IpRateLimiter → Type 0
Left key c l r =
    (find (has_key key) r.1.clients ≡ some c) × (r.1.limit ≡ l.limit) × (r.1.window ≡ l.window)

Left-of :
    (key : String) (c : ClientWindowState) (l : IpRateLimiter) (b : Bool) (r : IpRateLimiter)
    → find (has_key key) r.clients ≡ some c
    → r.limit ≡ l.limit
    → r.window ≡ l.window
    → Left key c l (b, r)
unfolding Left
Left-of key c l b r found same_limit same_window = (found, same_limit, same_window)

opened-other :
    (l : IpRateLimiter) (c : ClientWindowState) (key k : String) (t : ℕ)
    → (k == key) ≡ false
    → find (has_key key) l.clients ≡ some c
    → t < c.window_start + l.window
    → Left key c l (open_window l k t)
opened-other l c key k t other h w =
    Left-of key c l true _
      (find-evict key l.window t c _ w (find-store-other key _ c l.clients other h)) refl refl

allow_found-other :
    (l : IpRateLimiter) (c : ClientWindowState) (key k : String) (t : ℕ)
    (o : Option ClientWindowState)
    → (k == key) ≡ false
    → find (has_key key) l.clients ≡ some c
    → t < c.window_start + l.window
    → Left key c l (allow_found l k t o)
allow_found-other l c key k t none other h w = opened-other l c key k t other h w
allow_found-other l c key k t (some d) other h w =
    if_holds (Left key c l) _ _ _ (opened-other l c key k t other h w) (
      if_holds (Left key c l) _ _ _ (Left-of key c l false l h refl refl)
        (Left-of key c l true _ (find-store-other key _ c l.clients other h) refl refl))

-- The client's own request is let through while its count is below the limit, and then counted.
allow-full :
    (l : IpRateLimiter) (c : ClientWindowState) (t : ℕ)
    → find (has_key c.key) l.clients ≡ some c
    → t < c.window_start + l.window
    → leb l.limit c.count ≡ true
    → allow l c.key t ≡ (false, l)
unfolding allow
allow-full l c t h w full =
    ap (allow_found l c.key t) h ∙ rw (still_open c.window_start l.window t w, full) refl

abbrev counted : ClientWindowState → ClientWindowState
counted c = record c { count = suc c.count }

abbrev after : IpRateLimiter → ClientWindowState → IpRateLimiter
after l c = set_clients l (store (counted c) l.clients)

allow-room :
    (l : IpRateLimiter) (c : ClientWindowState) (t : ℕ)
    → find (has_key c.key) l.clients ≡ some c
    → t < c.window_start + l.window
    → leb l.limit c.count ≡ false
    → allow l c.key t ≡ (true, after l c)
unfolding allow
allow-room l c t h w free =
    ap (allow_found l c.key t) h ∙ rw (still_open c.window_start l.window t w, free) refl

allow-other :
    (l : IpRateLimiter) (c : ClientWindowState) (key k : String) (t : ℕ)
    → (k == key) ≡ false
    → find (has_key key) l.clients ≡ some c
    → t < c.window_start + l.window
    → Left key c l (allow l k t)
unfolding allow
allow-other l c key k t = allow_found-other l c key k t (find (has_key k) l.clients)

abbrev count_in : String → Arrival → List Arrival → Bool × IpRateLimiter → ℕ
count_in key a rest r = let n = admitted key rest r.1 in if r.0 && (a.key == key) then suc n else n

full : (n c q x : ℕ) → leb n c ≡ true → x ≡ smaller (n - c) q → x ≡ smaller (n - c) (suc q)
full n c q x h e = ground arith

room : (n c q x : ℕ) → leb n c ≡ false → x ≡ smaller (n - suc c) q → suc x ≡ smaller (n - c) (suc q)
room n c q x h e = ground arith

passed_over : (b : Bool) (x : ℕ) → (if b && false then suc x else x) ≡ x
passed_over b x = ground arith

exact :
    (arrivals : List Arrival) (l : IpRateLimiter) (c : ClientWindowState) (n w : ℕ)
    → l.limit ≡ n
    → l.window ≡ w
    → find (has_key c.key) l.clients ≡ some c
    → All (λ a. a.at < c.window_start + w) arrivals
    → admitted c.key arrivals l ≡ smaller (n - c.count) (requests c.key arrivals)
unfolding admitted requests Left
exact [] l c n w en ew h k = ground arith
exact (a ∷ rest) l c n w en ew h (now, later) = elim (Bool-cases (a.key == c.key)) [
  | inl own ↦
      let asks = ap (λ key. allow l key a.at) ((eq_iff a.key c.key).0 own) in
      elim (Bool-cases (leb l.limit c.count)) [
        | inl spent ↦
            ap (count_in c.key a rest) (asks ∙ allow-full l c a.at h in_window spent)
            ∙ rw own (
                full n c.count _ _ (ap (λ m. leb m c.count) (sym en) ∙ spent)
                  (exact rest l c n w en ew h later))
        | inr free ↦
            ap (count_in c.key a rest) (asks ∙ allow-room l c a.at h in_window free)
            ∙ rw own (
                room n c.count _ _ (ap (λ m. leb m c.count) (sym en) ∙ free) (
                  exact rest (after l c) (counted c) n w en ew
                    (find-store-own (counted c) l.clients) later))
      ]
  | inr other ↦
      let kept = allow-other l c c.key a.key a.at other h in_window in
      rw other (passed_over _ _ ∙ exact rest _ c n w (kept.1 ∙ en) (kept.2 ∙ ew) kept.0 later)
]
  where
    in_window : a.at < c.window_start + l.window
    in_window = subst (λ x. a.at < c.window_start + x) (sym ew) now

-- Where a client has an entry and all requests come before the window of the entry ends, as many
-- requests of the client are let through as the limit leaves, or all of them if they are fewer,
-- whatever other clients ask for in between.
pub window_exact :
    (arrivals : List Arrival) (l : IpRateLimiter) (c : ClientWindowState)
    → find (has_key c.key) l.clients ≡ some c
    → All (λ a. a.at < c.window_start + l.window) arrivals
    → admitted c.key arrivals l ≡ smaller (l.limit - c.count) (requests c.key arrivals)
window_exact arrivals l c = exact arrivals l c l.limit l.window refl refl
