-- ===== src/Query/Rows.antt =====
-- Lists of rows of `todos`: their order, what LIMIT keeps and what it cuts off (internal/app/query/repository.go).
use todo_1m.Prelude.{
  ℕ, zero, suc, ◌+◌, ◌≤◌, ◌≡◌, refl, sym, ap, subst, ◌∙◌, ◌⊎◌, inl, inr, Bool, true, false, ◌&&◌,
  List, [], ◌∷◌, leb, length, select, take, if◌then◌else◌, All, Bool-cases, arith,
}
use todo_1m.ReadModel.{TodoView}
use todo_1m.Query.{insert_by_creation, latest_first}

abbrev pub Newer : TodoView → TodoView → Type 0
Newer t u = u.created_at ≤ t.created_at

-- No row comes before a newer one.
abbrev pub IsDescending : List TodoView → Type 0
IsDescending [] = Unit
IsDescending (t ∷ ts) = All (Newer t) ts × IsDescending ts

abbrev pub Has : TodoView → List TodoView → Type 0
Has t [] = ⊥
Has t (u ∷ us) = (t ≡ u) ⊎ Has t us

insert-All :
    (P : TodoView → Type 0) (t : TodoView) (ts : List TodoView)
    → P t
    → All P ts
    → All P (insert_by_creation t ts)
unfolding insert_by_creation
insert-All P t [] p h = (p, tt)
insert-All P t (u ∷ us) p h = elim (Bool-cases (leb u.created_at t.created_at)) [
  | inl before ↦ rw before (p, h)
  | inr later ↦ rw later (h.0, insert-All P t us p h.1)
]

pub older : (a b c : ℕ) → a ≤ b → b ≤ c → a ≤ c
older a b c h k = omega arith

All-Newer : (t u : TodoView) (us : List TodoView) → Newer t u → All (Newer u) us → All (Newer t) us
All-Newer t u [] h k = tt
All-Newer t u (v ∷ us) h k =
    (older v.created_at u.created_at t.created_at k.0 h, All-Newer t u us h k.1)

leb-true : (a b : ℕ) → leb a b ≡ true → a ≤ b
leb-true a b h = ground arith

leb-false : (a b : ℕ) → leb a b ≡ false → b ≤ a
leb-false a b h = ground arith

insert-IsDescending :
    (t : TodoView) (ts : List TodoView) → IsDescending ts → IsDescending (insert_by_creation t ts)
unfolding insert_by_creation
insert-IsDescending t [] h = (tt, tt)
insert-IsDescending t (u ∷ us) h = elim (Bool-cases (leb u.created_at t.created_at)) [
  | inl before ↦
      let newer = leb-true u.created_at t.created_at before in
      rw before ((newer, All-Newer t u us newer h.0), h)
  | inr later ↦ rw later (
    insert-All (Newer u) t us (leb-false u.created_at t.created_at later) h.0,
    insert-IsDescending t us h.1,
  )
]

pub latest-IsDescending : (ts : List TodoView) → IsDescending (latest_first ts)
unfolding latest_first
latest-IsDescending [] = tt
latest-IsDescending (t ∷ ts) = insert-IsDescending t (latest_first ts) (latest-IsDescending ts)

pub latest-All : (P : TodoView → Type 0) (ts : List TodoView) → All P ts → All P (latest_first ts)
unfolding latest_first
latest-All P [] h = tt
latest-All P (t ∷ ts) h = insert-All P t (latest_first ts) h.0 (latest-All P ts h.1)

Has-insert :
    (x t : TodoView) (ts : List TodoView) → Has x (t ∷ ts) → Has x (insert_by_creation t ts)
unfolding insert_by_creation
Has-insert x t [] h = h
Has-insert x t (u ∷ us) h = elim (Bool-cases (leb u.created_at t.created_at)) [
  | inl before ↦ rw before h
  | inr later ↦ rw later (elim h [
    | inl own ↦ inr (Has-insert x t us (inl own))
    | inr (inl e) ↦ inl e
    | inr (inr rest) ↦ inr (Has-insert x t us (inr rest))
  ])
]

pub Has-latest : (x : TodoView) (ts : List TodoView) → Has x ts → Has x (latest_first ts)
unfolding latest_first
Has-latest x [] h = h
Has-latest x (t ∷ ts) (inl e) = Has-insert x t (latest_first ts) (inl e)
Has-latest x (t ∷ ts) (inr h) = Has-insert x t (latest_first ts) (inr (Has-latest x ts h))

pub Has-select :
    (p : TodoView → Bool) (x : TodoView) (ts : List TodoView)
    → p x ≡ true
    → Has x ts
    → Has x (select p ts)
unfolding select
Has-select p x [] h k = k
Has-select p x (t ∷ ts) h (inl e) = rw (sym (ap p e) ∙ h) (inl e)
Has-select p x (t ∷ ts) h (inr k) = elim (Bool-cases (p t)) [
  | inl hit ↦ rw hit (inr (Has-select p x ts h k))
  | inr miss ↦ rw miss (Has-select p x ts h k)
]

pub select-All : (p : TodoView → Bool) (ts : List TodoView) → All (λ t. p t ≡ true) (select p ts)
unfolding select
select-All p [] = tt
select-All p (t ∷ ts) = elim (Bool-cases (p t)) [
  | inl hit ↦ rw hit (hit, select-All p ts)
  | inr miss ↦ rw miss (select-All p ts)
]

pub take-All : (P : TodoView → Type 0) (n : ℕ) (ts : List TodoView) → All P ts → All P (take n ts)
take-All P zero ts h = tt
take-All P (suc n) [] h = tt
take-All P (suc n) (t ∷ ts) h = (h.0, take-All P n ts h.1)

pub take-IsDescending : (n : ℕ) (ts : List TodoView) → IsDescending ts → IsDescending (take n ts)
take-IsDescending zero ts h = tt
take-IsDescending (suc n) [] h = tt
take-IsDescending (suc n) (t ∷ ts) h = (take-All (Newer t) n ts h.0, take-IsDescending n ts h.1)

pub length-take : (n : ℕ) (ts : List TodoView) → length (take n ts) ≤ n
length-take zero ts = omega arith
length-take (suc n) [] = omega arith
length-take (suc n) (t ∷ ts) = omega (arith, length-take n ts)

-- A row that was cut off is not newer than one that was kept.
pub cut_off :
    (n : ℕ) (x : TodoView) (ts : List TodoView)
    → IsDescending ts
    → Has x ts
    → Has x (take n ts) ⊎ All (λ u. x.created_at ≤ u.created_at) (take n ts)
cut_off zero x ts d h = inr tt
cut_off (suc n) x [] d h = absurd h
cut_off (suc n) x (t ∷ ts) d (inl e) = inl (inl e)
cut_off (suc n) x (t ∷ ts) d (inr h) = elim (cut_off n x ts d.1 h) [
  | inl kept ↦ inl (inr kept)
  | inr newer ↦ inr (All-Has (Newer t) x ts d.0 h, newer)
]
  where
    All-Has :
        (P : TodoView → Type 0) (x : TodoView) (ts : List TodoView) → All P ts → Has x ts → P x
    All-Has P x (u ∷ us) p (inl e) = subst P (sym e) p.0
    All-Has P x (u ∷ us) p (inr h) = All-Has P x us p.1 h
    All-Has P x [] p h = absurd h

abbrev pub count : (TodoView → Bool) → List TodoView → ℕ
count p [] = 0
count p (t ∷ ts) = let rest = count p ts in if p t then suc rest else rest

pub beyond : ℕ → List TodoView → List TodoView
beyond zero ts = ts
beyond (suc n) [] = []
beyond (suc n) (t ∷ ts) = beyond n ts

pub count-beyond :
    (p : TodoView → Bool) (n : ℕ) (ts : List TodoView)
    → count p (take n ts) + count p (beyond n ts) ≡ count p ts
unfolding beyond
count-beyond p zero ts = omega arith
count-beyond p (suc n) [] = omega arith
count-beyond p (suc n) (t ∷ ts) = elim (Bool-cases (p t)) [
  | inl hit ↦ rw hit (omega (arith, count-beyond p n ts))
  | inr miss ↦ rw miss (count-beyond p n ts)
]

count-insert :
    (p : TodoView → Bool) (t : TodoView) (ts : List TodoView)
    → count p (insert_by_creation t ts) ≡ count p (t ∷ ts)
unfolding insert_by_creation
count-insert p t [] = refl
count-insert p t (u ∷ us) = elim (Bool-cases (leb u.created_at t.created_at)) [
  | inl before ↦ rw before refl
  | inr later ↦
      rw later
        (swapped (p t) (p u) (count p (insert_by_creation t us)) (count p us) (count-insert p t us))
]
  where
    swapped :
        (a b : Bool) (x y : ℕ)
        → x ≡ (if a then suc y else y)
        → (if b then suc x else x)
          ≡ (if a then suc (if b then suc y else y) else if b then suc y else y)
    swapped true true x y e = ap suc e
    swapped true false x y e = e
    swapped false true x y e = ap suc e
    swapped false false x y e = e

pub count-latest :
    (p : TodoView → Bool) (ts : List TodoView) → count p (latest_first ts) ≡ count p ts
unfolding latest_first
count-latest p [] = refl
count-latest p (t ∷ ts) =
    count-insert p t (latest_first ts)
    ∙ ap (λ (n : ℕ). if p t then suc n else n) (count-latest p ts)

pub count-select :
    (p q : TodoView → Bool) (ts : List TodoView)
    → count p (select q ts) ≡ count (λ t. q t && p t) ts
unfolding select
count-select p q [] = refl
count-select p q (t ∷ ts) = elim (Bool-cases (q t)) [
  | inl hit ↦ rw hit (ap (λ (n : ℕ). if p t then suc n else n) (count-select p q ts))
  | inr miss ↦ rw miss (count-select p q ts)
]

pub full_or_all :
    (n : ℕ) (ts : List TodoView)
    → (length (take n ts) ≡ n) ⊎ ((beyond n ts ≡ []) × (length (take n ts) ≤ n))
unfolding beyond
full_or_all zero ts = inl refl
full_or_all (suc n) [] = inr (refl, omega arith)
full_or_all (suc n) (t ∷ ts) = elim (full_or_all n ts) [
  | inl full ↦ inl (ap suc full)
  | inr (none_left, fits) ↦ inr (none_left, longer (length (take n ts)) n fits)
]
  where
    longer : (a n : ℕ) → a ≤ n → suc a ≤ suc n
    longer a n h = omega arith
