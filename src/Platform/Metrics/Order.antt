-- ===== src/Platform/Metrics/Order.antt =====
-- The order of the texts that internal/platform/metrics/metrics.go sorts, and what sorting forgets.
use todo_1m.Prelude.{
  ◌≡◌, refl, ap, ◌∙◌, Bool, true, false, not, ◌||◌, ◌&&◌, List, [], ◌∷◌, any, arith,
}
use todo_1m.Platform.Metrics.{Bytes, same_bytes, before, insert_by, sort_by}

pub same_bytes_refl : (xs : Bytes) → same_bytes xs xs ≡ true
unfolding same_bytes
same_bytes_refl [] = refl
same_bytes_refl (x ∷ xs) = ground (arith, same_bytes_refl xs)

pub same_bytes-eq : (xs ys : Bytes) → same_bytes xs ys ≡ true → xs ≡ ys
unfolding same_bytes
same_bytes-eq [] [] h = refl
same_bytes-eq [] (y ∷ ys) h = absurd (cc)
same_bytes-eq (x ∷ xs) [] h = absurd (cc)
same_bytes-eq (x ∷ xs) (y ∷ ys) h = ground (arith, same_bytes-eq xs ys)

pub same_bytes_sym : (xs ys : Bytes) → same_bytes xs ys ≡ same_bytes ys xs
unfolding same_bytes
same_bytes_sym [] [] = refl
same_bytes_sym [] (y ∷ ys) = refl
same_bytes_sym (x ∷ xs) [] = refl
same_bytes_sym (x ∷ xs) (y ∷ ys) = ground (arith, same_bytes_sym xs ys)

-- Of two texts that differ, one comes first.
before_total : (xs ys : Bytes) → same_bytes xs ys ≡ false → before xs ys ≡ not (before ys xs)
unfolding same_bytes before
before_total [] [] h = absurd (cc)
before_total [] (y ∷ ys) h = refl
before_total (x ∷ xs) [] h = refl
before_total (x ∷ xs) (y ∷ ys) h = ground (arith, before_total xs ys)

before_trans : (xs ys zs : Bytes) → before xs ys ≡ true → before ys zs ≡ true → before xs zs ≡ true
unfolding before
before_trans xs [] zs h k = absurd (cc)
before_trans xs (y ∷ ys) [] h k = absurd (cc)
before_trans [] (y ∷ ys) (z ∷ zs) h k = refl
before_trans (x ∷ xs) (y ∷ ys) (z ∷ zs) h k = ground (arith, before_trans xs ys zs)

-- The same entries in another order.
pub data Rearranged {A : Type 0} : List A → List A → Type 0 where
  unchanged : (xs : List A) → Rearranged xs xs
  swapped : (x y : A) (xs : List A) → Rearranged (x ∷ y ∷ xs) (y ∷ x ∷ xs)
  behind : (x : A) {xs ys : List A} → Rearranged xs ys → Rearranged (x ∷ xs) (x ∷ ys)
  in_turn : {xs ys zs : List A} → Rearranged xs ys → Rearranged ys zs → Rearranged xs zs

any-Rearranged :
    {A : Type 0} (p : A → Bool) {xs ys : List A} → Rearranged xs ys → any p xs ≡ any p ys
unfolding any
any-Rearranged p (unchanged xs) = refl
any-Rearranged p (swapped x y xs) = ground arith
any-Rearranged p (behind x r) = ap (◌||◌ (p x)) (any-Rearranged p r)
any-Rearranged p (in_turn r s) = any-Rearranged p r ∙ any-Rearranged p s

module _ {A : Type 0} (key : A → Bytes) where
  -- No two entries have one key.
  unfoldable pub are_unique : List A → Bool
  are_unique [] = true
  are_unique (x ∷ xs) = not (any (λ y. same_bytes (key y) (key x)) xs) && are_unique xs

  are_unique-Rearranged :
      {xs ys : List A} → Rearranged xs ys → are_unique xs ≡ true → are_unique ys ≡ true
  unfolding are_unique any
  are_unique-Rearranged (unchanged xs) h = h
  are_unique-Rearranged (swapped x y xs) h = ground (arith, same_bytes_sym (key x) (key y))
  are_unique-Rearranged (behind x {xs} {ys} r) h =
      ground (arith, any-Rearranged (λ y. same_bytes (key y) (key x)) r, are_unique-Rearranged r)
  are_unique-Rearranged (in_turn r s) h = are_unique-Rearranged s (are_unique-Rearranged r h)

  insert_twice :
      (x y : A) (l : List A)
      → same_bytes (key x) (key y) ≡ false
      → insert_by key x (insert_by key y l) ≡ insert_by key y (insert_by key x l)
  unfolding insert_by
  insert_twice x y [] h = ground (arith, before_total (key x) (key y))
  insert_twice x y (z ∷ l) h = ground (
    arith,
    before_total (key x) (key y),
    before_trans (key x) (key y) (key z),
    before_trans (key y) (key x) (key z),
    insert_twice x y l,
  )

  first_two :
      (x y : A) (xs : List A) → are_unique (x ∷ y ∷ xs) ≡ true → same_bytes (key x) (key y) ≡ false
  unfolding are_unique any
  first_two x y xs h = ground (arith, same_bytes_sym (key x) (key y))

  rest_unique : (x : A) (xs : List A) → are_unique (x ∷ xs) ≡ true → are_unique xs ≡ true
  unfolding are_unique
  rest_unique x xs h = ground arith

  pub sort_by-Rearranged :
      {xs ys : List A} → Rearranged xs ys → are_unique xs ≡ true → sort_by key xs ≡ sort_by key ys
  unfolding sort_by
  sort_by-Rearranged (unchanged xs) h = refl
  sort_by-Rearranged (swapped x y xs) h = insert_twice x y (sort_by key xs) (first_two x y xs h)
  sort_by-Rearranged (behind x {xs} {ys} r) h =
      ap (insert_by key x) (sort_by-Rearranged r (rest_unique x xs h))
  sort_by-Rearranged (in_turn r s) h =
      sort_by-Rearranged r h ∙ sort_by-Rearranged s (are_unique-Rearranged r h)
