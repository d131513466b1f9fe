-- ===== src/Platform/Metrics/Counting.antt =====
-- What a `CounterVec` of internal/platform/metrics/metrics.go counts.
use todo_1m.Prelude.{
  ℕ, ◌≡◌, ◌≢◌, refl, sym, ap, ◌∙◌, Bool, true, false, not, ◌&&◌, List, [], ◌∷◌, ◌++◌, Option, none,
  some, length, find, eqb, if◌then◌else◌, arith, Bool-cases, inl, inr, All,
}
use todo_1m.Platform.Metrics.{
  Bytes, same_bytes, Floats, Series, CounterVec, join_labels, split_labels, add_to_first, raise_key,
  add_delta, add_counter, or_zero,
}
use todo_1m.Platform.Metrics.Order.{same_bytes_refl, same_bytes-eq}

-- No byte of the text is the separator.
unfoldable pub lacks_separator : Bytes → Bool
lacks_separator [] = true
lacks_separator (c ∷ cs) = not (eqb c 0xff) && lacks_separator cs

split_part :
    (v rest : Bytes)
    → lacks_separator v ≡ true
    → split_labels (v ++ (0xff ∷ rest)) ≡ v ∷ split_labels rest
unfolding split_labels lacks_separator add_to_first
split_part [] rest h = refl
split_part (c ∷ cs) rest h = ground (arith, split_part cs rest)

split_whole : (v : Bytes) → lacks_separator v ≡ true → split_labels v ≡ v ∷ []
unfolding split_labels lacks_separator add_to_first
split_whole [] h = refl
split_whole (c ∷ cs) h = ground (arith, split_whole cs)

abbrev pub LackSeparator : List Bytes → Type 0
LackSeparator vs = All (λ v. lacks_separator v ≡ true) vs

pub split_labels-join_labels :
    (v : Bytes) (vs : List Bytes)
    → LackSeparator (v ∷ vs)
    → split_labels (join_labels (v ∷ vs)) ≡ v ∷ vs
unfolding join_labels
split_labels-join_labels v [] h = split_whole v h.0
split_labels-join_labels v (w ∷ ws) h =
    split_part v (join_labels (w ∷ ws)) h.0 ∙ ap (◌∷◌ v) (split_labels-join_labels w ws h.1)

join_labels_injective :
    (vs ws : List Bytes)
    → length vs ≡ length ws
    → LackSeparator vs
    → LackSeparator ws
    → join_labels vs ≡ join_labels ws
    → vs ≡ ws
join_labels_injective [] [] l h k e = refl
join_labels_injective [] (w ∷ ws) l h k e = absurd (omega arith)
join_labels_injective (v ∷ vs) [] l h k e = absurd (omega arith)
join_labels_injective (v ∷ vs) (w ∷ ws) l h k e =
    sym (split_labels-join_labels v vs h) ∙ ap split_labels e ∙ split_labels-join_labels w ws k

module _ {F : Type 0} (fl : Floats F) where
  abbrev pub amount : Option (Series F) → Option F
  amount none = none
  amount (some s) = some s.value

  -- The value of some label values, if there is one.
  unfoldable pub value_at : List Bytes → CounterVec F → Option F
  value_at vs c = amount (find (λ s. same_bytes s.key (join_labels vs)) c.values)

  raise_key-own :
      (key : Bytes) (v : F) (ss : List (Series F))
      → amount (find (λ s. same_bytes s.key key) (raise_key fl key v ss))
        ≡ some (fl.plus (or_zero fl (amount (find (λ s. same_bytes s.key key) ss))) v)
  unfolding raise_key find
  raise_key-own key v [] = rw (same_bytes_refl key) refl
  raise_key-own key v (s ∷ ss) = elim (Bool-cases (same_bytes s.key key)) [
    | inl hit ↦ rw (hit, hit) refl
    | inr miss ↦ rw (miss, miss) (raise_key-own key v ss)
  ]

  raise_key-other :
      (key other : Bytes) (v : F) (ss : List (Series F))
      → key ≢ other
      → find (λ s. same_bytes s.key other) (raise_key fl key v ss)
        ≡ find (λ s. same_bytes s.key other) ss
  unfolding raise_key find
  raise_key-other key other v [] h = elim (Bool-cases (same_bytes key other)) [
    | inl hit ↦ absurd (h (same_bytes-eq key other hit))
    | inr miss ↦ rw miss refl
  ]
  raise_key-other key other v (s ∷ ss) h = elim (Bool-cases (same_bytes s.key key)) [
    | inl hit ↦ elim (Bool-cases (same_bytes s.key other)) [
      | inl also ↦ absurd (h (sym (same_bytes-eq s.key key hit) ∙ same_bytes-eq s.key other also))
      | inr miss ↦ rw (hit, miss) refl
    ]
    | inr miss ↦
        rw miss (
          ap (λ o. if same_bytes s.key other then some s else o) (raise_key-other key other v ss h))
  ]

  -- Where the label values are as many as the labels and hold no byte 0xff, a counter to which an amount is added grows
  -- by it, from 0 where it is new, unless the amount is negative, and the counter of other label values keeps its value.
  pub add_counter-value_at :
      (vs ws : List Bytes) (v : F) (c : CounterVec F)
      → length vs ≡ length c.label_names
      → length ws ≡ length c.label_names
      → LackSeparator vs
      → LackSeparator ws
      → (value_at vs (add_counter fl vs v c) ≡ (
          if fl.is_negative v
          then value_at vs c
          else some (fl.plus (or_zero fl (value_at vs c)) v)))
        × (vs ≢ ws → value_at ws (add_counter fl vs v c) ≡ value_at ws c)
  unfolding add_counter add_delta value_at
  add_counter-value_at vs ws v c l m h k = elim (Bool-cases (fl.is_negative v)) [
    | inl negative ↦ rw negative (refl, λ d. refl)
    | inr counted ↦
        rw (counted, as_many (length vs) (length c.label_names) l)
          (
            raise_key-own (join_labels vs) v c.values,
            λ d. ap amount (
                raise_key-other (join_labels vs) (join_labels ws) v c.values
                  (λ e. d (join_labels_injective vs ws (l ∙ sym m) h k e))),
          )
  ]
    where
      as_many : (a b : ℕ) → a ≡ b → not (eqb a b) ≡ false
      as_many a b e = ground arith
