-- ===== src/Platform/Metrics/Exposition.antt =====
-- The text that internal/platform/metrics/metrics.go serves, and the order of its maps.
use todo_1m.Prelude.{◌≡◌, refl, sym, ap, ap₂, ◌∙◌, true, List, [], ◌∷◌, any, Bool-cases, inl, inr}
use todo_1m.Platform.Metrics.{
  Bytes, before, Floats, Series, CounterVec, insert_by, sort_by, Collector, counter_vec, name_of,
  Registry, must_register, has_name, write_counter_vec, write_prometheus, both, write_all,
  exposition, after_head, metric_head, write_series,
}
use todo_1m.Platform.Metrics.Order.{Rearranged, are_unique, sort_by-Rearranged}

abbrev pub key_of : {F : Type 0} → Series F → Bytes
key_of s = s.key

module _ {F : Type 0} where
  -- One collector, its counters perhaps in another order.
  pub data Alike : Collector F → Collector F → Type 0 where
    same : (c : Collector F) → Alike c c
    reordered :
        (c : CounterVec F) (values : List (Series F))
        → are_unique key_of c.values ≡ true
        → Rearranged c.values values
        → Alike (counter_vec c) (counter_vec (record c { values = values }))

  pub data AllAlike : Registry F → Registry F → Type 0 where
    none_left : AllAlike [] []
    and_then :
        {c d : Collector F} {cs ds : Registry F}
        → Alike c d
        → AllAlike cs ds
        → AllAlike (c ∷ cs) (d ∷ ds)

  name_of-Alike : {c d : Collector F} → Alike c d → name_of c ≡ name_of d
  unfolding name_of
  name_of-Alike (same c) = refl
  name_of-Alike (reordered c values u r) = refl

  insert_by-AllAlike :
      {c d : Collector F} {cs ds : Registry F}
      → Alike c d
      → AllAlike cs ds
      → AllAlike (insert_by name_of c cs) (insert_by name_of d ds)
  unfolding insert_by
  insert_by-AllAlike a none_left = and_then a none_left
  insert_by-AllAlike {c} {d} a (and_then {c = e} b bs) =
      elim (Bool-cases (before (name_of c) (name_of e))) [
        | inl first ↦
            rw (first, ap₂ before (sym (name_of-Alike a)) (sym (name_of-Alike b)) ∙ first)
              (and_then a (and_then b bs))
        | inr second ↦
            rw (second, ap₂ before (sym (name_of-Alike a)) (sym (name_of-Alike b)) ∙ second)
              (and_then b (insert_by-AllAlike a bs))
      ]

  sort_by-AllAlike :
      {cs ds : Registry F} → AllAlike cs ds → AllAlike (sort_by name_of cs) (sort_by name_of ds)
  unfolding sort_by
  sort_by-AllAlike none_left = none_left
  sort_by-AllAlike (and_then a bs) = insert_by-AllAlike a (sort_by-AllAlike bs)

  -- A registry never holds two collectors of one name.
  pub must_register_unique :
      (items r : Registry F)
      → are_unique name_of r ≡ true
      → are_unique name_of (must_register items r).1 ≡ true
  unfolding must_register are_unique
  must_register_unique [] r h = h
  must_register_unique (item ∷ items) r h = elim (Bool-cases (any (has_name (name_of item)) r)) [
    | inl taken ↦ rw taken h
    | inr free ↦ rw free (must_register_unique items (item ∷ r) (rw (free, h) refl))
  ]

module _ {F : Type 0} (fl : Floats F) where
  write_prometheus-Alike :
      {c d : Collector F} → Alike c d → write_prometheus fl c ≡ write_prometheus fl d
  unfolding write_prometheus write_counter_vec
  write_prometheus-Alike (same c) = refl
  write_prometheus-Alike (reordered c values u r) =
      ap
        (λ ss.
          after_head fl (metric_head c.opts.name "counter" c.opts.help)
            (write_series fl c.opts.name c.label_names ss))
        (sort_by-Rearranged key_of r u)

  write_all-AllAlike : {cs ds : Registry F} → AllAlike cs ds → write_all fl cs ≡ write_all fl ds
  unfolding write_all
  write_all-AllAlike none_left = refl
  write_all-AllAlike (and_then a bs) =
      ap₂ (both fl) (write_prometheus-Alike a) (write_all-AllAlike bs)

  -- Where the names of the registry differ, the text that is served does not depend on the order in which the map of
  -- collectors is walked, nor on the order of the map of values of any counter whose keys differ.
  pub exposition_unordered :
      (r s t : Registry F)
      → are_unique name_of r ≡ true
      → Rearranged r s
      → AllAlike s t
      → exposition fl r ≡ exposition fl t
  unfolding exposition
  exposition_unordered r s t u p a =
      ap (write_all fl) (sort_by-Rearranged name_of p u) ∙ write_all-AllAlike (sort_by-AllAlike a)
