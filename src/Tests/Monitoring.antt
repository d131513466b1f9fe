-- ===== src/Tests/Monitoring.antt =====
-- The theorems on the metrics at concrete inputs.
use todo_1m.Prelude.{
  ℕ, suc, ◌+◌, ◌-◌, ◌≡◌, refl, Bool, true, false, List, [], ◌∷◌, ◌++◌, some, ℤ, pos, negsuc, leb,
  if◌then◌else◌, itoa_int, any,
}
use todo_1m.Platform.Metrics.{
  ascii, Floats, Series, CounterVec, Collector, gauge, counter_vec, name_of, exposition,
  escape_label_value, sort_by, same_bytes,
}
use todo_1m.Platform.Metrics.Order.{swapped, are_unique}
use todo_1m.Platform.Metrics.Exposition.{same, reordered, none_left, and_then, exposition_unordered}
use todo_1m.Platform.Metrics.Escaping.{escape, read_label, read_label-escape_label_value}

difference : ℕ → ℕ → ℤ
difference a b = if leb b a then pos (a - b) else negsuc (b - a - 1)

sum_of : ℤ → ℤ → ℤ
unfolding difference
sum_of (pos a) (pos b) = pos (a + b)
sum_of (pos a) (negsuc b) = difference a (suc b)
sum_of (negsuc a) (pos b) = difference b (suc a)
sum_of (negsuc a) (negsuc b) = negsuc (suc (a + b))

is_below_zero : ℤ → Bool
is_below_zero (pos a) = false
is_below_zero (negsuc a) = true

-- Whole numbers in place of floats.
abbrev whole : Floats ℤ
whole = record {
  zero_float = pos 0;
  one = pos 1;
  minus_one = negsuc 0;
  plus = sum_of;
  is_negative = is_below_zero;
  float_to_string = λ v. ascii (itoa_int v);
}

abbrev requests : CounterVec ℤ
requests = record {
  opts = record { name = ascii "requests"; help = ascii "Requests." };
  label_names = ascii "method" ∷ [];
  values =
      record { key = ascii "GET"; value = pos 2 }
      ∷ record { key = ascii "PUT"; value = pos 1 }
      ∷ [];
}

abbrev reversed : List (Series ℤ)
reversed =
    record { key = ascii "PUT"; value = pos 1 } ∷ record { key = ascii "GET"; value = pos 2 } ∷ []

abbrev users : Collector ℤ
users =
    gauge (record { opts = record { name = ascii "users"; help = ascii "Users." }; value = pos 4 })

exposition_unordered_example :
    exposition whole (counter_vec requests ∷ users ∷ [])
    ≡ exposition whole (users ∷ counter_vec (record requests { values = reversed }) ∷ [])
unfolding are_unique any same_bytes name_of
exposition_unordered_example =
    exposition_unordered whole (counter_vec requests ∷ users ∷ [])
      (users ∷ counter_vec requests ∷ [])
      (users ∷ counter_vec (record requests { values = reversed }) ∷ []) refl
      (swapped (counter_vec requests) users [])
      (and_then (same users)
        (and_then (reordered requests reversed refl (swapped _ _ [])) none_left))

read_label-escape_label_value_example :
    (escape_label_value (ascii "a\"b\\\n") ≡ escape (ascii "a\"b\\\n"))
    × (read_label (escape_label_value (ascii "a\"b\\\n") ++ (b'"' ∷ ascii "} 1"))
        ≡ some (ascii "a\"b\\\n", ascii "} 1"))
read_label-escape_label_value_example =
    read_label-escape_label_value (ascii "a\"b\\\n") (ascii "} 1")

-- A label value with the separator in it is shown up to the separator.
cut_off :
    exposition whole (
      counter_vec
        (record requests { values = record { key = 71 ∷ 0xff ∷ 72 ∷ []; value = pos 1 } ∷ [] })
      ∷ [])
    ≡ some (ascii "# HELP requests Requests.\n# TYPE requests counter\nrequests{method=\"G\"} 1\n")
unfolding exposition itoa_int sort_by escape_label_value
cut_off = refl
