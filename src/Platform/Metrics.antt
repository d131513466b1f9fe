-- ===== src/Platform/Metrics.antt =====
-- internal/platform/metrics/metrics.go. Its texts are bytes here, since a key holds the byte 0xff; a map is a list, in
-- any order, of its entries. A float64 is a parameter with the operations that the package uses, and a panic is `none`.
pub mod Order
pub mod Exposition
pub mod Escaping
pub mod Counting
use todo_1m.Prelude.{
  ℕ, zero, suc, String, Bool, true, false, not, ◌||◌, ◌&&◌, List, [], ◌∷◌, ◌++◌, Option, none, some,
  length, any, find, select, ltb, eqb, if◌then◌else◌, code,
}

abbrev pub Bytes : Type 0
Bytes = List ℕ

-- The bytes of an ASCII literal.
abbrev pub ascii : String → Bytes
ascii String.[] = []
ascii (String.◌∷◌ c s) = code c ∷ ascii s

unfoldable pub same_bytes : Bytes → Bytes → Bool
same_bytes [] [] = true
same_bytes [] (y ∷ ys) = false
same_bytes (x ∷ xs) [] = false
same_bytes (x ∷ xs) (y ∷ ys) = eqb x y && same_bytes xs ys

-- `<` on Go's strings.
unfoldable pub before : Bytes → Bytes → Bool
before xs [] = false
before [] (y ∷ ys) = true
before (x ∷ xs) (y ∷ ys) = ltb x y || (eqb x y && before xs ys)

-- sort.Strings and sort.Slice, by a key: entries with different keys have one order.
module _ {A : Type 0} (key : A → Bytes) where
  unfoldable pub insert_by : A → List A → List A
  insert_by x [] = x ∷ []
  insert_by x (y ∷ ys) =
      let rest = insert_by x ys in if before (key x) (key y) then x ∷ y ∷ ys else y ∷ rest

  unfoldable pub sort_by : List A → List A
  unfolding insert_by
  sort_by [] = []
  sort_by (x ∷ xs) = insert_by x (sort_by xs)

pub record Floats (F : Type 0) : Type 0 where
  pub zero_float : F
  pub one : F
  pub minus_one : F
  pub plus : F → F → F
  pub is_negative : F → Bool
  -- strconv.FormatFloat(v, 'f', -1, 64)
  pub float_to_string : F → Bytes

pub record Opts : Type 0 where
  pub name : Bytes
  pub help : Bytes

pub record Gauge (F : Type 0) : Type 0 where
  pub opts : Opts
  pub value : F

-- An entry of `values`.
pub record Series (F : Type 0) : Type 0 where
  pub key : Bytes
  pub value : F

pub record CounterVec (F : Type 0) : Type 0 where
  pub opts : Opts
  pub label_names : List Bytes
  pub values : List (Series F)

-- strings.ReplaceAll, of one byte.
unfoldable pub replace_all : ℕ → Bytes → Bytes → Bytes
replace_all old new [] = []
replace_all old new (c ∷ cs) =
    let rest = replace_all old new cs in if eqb c old then new ++ rest else c ∷ rest

-- `escapeLabelValue`
unfoldable pub escape_label_value : Bytes → Bytes
unfolding replace_all
escape_label_value v =
    replace_all b'"' (b'\\' ∷ b'"' ∷ [])
      (replace_all 10 (b'\\' ∷ b'n' ∷ []) (replace_all b'\\' (b'\\' ∷ b'\\' ∷ []) v))

-- strings.Join(labelValues, "\xff")
unfoldable pub join_labels : List Bytes → Bytes
join_labels [] = []
join_labels (v ∷ []) = v
join_labels (v ∷ w ∷ ws) = v ++ (0xff ∷ join_labels (w ∷ ws))

add_to_first : ℕ → List Bytes → List Bytes
add_to_first c [] = (c ∷ []) ∷ []
add_to_first c (part ∷ parts) = (c ∷ part) ∷ parts

-- strings.Split(entry.key, "\xff")
unfoldable pub split_labels : Bytes → List Bytes
unfolding add_to_first
split_labels [] = [] ∷ []
split_labels (c ∷ cs) =
    let parts = split_labels cs in if eqb c 0xff then [] ∷ parts else add_to_first c parts

-- `writeMetricHead`
unfoldable pub metric_head : Bytes → String → Bytes → Bytes
metric_head name metric_type help =
    ascii "# HELP "
    ++ (name
        ++ (ascii " "
            ++ (help
                ++ (ascii "\n# TYPE "
                    ++ (name ++ (ascii " " ++ (ascii metric_type ++ ascii "\n")))))))

abbrev pub label : Bytes → Bytes → Bytes
label name value = name ++ (ascii "=\"" ++ (escape_label_value value ++ ascii "\""))

-- The labels of a series; with fewer values than names the index is out of range.
abbrev pub more_labels : List Bytes → List Bytes → Option Bytes
more_labels [] values = some []
more_labels (name ∷ names) [] = none
more_labels (name ∷ names) (value ∷ values) = elim (more_labels names values) [
  | none ↦ none
  | some rest ↦ some (ascii "," ++ (label name value ++ rest))
]

unfoldable pub labels : List Bytes → List Bytes → Option Bytes
labels [] values = some []
labels (name ∷ names) [] = none
labels (name ∷ names) (value ∷ values) = elim (more_labels names values) [
  | none ↦ none
  | some rest ↦ some (label name value ++ rest)
]

module _ {F : Type 0} (fl : Floats F) where
  open fl use {zero_float, one, minus_one, plus, is_negative, float_to_string}

  -- `NewGauge`
  unfoldable pub new_gauge : Opts → Gauge F
  new_gauge opts = record { opts = opts; value = zero_float }

  -- `Gauge.Set`, `Gauge.Add`, `Gauge.Inc`, `Gauge.Dec`
  unfoldable pub set_gauge : F → Gauge F → Gauge F
  set_gauge v g = record g { value = v }

  unfoldable pub add_gauge : F → Gauge F → Gauge F
  add_gauge v g = record g { value = plus g.value v }

  unfoldable pub inc_gauge : Gauge F → Gauge F
  unfolding add_gauge
  inc_gauge g = add_gauge one g

  unfoldable pub dec_gauge : Gauge F → Gauge F
  unfolding add_gauge
  dec_gauge g = add_gauge minus_one g

  sample : Bytes → F → Bytes
  sample name v = name ++ (ascii " " ++ (float_to_string v ++ ascii "\n"))

  unfoldable pub write_gauge : Gauge F → Bytes
  unfolding metric_head sample
  write_gauge g = metric_head g.opts.name "gauge" g.opts.help ++ sample g.opts.name g.value

  abbrev pub or_zero : Option F → F
  or_zero none = zero_float
  or_zero (some v) = v

  -- A function that is nil gives 0.
  unfoldable pub write_gauge_func : Opts → Option F → Bytes
  unfolding metric_head sample
  write_gauge_func opts v = metric_head opts.name "gauge" opts.help ++ sample opts.name (or_zero v)

  -- `NewCounterVec`
  unfoldable pub new_counter_vec : Opts → List Bytes → CounterVec F
  new_counter_vec opts label_names = record { opts = opts; label_names = label_names; values = [] }

  -- `c.values[key] += delta`, where a missing key is 0.
  unfoldable pub raise_key : Bytes → F → List (Series F) → List (Series F)
  raise_key key delta [] = record { key = key; value = plus zero_float delta } ∷ []
  raise_key key delta (s ∷ ss) =
      let rest = raise_key key delta ss in
      if same_bytes s.key key then record s { value = plus s.value delta } ∷ ss else s ∷ rest

  -- `CounterVec.add`
  unfoldable pub add_delta : List Bytes → F → CounterVec F → CounterVec F
  unfolding raise_key
  add_delta label_values delta c =
      if not (eqb (length label_values) (length c.label_names))
      then c
      else record c { values = raise_key (join_labels label_values) delta c.values }

  -- `Counter.Add` and `Counter.Inc` on the counter of some label values.
  unfoldable pub add_counter : List Bytes → F → CounterVec F → CounterVec F
  unfolding add_delta
  add_counter label_values v c = if is_negative v then c else add_delta label_values v c

  unfoldable pub inc_counter : List Bytes → CounterVec F → CounterVec F
  unfolding add_counter
  inc_counter label_values c = add_counter label_values one c

  abbrev pub line_of : Bytes → F → Option Bytes → Option Bytes → Option Bytes
  line_of name v none rest = none
  line_of name v (some shown) none = none
  line_of name v (some shown) (some rest) = some (
      name ++ (ascii "{" ++ (shown ++ (ascii "} " ++ (float_to_string v ++ (ascii "\n" ++ rest))))))

  unfoldable pub write_series : Bytes → List Bytes → List (Series F) → Option Bytes
  unfolding labels split_labels
  write_series name label_names [] = some []
  write_series name label_names (s ∷ ss) =
      line_of name s.value (labels label_names (split_labels s.key))
        (write_series name label_names ss)

  abbrev pub after_head : Bytes → Option Bytes → Option Bytes
  after_head head none = none
  after_head head (some rest) = some (head ++ rest)

  -- `CounterVec.writePrometheus`
  unfoldable pub write_counter_vec : CounterVec F → Option Bytes
  unfolding metric_head write_series
  write_counter_vec c =
      after_head (metric_head c.opts.name "counter" c.opts.help)
        (write_series c.opts.name c.label_names (sort_by (λ s. s.key) c.values))

-- What is registered: a gauge function with the value that it gives now.
pub data Collector (F : Type 0) : Type 0 where
  gauge : Gauge F → Collector F
  gauge_func : Opts → Option F → Collector F
  counter_vec : CounterVec F → Collector F

-- `name()`
unfoldable pub name_of : {F : Type 0} → Collector F → Bytes
name_of (gauge g) = g.opts.name
name_of (gauge_func opts v) = opts.name
name_of (counter_vec c) = c.opts.name

-- `Registry`, by name.
abbrev pub Registry : Type 0 → Type 0
Registry F = List (Collector F)

abbrev pub has_name : {F : Type 0} → Bytes → Collector F → Bool
has_name name c = same_bytes (name_of c) name

-- `MustRegister`: `false` where it panics, with what was registered before.
unfoldable pub must_register : {F : Type 0} → List (Collector F) → Registry F → Bool × Registry F
unfolding name_of
must_register [] r = (true, r)
must_register (item ∷ items) r =
    let rest = must_register items (item ∷ r) in
    if any (has_name (name_of item)) r then (false, r) else rest

module _ {F : Type 0} (fl : Floats F) where
  -- `writePrometheus`
  unfoldable pub write_prometheus : Collector F → Option Bytes
  unfolding write_gauge write_gauge_func write_counter_vec
  write_prometheus (gauge g) = some (write_gauge fl g)
  write_prometheus (gauge_func opts v) = some (write_gauge_func fl opts v)
  write_prometheus (counter_vec c) = write_counter_vec fl c

  abbrev pub both : Option Bytes → Option Bytes → Option Bytes
  both none rest = none
  both (some text) none = none
  both (some text) (some rest) = some (text ++ rest)

  unfoldable pub write_all : List (Collector F) → Option Bytes
  unfolding write_prometheus
  write_all [] = some []
  write_all (c ∷ cs) = both (write_prometheus c) (write_all cs)

  -- `Handler`: the text that is served.
  unfoldable pub exposition : Registry F → Option Bytes
  unfolding write_all
  exposition r = write_all (sort_by name_of r)
