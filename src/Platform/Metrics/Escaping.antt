-- ===== src/Platform/Metrics/Escaping.antt =====
-- The label values that `escapeLabelValue` of internal/platform/metrics/metrics.go writes, read back as the text format
-- of Prometheus has it.
use todo_1m.Prelude.{
  ℕ, ◌≡◌, refl, sym, ap, ◌∙◌, true, false, [], ◌∷◌, ◌++◌, Option, none, some, eqb, eqb_iff,
  if◌then◌else◌, arith, Bool-cases, inl, inr,
}
use todo_1m.Platform.Metrics.{Bytes, escape_label_value}

-- One byte in front of a text that is escaped.
abbrev pub escaped_as : ℕ → Bytes → Bytes
escaped_as c rest =
    if eqb c b'\\'
    then b'\\' ∷ b'\\' ∷ rest
    else if eqb c 10
    then b'\\' ∷ b'n' ∷ rest
    else if eqb c b'"'
    then b'\\' ∷ b'"' ∷ rest
    else c ∷ rest

-- All replacements in one pass.
unfoldable pub escape : Bytes → Bytes
escape [] = []
escape (c ∷ cs) = escaped_as c (escape cs)

one_pass : (v : Bytes) → escape_label_value v ≡ escape v
unfolding escape_label_value escape
one_pass [] = refl
one_pass (c ∷ cs) = ground (arith, one_pass cs)

abbrev pub unescaped : ℕ → ℕ
unescaped d = if eqb d b'n' then 10 else d

abbrev pub with_first : ℕ → Option (Bytes × Bytes) → Option (Bytes × Bytes)
with_first c none = none
with_first c (some (v, rest)) = some (c ∷ v, rest)

-- A label value up to its closing quote, and what follows.
unfoldable pub read_label : Bytes → Option (Bytes × Bytes)
read_label [] = none
read_label (c ∷ []) = if eqb c b'"' then some ([], []) else none
read_label (c ∷ d ∷ ds) =
    let escaped = with_first (unescaped d) (read_label ds) in
    let plain = with_first c (read_label (d ∷ ds)) in
    if eqb c b'"' then some ([], d ∷ ds) else if eqb c b'\\' then escaped else plain

plain_first :
    (c : ℕ) (xs rest : Bytes)
    → eqb c b'"' ≡ false
    → eqb c b'\\' ≡ false
    → read_label (c ∷ xs ++ (b'"' ∷ rest)) ≡ with_first c (read_label (xs ++ (b'"' ∷ rest)))
unfolding read_label
plain_first c [] rest h k = rw (h, k) refl
plain_first c (x ∷ xs) rest h k = rw (h, k) refl

same_first :
    (c d : ℕ) (cs rest : Bytes)
    → eqb c d ≡ true
    → with_first d (some (cs, rest)) ≡ with_first c (some (cs, rest))
same_first c d cs rest h = ap (λ (x : ℕ). with_first x (some (cs, rest))) (sym ((eqb_iff c d).0 h))

read_step :
    (c : ℕ) (t cs rest : Bytes)
    → read_label (t ++ (b'"' ∷ rest)) ≡ some (cs, rest)
    → read_label (escaped_as c t ++ (b'"' ∷ rest)) ≡ some (c ∷ cs, rest)
unfolding read_label
read_step c t cs rest ih = elim (Bool-cases (eqb c b'\\')) [
  | inl slash ↦ rw (slash, ih) (same_first c b'\\' cs rest slash)
  | inr not_slash ↦ elim (Bool-cases (eqb c 10)) [
    | inl newline ↦ rw (not_slash, newline, ih) (same_first c 10 cs rest newline)
    | inr not_newline ↦ elim (Bool-cases (eqb c b'"')) [
      | inl quote ↦ rw (not_slash, not_newline, quote, ih) (same_first c b'"' cs rest quote)
      | inr plain ↦
          rw (not_slash, not_newline, plain)
            (plain_first c t rest plain not_slash ∙ ap (with_first c) ih)
    ]
  ]
]

read_label-escape : (v rest : Bytes) → read_label (escape v ++ (b'"' ∷ rest)) ≡ some (v, rest)
unfolding escape read_label
read_label-escape [] [] = refl
read_label-escape [] (d ∷ ds) = refl
read_label-escape (c ∷ cs) rest = read_step c (escape cs) cs rest (read_label-escape cs rest)

-- The three replacements of escapeLabelValue have the effect of one pass, and whatever bytes follow the closing quote, a
-- label value that it has escaped is read back as it was.
pub read_label-escape_label_value :
    (v rest : Bytes)
    → (escape_label_value v ≡ escape v)
      × (read_label (escape_label_value v ++ (b'"' ∷ rest)) ≡ some (v, rest))
read_label-escape_label_value v rest =
    (one_pass v, ap (λ x. read_label (x ++ (b'"' ∷ rest))) (one_pass v) ∙ read_label-escape v rest)
