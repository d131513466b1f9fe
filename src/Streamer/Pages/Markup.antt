-- ===== src/Streamer/Pages/Markup.antt =====
-- What users have written, in the pages that cmd/sse-streamer/main.go renders.
use Prim.Native.String
use todo_1m.Prelude.{
  ℕ, ◌≡◌, refl, sym, ap, ap₂, ◌∙◌, Char, code, String, Bool, false, ◌||◌, List, [], ◌∷◌, ◌++◌, map,
  eqb, if◌then◌else◌, ◌==◌, trim_space, Bool-cases, inl, inr,
}
use todo_1m.Identity.Tables.{GroupMembership}
use todo_1m.Identity.Repository.{role_owner}
use todo_1m.ReadModel.{TodoView}
use todo_1m.Streamer.Pages.{
  Piece, groups_open, todos_open, raw, shown, escaped_char, escape_string, text_of, written,
  group_row, group_rows, render_groups_list, can_edit, todo_row, todo_rows, listed_todos,
  render_todo_list,
}

-- The characters that make HTML of a text: < > " '
abbrev pub is_markup : ℕ → Bool
is_markup c = eqb c b'<' || eqb c b'>' || eqb c b'"' || eqb c 39

-- These characters of a text, in order.
unfoldable pub markup : String → List ℕ
markup String.[] = []
markup (String.◌∷◌ c s) = let rest = markup s in if is_markup (code c) then code c ∷ rest else rest

markup-append : (s t : String) → markup (String.◌++◌ s t) ≡ markup s ++ markup t
unfolding markup
markup-append String.[] t = ap markup (String.append.nil t)
markup-append (String.◌∷◌ c s) t =
    ap markup (String.append.cons c s t) ∙ elim (Bool-cases (is_markup (code c))) [
      | inl hit ↦ rw hit (ap (◌∷◌ (code c)) (markup-append s t))
      | inr miss ↦ rw miss (markup-append s t)
    ]

-- An entity in front of a text adds nothing.
entity : (e t : String) → markup e ≡ [] → markup (String.◌++◌ e t) ≡ markup t
entity e t h = markup-append e t ∙ ap (λ (m : List ℕ). m ++ markup t) h

markup-escaped_char : (c : Char) (t : String) → markup (escaped_char c t) ≡ markup t
unfolding markup
markup-escaped_char c t = elim (Bool-cases (eqb (code c) b'&')) [
  | inl a ↦ rw a (entity "&amp;" t refl)
  | inr a ↦ elim (Bool-cases (eqb (code c) 39)) [
    | inl b ↦ rw (a, b) (entity "&#39;" t refl)
    | inr b ↦ elim (Bool-cases (eqb (code c) b'<')) [
      | inl d ↦ rw (a, b, d) (entity "&lt;" t refl)
      | inr d ↦ elim (Bool-cases (eqb (code c) b'>')) [
        | inl e ↦ rw (a, b, d, e) (entity "&gt;" t refl)
        | inr e ↦ elim (Bool-cases (eqb (code c) b'"')) [
          | inl f ↦ rw (a, b, d, e, f) (entity "&#34;" t refl)
          | inr f ↦ rw (a, b, d, e, f) (rw (d, e, f, b) refl)
        ]
      ]
    ]
  ]
]

markup-escape_string : (s : String) → markup (escape_string s) ≡ []
unfolding escape_string markup
markup-escape_string String.[] = refl
markup-escape_string (String.◌∷◌ c s) =
    markup-escaped_char c (escape_string s) ∙ markup-escape_string s

-- A page without what is escaped.
abbrev pub blank : Piece → Piece
blank (raw s) = raw s
blank (shown s) = shown ""

markup-blank : (p : Piece) → markup (text_of (blank p)) ≡ markup (text_of p)
unfolding text_of escape_string markup
markup-blank (raw s) = refl
markup-blank (shown s) = sym (markup-escape_string s)

markup-written : (ps : List Piece) → markup (written (map blank ps)) ≡ markup (written ps)
unfolding written
markup-written [] = refl
markup-written (p ∷ ps) =
    markup-append (text_of (blank p)) (written (map blank ps))
    ∙ ap₂ ◌++◌ (markup-blank p) (markup-written ps)
    ∙ sym (markup-append (text_of p) (written ps))

same_markup :
    (ps qs : List Piece) → map blank ps ≡ map blank qs → markup (written ps) ≡ markup (written qs)
same_markup ps qs e = sym (markup-written ps) ∙ ap (λ rs. markup (written rs)) e ∙ markup-written qs

blank-append : (ps qs : List Piece) → map blank (ps ++ qs) ≡ map blank ps ++ map blank qs
blank-append [] qs = refl
blank-append (p ∷ ps) qs = ap (◌∷◌ (blank p)) (blank-append ps qs)

blank_parts :
    (ps ps' qs qs' : List Piece)
    → map blank ps ≡ map blank ps'
    → map blank qs ≡ map blank qs'
    → map blank (ps ++ qs) ≡ map blank (ps' ++ qs')
blank_parts ps ps' qs qs' e f = blank-append ps qs ∙ ap₂ ◌++◌ e f ∙ sym (blank-append ps' qs')

blank-todo_row :
    (user role user' role' : String) (t u : TodoView)
    → can_edit user role t ≡ can_edit user' role' u
    → map blank (todo_row user role t) ≡ map blank (todo_row user' role' u)
unfolding todo_row
blank-todo_row user role user' role' t u e = elim (Bool-cases (can_edit user role t)) [
  | inl may ↦ rw (may, sym e ∙ may) refl
  | inr may_not ↦ rw (may_not, sym e ∙ may_not) refl
]

blank-group_row :
    (active active' : String) (g h : GroupMembership)
    → (g.role == role_owner) ≡ (h.role == role_owner)
    → map blank (group_row active g) ≡ map blank (group_row active' h)
unfolding group_row
blank-group_row active active' g h e = elim (Bool-cases (g.role == role_owner)) [
  | inl owner ↦ rw (owner, sym e ∙ owner) refl
  | inr not_owner ↦ rw (not_owner, sym e ∙ not_owner) refl
]

first_of : (a b : Bool) (as_ bs : List Bool) → a ∷ as_ ≡ b ∷ bs → a ≡ b
first_of a b as_ bs e = cc

rest_of : (a b : Bool) (as_ bs : List Bool) → a ∷ as_ ≡ b ∷ bs → as_ ≡ bs
rest_of a b as_ bs e = cc

module _ (user role user' role' : String) where
  blank-todo_rows :
      (ts us : List TodoView)
      → map (can_edit user role) ts ≡ map (can_edit user' role') us
      → map blank (todo_rows user role ts) ≡ map blank (todo_rows user' role' us)
  unfolding todo_rows
  blank-todo_rows [] [] e = refl
  blank-todo_rows [] (u ∷ us) e = absurd (cc)
  blank-todo_rows (t ∷ ts) [] e = absurd (cc)
  blank-todo_rows (t ∷ ts) (u ∷ us) e =
      blank_parts (todo_row user role t) (todo_row user' role' u) (todo_rows user role ts)
        (todo_rows user' role' us) (blank-todo_row user role user' role' t u (first_of _ _ _ _ e))
        (blank-todo_rows ts us (rest_of (can_edit user role t) (can_edit user' role' u) _ _ e))

  blank-listed_todos :
      (ts us : List TodoView)
      → map (can_edit user role) ts ≡ map (can_edit user' role') us
      → map blank (listed_todos user role ts) ≡ map blank (listed_todos user' role' us)
  blank-listed_todos [] [] e = refl
  blank-listed_todos [] (u ∷ us) e = absurd (cc)
  blank-listed_todos (t ∷ ts) [] e = absurd (cc)
  blank-listed_todos (t ∷ ts) (u ∷ us) e =
      blank_parts (todo_rows user role (t ∷ ts)) (todo_rows user' role' (u ∷ us)) _ _
        (blank-todo_rows (t ∷ ts) (u ∷ us) e) refl

abbrev pub is_owned : GroupMembership → Bool
is_owned g = g.role == role_owner

blank-group_rows :
    (active active' : String) (gs hs : List GroupMembership)
    → map is_owned gs ≡ map is_owned hs
    → map blank (group_rows active gs) ≡ map blank (group_rows active' hs)
unfolding group_rows
blank-group_rows active active' [] [] e = refl
blank-group_rows active active' [] (h ∷ hs) e = absurd (cc)
blank-group_rows active active' (g ∷ gs) [] e = absurd (cc)
blank-group_rows active active' (g ∷ gs) (h ∷ hs) e =
    blank_parts (group_row active g) (group_row active' h) (group_rows active gs)
      (group_rows active' hs) (blank-group_row active active' g h (first_of _ _ _ _ e))
      (blank-group_rows active active' gs hs (rest_of (is_owned g) (is_owned h) _ _ e))

blank-render_groups_list :
    (active active' : String) (gs hs : List GroupMembership)
    → map is_owned gs ≡ map is_owned hs
    → map blank (render_groups_list gs active) ≡ map blank (render_groups_list hs active')
unfolding render_groups_list
blank-render_groups_list active active' [] [] e = refl
blank-render_groups_list active active' [] (h ∷ hs) e = absurd (cc)
blank-render_groups_list active active' (g ∷ gs) [] e = absurd (cc)
blank-render_groups_list active active' (g ∷ gs) (h ∷ hs) e = ap (◌∷◌ groups_open) (
    blank_parts (group_rows active (g ∷ gs)) (group_rows active' (h ∷ hs)) (raw "</ul>" ∷ [])
      (raw "</ul>" ∷ []) (blank-group_rows active active' (g ∷ gs) (h ∷ hs) e) refl)

-- The characters < > " ' of the rendered lists, in order, do not depend on what users have written. Two lists of todos
-- of chosen groups have the same ones wherever the same rows can be edited, and two lists of groups wherever the same
-- groups are owned.
pub written_adds_no_markup :
    (todos others : List TodoView) (user role group user' role' group' : String)
    (gs hs : List GroupMembership)
    → (trim_space group == "") ≡ false
    → (trim_space group' == "") ≡ false
    → map (can_edit user role) todos ≡ map (can_edit user' role') others
    → map is_owned gs ≡ map is_owned hs
    → (markup (written (render_todo_list todos user role group))
        ≡ markup (written (render_todo_list others user' role' group')))
      × (markup (written (render_groups_list gs group))
          ≡ markup (written (render_groups_list hs group')))
unfolding render_todo_list
written_adds_no_markup todos others user role group user' role' group' gs hs p q e f = (
  rw (p, q)
      (same_markup _ _ (
        blank_parts (todos_open group) (todos_open group') (listed_todos user role todos)
          (listed_todos user' role' others) refl
          (blank-listed_todos user role user' role' todos others e))),
  same_markup _ _ (blank-render_groups_list group group' gs hs f),
)
