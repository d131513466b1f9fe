-- ===== src/Streamer/Events/Frames.antt =====
-- The server-sent events that the handler of /events in cmd/sse-streamer/main.go writes.
use Prim.Native.String
use todo_1m.Prelude.{
  ℕ, ◌≡◌, refl, sym, ap, ◌∙◌, code, String, Bool, true, false, not, ◌&&◌, if◌then◌else◌, List, [],
  ◌∷◌, ◌++◌, Option, none, some, eqb, split, arith, All, Bool-cases, inl, inr, ◌==◌, if_holds,
}
use todo_1m.Prelude.Splits.{empty_append, append_assoc, lacks, split-part}
use todo_1m.Errors.{Result, ok, err}
use todo_1m.Contracts.{TodoEvent}
use todo_1m.ReadModel.{TodoView}
use todo_1m.Streamer.Groups.{GroupStreamMessage}
use todo_1m.Streamer.Events.{
  replace_char, css_attr_selector, Patch, send_patch, fragment, send_fragment, event_patches,
  todo_patch, event_part, todos_part, message_patches, initial_todos, initial_patches,
}

both_of : (a b : Bool) → a ≡ true → b ≡ true → (a && b) ≡ true
both_of a b h k = ground arith

first : (a b : Bool) → (a && b) ≡ true → a ≡ true
first a b h = ground arith

second : (a b : Bool) → (a && b) ≡ true → b ≡ true
second a b h = ground arith

lacks-append :
    (n : ℕ) (s t : String) → lacks n s ≡ true → lacks n t ≡ true → lacks n (String.◌++◌ s t) ≡ true
unfolding lacks
lacks-append n String.[] t h k = ap (lacks n) (String.append.nil t) ∙ k
lacks-append n (String.◌∷◌ c s) t h k =
    ap (lacks n) (String.append.cons c s t)
    ∙ both_of (not (eqb (code c) n)) _ (first _ _ h) (lacks-append n s t (second _ _ h) k)

no_newlines : (s : String) → lacks 10 (replace_char 10 "" s) ≡ true
unfolding lacks replace_char
no_newlines String.[] = refl
no_newlines (String.◌∷◌ c s) = elim (Bool-cases (eqb (code c) 10)) [
  | inl newline ↦ rw newline (ap (lacks 10) (empty_append (replace_char 10 "" s)) ∙ no_newlines s)
  | inr other ↦ rw other (both_of _ _ (ap not other) (no_newlines s))
]

lacks-replace_char :
    (n old : ℕ) (new s : String)
    → lacks n new ≡ true
    → lacks n s ≡ true
    → lacks n (replace_char old new s) ≡ true
unfolding lacks replace_char
lacks-replace_char n old new String.[] h k = refl
lacks-replace_char n old new (String.◌∷◌ c s) h k = elim (Bool-cases (eqb (code c) old)) [
  | inl hit ↦ rw hit (
      lacks-append n new (replace_char old new s) h
        (lacks-replace_char n old new s h (second _ _ k)))
  | inr miss ↦ rw miss (both_of _ _ (first _ _ k) (lacks-replace_char n old new s h (second _ _ k)))
]

-- A label and a value up to the end of their line.
line :
    (x y r : String)
    → lacks 10 x ≡ true
    → lacks 10 y ≡ true
    → split 10 (String.◌++◌ x (String.◌++◌ y (String.◌∷◌ "\n" r))) ≡ String.◌++◌ x y ∷ split 10 r
line x y r h k =
    ap (split 10) (sym (append_assoc x y (String.◌∷◌ "\n" r)))
    ∙ split-part "\n" (String.◌++◌ x y) r (lacks-append 10 x y h k)

-- What a client reads as lines: CR LF, LF and CR end one. `after_return` says whether the last character was CR.
unfoldable pub one_ending : Bool → String → String
one_ending after_return String.[] = String.[]
one_ending after_return (String.◌∷◌ c s) =
    let returned = one_ending true s in
    let rest = one_ending false s in
    if eqb (code c) 13
    then String.◌∷◌ "\n" returned
    else if after_return && eqb (code c) 10
    then rest
    else String.◌∷◌ c rest

unfoldable pub sse_lines : String → List String
unfolding one_ending
sse_lines s = split 10 (one_ending false s)

one_ending-lacks : (s : String) → lacks 13 s ≡ true → one_ending false s ≡ s
unfolding one_ending lacks
one_ending-lacks String.[] h = refl
one_ending-lacks (String.◌∷◌ c s) h = elim (Bool-cases (eqb (code c) 13)) [
  | inl return ↦ absurd (clash (sym (ap not return) ∙ first _ _ h))
  | inr other ↦ rw other (ap (String.◌∷◌ c) (one_ending-lacks s (second _ _ h)))
]
  where
    clash : false ≡ true → ⊥
    clash e = cc

-- One event of four lines, with the empty line that ends it.
abbrev pub lines_of : Patch → List String
lines_of p =
    "event: datastar-patch-elements"
    ∷ String.◌++◌ "data: selector " p.selector
    ∷ String.◌++◌ "data: mode " p.mode
    ∷ String.◌++◌ "data: elements " (replace_char 10 "" p.content)
    ∷ ""
    ∷ ""
    ∷ []

abbrev pub IsFrame : Patch → Type 0
IsFrame p = sse_lines (send_patch p) ≡ lines_of p

break_line : (x r : String) → String.◌++◌ (String.◌∷◌ "\n" x) r ≡ String.◌∷◌ "\n" (String.◌++◌ x r)
break_line x r = String.append.cons "\n" x r

-- The content of a patch has no CR.
abbrev pub HasNoReturn : Patch → Type 0
HasNoReturn p = lacks 13 p.content ≡ true

split-send_patch :
    (p : Patch)
    → lacks 10 p.selector ≡ true
    → lacks 10 p.mode ≡ true
    → split 10 (send_patch p) ≡ lines_of p
unfolding send_patch lacks split
split-send_patch p h k =
    ap (split 10) whole
    ∙ split-part "\n" "event: datastar-patch-elements" after_head refl
    ∙ ap (◌∷◌ "event: datastar-patch-elements") (
        line "data: selector " p.selector after_selector refl h
        ∙ ap (◌∷◌ (String.◌++◌ "data: selector " p.selector)) (
            line "data: mode " p.mode after_mode refl k
            ∙ ap (◌∷◌ (String.◌++◌ "data: mode " p.mode))
                (line "data: elements " elements "\n" refl (no_newlines p.content))))
  where
    elements : String
    elements = replace_char 10 "" p.content

    after_mode : String
    after_mode = String.◌++◌ "data: elements " (String.◌++◌ elements "\n\n")

    after_selector : String
    after_selector = String.◌++◌ "data: mode " (String.◌++◌ p.mode (String.◌∷◌ "\n" after_mode))

    after_head : String
    after_head =
        String.◌++◌ "data: selector " (String.◌++◌ p.selector (String.◌∷◌ "\n" after_selector))

    whole : send_patch p ≡ String.◌++◌ "event: datastar-patch-elements" (String.◌∷◌ "\n" after_head)
    whole =
        append_assoc "event: datastar-patch-elements" "\ndata: selector " _
        ∙ ap (λ x. String.◌++◌ "event: datastar-patch-elements" x)
            (break_line "data: selector " _
              ∙ ap (λ x. String.◌∷◌ "\n" (String.◌++◌ "data: selector " (String.◌++◌ p.selector x)))
                  (break_line "data: mode " _
                    ∙ ap (λ x. String.◌∷◌ "\n" (String.◌++◌ "data: mode " (String.◌++◌ p.mode x)))
                        (break_line "data: elements " _)))

-- A text of one line.
record IsLine (s : String) : Type 0 where
  pub no_newline : lacks 10 s ≡ true
  pub no_return : lacks 13 s ≡ true

lacks-send_patch :
    (p : Patch)
    → lacks 13 p.selector ≡ true
    → lacks 13 p.mode ≡ true
    → HasNoReturn p
    → lacks 13 (send_patch p) ≡ true
unfolding send_patch lacks
lacks-send_patch p h k c = both "event: datastar-patch-elements\ndata: selector " of_selector refl (
    both p.selector of_mode_label h (
      both "\ndata: mode " of_mode refl (
        both p.mode of_label k (
          both "\ndata: elements " of_content refl (
            both (replace_char 10 "" p.content) "\n\n"
              (lacks-replace_char 13 10 "" p.content refl c) refl)))))
  where
    both :
        (s t : String) → lacks 13 s ≡ true → lacks 13 t ≡ true → lacks 13 (String.◌++◌ s t) ≡ true
    both = lacks-append 13

    of_content : String
    of_content = String.◌++◌ (replace_char 10 "" p.content) "\n\n"

    of_label : String
    of_label = String.◌++◌ "\ndata: elements " of_content

    of_mode : String
    of_mode = String.◌++◌ p.mode of_label

    of_mode_label : String
    of_mode_label = String.◌++◌ "\ndata: mode " of_mode

    of_selector : String
    of_selector = String.◌++◌ p.selector of_mode_label

send_patch-IsFrame : (p : Patch) → IsLine p.selector → IsLine p.mode → HasNoReturn p → IsFrame p
unfolding sse_lines
send_patch-IsFrame p h k c =
    ap (split 10) (one_ending-lacks (send_patch p) (lacks-send_patch p h.no_return k.no_return c))
    ∙ split-send_patch p h.no_newline k.no_newline

append-IsLine : (s t : String) → IsLine s → IsLine t → IsLine (String.◌++◌ s t)
append-IsLine s t h k = record {
  no_newline = lacks-append 10 s t h.no_newline k.no_newline;
  no_return = lacks-append 13 s t h.no_return k.no_return;
}

literal-IsLine : (s : String) → (lacks 10 s && lacks 13 s) ≡ true → IsLine s
literal-IsLine s h = record { no_newline = first _ _ h; no_return = second _ _ h }

replaced-IsLine :
    (old : ℕ) (new s : String) → IsLine new → IsLine s → IsLine (replace_char old new s)
replaced-IsLine old new s h k = record {
  no_newline = lacks-replace_char 10 old new s h.no_newline k.no_newline;
  no_return = lacks-replace_char 13 old new s h.no_return k.no_return;
}

selector-IsLine :
    (id value : String)
    → IsLine id
    → IsLine value
    → IsLine (css_attr_selector id "data-group-id" value)
unfolding css_attr_selector lacks
selector-IsLine id value h k = append-IsLine "#" _ (literal-IsLine "#" refl) (
    append-IsLine id _ h (
      append-IsLine "[" _ (literal-IsLine "[" refl) (
        append-IsLine "data-group-id" _ (literal-IsLine "data-group-id" refl) (
          append-IsLine "='" _ (literal-IsLine "='" refl) (
            append-IsLine _ "']"
              (replaced-IsLine 39 "\\'" _ (literal-IsLine "\\'" refl)
                (replaced-IsLine b'\\' "\\\\" value (literal-IsLine "\\\\" refl) k))
              (literal-IsLine "']" refl))))))

All-append : (P : Patch → Type 0) (ps qs : List Patch) → All P ps → All P qs → All P (ps ++ qs)
All-append P [] qs h k = k
All-append P (p ∷ ps) qs h k = (h.0, All-append P ps qs h.1 k)

parts : (P : Patch → Type 0) (ps qs : List Patch) → All P (ps ++ qs) → All P ps × All P qs
parts P [] qs h = (tt, h)
parts P (p ∷ ps) qs h = let r = parts P ps qs h.1 in ((h.0, r.0), r.1)

module _ (event_item : String → String → Option String) (group_id user role : String)
    (group_line : IsLine group_id) where
  selector :
      (id : String)
      → (lacks 10 id && lacks 13 id) ≡ true
      → IsLine (css_attr_selector id "data-group-id" group_id)
  selector id h = selector-IsLine id group_id (literal-IsLine id h) group_line

  fragment-IsFrame :
      (o : Option String)
      → All HasNoReturn (fragment event_item group_id o)
      → All IsFrame (fragment event_item group_id o)
  unfolding lacks
  fragment-IsFrame none c = tt
  fragment-IsFrame (some html) c =
      (send_patch-IsFrame _ (selector "events" refl) (literal-IsLine "prepend" refl) c.0, tt)

  todo_patch-IsFrame :
      (rows : List TodoView)
      → HasNoReturn (todo_patch event_item group_id user role rows)
      → IsFrame (todo_patch event_item group_id user role rows)
  unfolding lacks
  todo_patch-IsFrame rows c =
      send_patch-IsFrame _ (selector "todos" refl) (literal-IsLine "outer" refl) c

  -- What holds of every fragment holds of the event of a message.
  AreFrames : List Patch → Type 0
  AreFrames ps = All HasNoReturn ps → All IsFrame ps

  event_part-IsFrame : (o : Option TodoEvent) → AreFrames (event_part event_item group_id o)
  unfolding event_patches send_fragment AreFrames
  event_part-IsFrame none = λ c. tt
  event_part-IsFrame (some e) =
      if_holds AreFrames (e.event_type == "todo.created") _ _ (fragment-IsFrame _) (
        if_holds AreFrames (e.event_type == "todo.updated") _ _ (fragment-IsFrame _) (
          if_holds AreFrames (e.event_type == "todo.deleted") _ _ (fragment-IsFrame _)
            (fragment-IsFrame _)))

  todos_part-IsFrame :
      (o : Option (List TodoView)) → AreFrames (todos_part event_item group_id user role o)
  unfolding AreFrames
  todos_part-IsFrame none c = tt
  todos_part-IsFrame (some rows) c = (todo_patch-IsFrame rows c.0, tt)

  initial_todos-IsFrame :
      (r : Result (List TodoView)) → AreFrames (initial_todos event_item group_id user role r)
  unfolding AreFrames
  initial_todos-IsFrame (ok rows) c = (todo_patch-IsFrame rows c.0, tt)
  initial_todos-IsFrame (err e) c = tt

  both-AreFrames : (ps qs : List Patch) → AreFrames ps → AreFrames qs → AreFrames (ps ++ qs)
  unfolding AreFrames
  both-AreFrames ps qs h k c =
      let x = parts HasNoReturn ps qs c in All-append IsFrame ps qs (h x.0) (k x.1)

  initial-IsFrame :
      (r : Result (List TodoView)) → AreFrames (initial_patches event_item group_id user role r)
  unfolding initial_patches send_fragment lacks AreFrames
  initial-IsFrame r c = (
    send_patch-IsFrame _ (literal-IsLine "#todos" refl) (literal-IsLine "outer" refl) c.0,
    (
      send_patch-IsFrame _ (literal-IsLine "#events" refl) (literal-IsLine "outer" refl) c.1.0,
      both-AreFrames _ _ (fragment-IsFrame _) (initial_todos-IsFrame r) c.1.1,
    ),
  )

-- Where the id of the group has no CR and no LF, and no content has a CR: a client reads everything that is sent on a
-- stream, first and for each message, as one event of four lines, in which the content has lost its newlines, and an empty
-- line, whatever else the users have written.
pub patches-IsFrame :
    (event_item : String → String → Option String) (group_id user role : String)
    (r : Result (List TodoView)) (msg : GroupStreamMessage)
    → lacks 10 group_id ≡ true
    → lacks 13 group_id ≡ true
    → All HasNoReturn (initial_patches event_item group_id user role r)
    → All HasNoReturn (message_patches event_item group_id user role msg)
    → All IsFrame (initial_patches event_item group_id user role r)
      × All IsFrame (message_patches event_item group_id user role msg)
unfolding message_patches AreFrames
patches-IsFrame event_item group_id user role r msg h k initial message =
    let line : IsLine group_id = record { no_newline = h; no_return = k } in
    (
      initial-IsFrame event_item group_id user role line r initial,
      both-AreFrames event_item group_id user role line _ _
          (event_part-IsFrame event_item group_id user role line msg.event)
          (todos_part-IsFrame event_item group_id user role line msg.todos) message,
    )
