-- ===== src/DataSink/Offsets.antt =====
-- The offset of each group, which upsertGroupProjectionOffsetSQL of internal/app/datasink/repository.go
-- keeps.
use todo_1m.Prelude.{
  ℕ, ◌≡◌, refl, ◌∙◌, ap, subst, String, true, false, List, [], ◌∷◌, Option, none, some, ℤ, greatest,
  to_int64, find, any, update_where, if◌then◌else◌, ◌==◌, eq_iff, eq_refl, arith, Bool-cases, inl,
  inr, All,
}
use todo_1m.Contracts.{TodoEvent}
use todo_1m.ReadModel.{ReadModel, Offset}
use todo_1m.DataSink.{of_group, raise_offset}
use todo_1m.DataSink.Projection.{offsets_after, project}
use todo_1m.DataSink.History.{Delivery, IsClean, deliver, deliver-clean, consume}

abbrev seq_of : Option Offset → Option ℤ
seq_of none = none
seq_of (some o) = some o.last_event_seq

-- The offset of a group, if it has one.
unfoldable pub mark : String → ReadModel → Option ℤ
mark group m = seq_of (find (of_group group) m.offsets)

abbrev pub raise : ℤ → Option ℤ → Option ℤ
raise seq none = some seq
raise seq (some o) = some (greatest o seq)

-- The greatest sequence among the deliveries of a group, from an offset on.
unfoldable pub highest : String → List Delivery → Option ℤ → Option ℤ
highest group [] o = o
highest group (d ∷ ds) o =
    highest group ds (if d.event.group_id == group then raise (to_int64 d.seq) o else o)

find-raised :
    (group other : String) (seq : ℤ) (at : ℕ) (os : List Offset)
    → (group == other) ≡ false
    → find (of_group other) (update_where (of_group group) (raise_offset seq at) os)
      ≡ find (of_group other) os
unfolding find update_where
find-raised group other seq at [] h = refl
find-raised group other seq at (o ∷ os) h = ground (
  arith,
  eq_iff o.group_id group,
  eq_iff o.group_id other,
  eq_iff group other,
  find-raised group other seq at os h,
)

find-own :
    (group : String) (seq : ℤ) (at : ℕ) (os : List Offset)
    → any (of_group group) os ≡ true
    → seq_of (find (of_group group) (update_where (of_group group) (raise_offset seq at) os))
      ≡ raise seq (seq_of (find (of_group group) os))
unfolding find any update_where
find-own group seq at [] h = ground (arith, h)
find-own group seq at (o ∷ os) h = ground (arith, h, find-own group seq at os)

find-missing :
    (group : String) (os : List Offset)
    → any (of_group group) os ≡ false
    → find (of_group group) os ≡ none
unfolding find any
find-missing group [] h = refl
find-missing group (o ∷ os) h = ground (arith, h, find-missing group os)

mark-own :
    (e : TodoEvent) (seq : ℤ) (at : ℕ) (os : List Offset)
    → seq_of (find (of_group e.group_id) (offsets_after e seq at os))
      ≡ raise seq (seq_of (find (of_group e.group_id) os))
unfolding offsets_after find
mark-own e seq at os = elim (Bool-cases (any (of_group e.group_id) os)) [
  | inl there ↦ rw there (find-own e.group_id seq at os there)
  | inr missing ↦ rw (missing, find-missing e.group_id os missing, eq_refl e.group_id) refl
]

mark-other :
    (e : TodoEvent) (group : String) (seq : ℤ) (at : ℕ) (os : List Offset)
    → (e.group_id == group) ≡ false
    → find (of_group group) (offsets_after e seq at os) ≡ find (of_group group) os
unfolding offsets_after find
mark-other e group seq at os h = elim (Bool-cases (any (of_group e.group_id) os)) [
  | inl there ↦ rw there (find-raised e.group_id group seq at os h)
  | inr missing ↦ rw (missing, h) refl
]

mark-project :
    (group : String) (e : TodoEvent) (seq at : ℕ) (m : ReadModel)
    → mark group (project e seq at m)
      ≡ (if e.group_id == group then raise (to_int64 seq) (mark group m) else mark group m)
unfolding mark project
mark-project group e seq at m = elim (Bool-cases (e.group_id == group)) [
  | inl own ↦ rw own (
      subst
        (λ g.
          seq_of (find (of_group g) (offsets_after e (to_int64 seq) at m.offsets))
          ≡ raise (to_int64 seq) (seq_of (find (of_group g) m.offsets)))
        ((eq_iff e.group_id group).0 own) (mark-own e (to_int64 seq) at m.offsets))
  | inr other ↦ rw (other, mark-other e group (to_int64 seq) at m.offsets other) refl
]

-- Where every event is of a known type, its shard is an integer of Postgres, and the database answers, the offset of each group is the
-- greatest of the offset that it started from and the sequences, as int64, of its events that
-- were delivered.
pub offset_is_highest :
    (group : String) (ds : List Delivery) (m : ReadModel)
    → All IsClean ds
    → mark group (consume ds m) ≡ highest group ds (mark group m)
unfolding consume highest
offset_is_highest group [] m h = refl
offset_is_highest group (d ∷ ds) m h =
    offset_is_highest group ds (deliver d m) h.1
    ∙ ap (highest group ds)
        (ap (mark group) (deliver-clean d m h.0) ∙ mark-project group d.event d.seq d.at m)
