-- ===== src/Streamer/Groups/Registry/Routed.antt =====
-- To which stream `groupStreamRegistry` of cmd/sse-streamer/main.go sends the subscribers of a group.
use todo_1m.Prelude.{
  ℕ, ◌<◌, ◌≤◌, ◌≡◌, refl, sym, ap, ◌∙◌, String, false, List, [], ◌∷◌, some, find, any, eqb, eqb_iff,
  ◌==◌, eq_iff, arith, Bool-cases, inl, inr,
}
use todo_1m.Streamer.Groups.{GroupStream}
use todo_1m.Streamer.Groups.Steps.{at}
use todo_1m.Streamer.Groups.Registry.{Entry, GroupStreamRegistry, is_group, with_stream}

-- Every entry names a stream that has been made, and one of its own group; a group has one entry.
unfoldable pub AreRouted : ℕ → (ℕ → GroupStream) → List Entry → Type 0
AreRouted made streams [] = Unit {0}
AreRouted made streams (e ∷ es) =
    (e.stream < made)
    × ((streams e.stream).group_id ≡ e.group_id)
    × (any (is_group e.group_id) es ≡ false)
    × AreRouted made streams es

pub record IsRouted (r : GroupStreamRegistry) : Type 0 where
  pub entries : AreRouted r.made r.streams r.by_group

-- Streams that keep their groups.
pub kept :
    (made more : ℕ) (before after : ℕ → GroupStream) (es : List Entry)
    → made ≤ more
    → ((k : ℕ) → k < made → (after k).group_id ≡ (before k).group_id)
    → AreRouted made before es
    → AreRouted more after es
unfolding AreRouted
kept made more before after [] up same h = tt
kept made more before after (e ∷ es) up same h = (
  wider e.stream made more h.0 up,
  same e.stream h.0 ∙ h.1,
  h.2,
  kept made more before after es up same h.3,
)
  where
    wider : (k made more : ℕ) → k < made → made ≤ more → k < more
    wider k made more a b = omega arith

pub found :
    (made : ℕ) (streams : ℕ → GroupStream) (group_id : String) (es : List Entry) (e : Entry)
    → AreRouted made streams es
    → find (is_group group_id) es ≡ some e
    → (e.stream < made) × ((streams e.stream).group_id ≡ group_id)
unfolding AreRouted find
found made streams group_id [] e h f = absurd (cc)
found made streams group_id (x ∷ es) e h f = elim (Bool-cases (x.group_id == group_id)) [
  | inl own ↦ hit (rw own at f) ((eq_iff x.group_id group_id).0 own)
  | inr other ↦ found made streams group_id es e h.3 (rw other at f)
]
  where
    hit :
        some x ≡ some e
        → x.group_id ≡ group_id
        → (e.stream < made) × ((streams e.stream).group_id ≡ group_id)
    hit f own = let same : x ≡ e = cc in rw (sym same) (h.0, h.1 ∙ own)

pub updated :
    (streams : ℕ → GroupStream) (n : ℕ) (s : GroupStream)
    → s.group_id ≡ (streams n).group_id
    → (k : ℕ) → (at streams n s k).group_id ≡ (streams k).group_id
updated streams n s h k = elim (Bool-cases (eqb n k)) [
  | inl own ↦ rw own (h ∙ ap (λ j. (streams j).group_id) ((eqb_iff n k).0 own))
  | inr other ↦ rw other refl
]

pub with_stream-IsRouted :
    (n : ℕ) (s : GroupStream) (r : GroupStreamRegistry)
    → s.group_id ≡ (r.streams n).group_id
    → IsRouted r
    → IsRouted (with_stream n s r)
with_stream-IsRouted n s r h k = record {
  entries =
      kept r.made r.made r.streams _ r.by_group (omega arith) (λ j below. updated r.streams n s h j)
        k.entries;
}
