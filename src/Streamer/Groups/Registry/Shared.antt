-- ===== src/Streamer/Groups/Registry/Shared.antt =====
-- Which stream of groupStreamRegistry in cmd/sse-streamer/main.go the subscribers of a group share.
use todo_1m.Prelude.{ℕ, ◌≡◌, ◌⊎◌, String, false, List, [], ◌∷◌, Option, find, eqb}
use todo_1m.Errors.{Result, ok}
use todo_1m.Streamer.Groups.{remove_subscriber}
use todo_1m.Streamer.Groups.Registry.{
  Entry, GroupStreamRegistry, is_group, Lease, subscribe, unsubscribe,
}
use todo_1m.Streamer.Groups.Registry.Calls.{Call, subscribes, unsubscribes}

-- What `byGroup` has for a group.
abbrev lookup : String → GroupStreamRegistry → Option Entry
lookup group_id r = find (is_group group_id) r.by_group

-- A subscription leaves `byGroup` as it is, and its lease names the stream.
record Enters (n : ℕ) (r : GroupStreamRegistry) (x : Result Lease × GroupStreamRegistry)
    : Type 0 where
  pub same : x.1.by_group ≡ r.by_group
  pub names : (l : Lease) → x.0 ≡ ok l → l.stream ≡ n

-- A call of a function that `Subscribe` has returned does not take the last subscriber out of a stream.
abbrev pub Spares : ℕ → Lease → GroupStreamRegistry → Type 0
Spares n l r =
    (eqb l.stream n ≡ false) ⊎ ((remove_subscriber l.sub_id (r.streams l.stream)).empty ≡ false)

-- None of the calls takes the last subscriber out of a stream.
unfoldable pub AllSpare : ℕ → List Call → GroupStreamRegistry → Type 0
AllSpare n [] r = Unit {0}
AllSpare n (subscribes group_id ∷ calls) r = AllSpare n calls (subscribe group_id r).1
AllSpare n (unsubscribes l ∷ calls) r = Spares n l r × AllSpare n calls (unsubscribe l r)
