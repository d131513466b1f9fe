-- ===== src/Tests/Groups.antt =====
-- The theorems on the streams of groups at concrete inputs.
use todo_1m.Prelude.{
  String, true, ℕ, suc, ◌+◌, ◌*◌, ◌≤◌, ◌≡◌, ◌≢◌, refl, ◌⊎◌, false, [], ◌∷◌, none, some, pos, find,
  arith,
}
use todo_1m.Prelude.{List, select, itoa}
use todo_1m.DataSink.{World}
use todo_1m.Query.Waiting.{Turn, millisecond}
use todo_1m.Streamer.Groups.{
  GroupStreamMessage, Subscriber, GroupStream, new_stream, subscriber_count, enrol, forget,
  store_subscription, sub_id, remove_subscriber,
}
use todo_1m.Streamer.Groups.Registry.{
  GroupStreamRegistry, Lease, new_registry, subscribe, unsubscribe, count_groups, count_subscribers,
}
use todo_1m.Streamer.Groups.Registry.Calls.{Call, subscribes, unsubscribes, run_calls}
use todo_1m.Streamer.Groups.Steps.{State, holding, joined, to_end}
use todo_1m.Streamer.Groups.Sharing.Kept.{IsServed, is_open, subscription_shared}
use todo_1m.Streamer.Groups.Orphan.{IsAbandoned, served, served-Reachable, IsAbandoned-Reachable}
use todo_1m.Streamer.Groups.Steps.{Reachable}
use todo_1m.Streamer.Groups.Snapshots.{delay_after, delay_after-bounded, run_snapshot_refresh}
use todo_1m.Streamer.Groups.Snapshots.Fresh.{run_snapshot_refresh-returns}
use todo_1m.Tests.Data.{model}

abbrev hello : GroupStreamMessage
hello = record { event = none; seq = 1; todos = none }

abbrev listener : Subscriber
listener = record { id = "g1-1"; queue = hello ∷ [] }

abbrev stream : GroupStream
stream = record (new_stream "g1") { subscribers = listener ∷ []; pending_seq = 3 }

subscription_shared_example :
    ((n : ℕ) → (served "g1").phase n ≡ joined → IsServed (served "g1") n)
    × ((h : ℕ)
        → is_open ((served "g1").handle h) ≡ true
        → ((served "g1").stream.sub ≡ some h)
          ⊎ ((n : ℕ) × ((served "g1").phase n ≡ holding h))
          ⊎ ((served "g1").handle h ≡ to_end))
subscription_shared_example = subscription_shared "g1" (served "g1") (served-Reachable "g1")

IsAbandoned-Reachable_example : (s : State) × Reachable "g1" s × IsAbandoned s
IsAbandoned-Reachable_example = IsAbandoned-Reachable "g1"

-- A read model that has caught up, at turns that are 320 ms apart.
abbrev caught_up : World
caught_up = record {
  tables = record model {
    offsets = record { group_id = "g1"; last_event_seq = pos 4; updated_at = 0 } ∷ [];
  };
  faults = [];
  ids = 0;
  now = 0;
}

abbrev turn : ℕ → Turn
turn n = record { world = record caught_up { now = 320 * millisecond * n }; done = false }

ticks : (n d : ℕ) → d ≤ 320 * millisecond → 320 * millisecond * n + d ≤ 320 * millisecond * suc n
ticks n d h = omega arith

abbrev settled : ℕ → World
settled n = (turn n).world

run_snapshot_refresh-returns_example : (run_snapshot_refresh stream turn settled 64 0).0 ≢ none
run_snapshot_refresh-returns_example =
    run_snapshot_refresh-returns turn 0 stream settled
      (λ k. ticks k (delay_after k) (delay_after-bounded k).1) (omega arith)

-- The first stream of the group has been left, and is left once more while the second one is used.
abbrev left : Lease
left = record { group_id = "g1"; stream = 0; sub_id = "g1-1" }

abbrev before_first : List Call
before_first = subscribes "g1" ∷ unsubscribes left ∷ []

abbrev between : List Call
between = unsubscribes left ∷ subscribes "g2" ∷ subscribes "g2" ∷ []

abbrev second_stream : String → Lease
second_stream sub_id = record { group_id = "g1"; stream = 1; sub_id = sub_id }

abbrev registry : GroupStreamRegistry
registry = run_calls before_first (new_registry (false ∷ false ∷ true ∷ []))

two_subscribers :
    (count_groups (run_calls between (subscribe "g1" registry).1) ≡ 2)
    × (count_subscribers (run_calls between (subscribe "g1" registry).1) ≡ 2)
unfolding run_calls subscribe unsubscribe remove_subscriber count_groups count_subscribers
    subscriber_count enrol forget store_subscription sub_id itoa find select
two_subscribers = (refl, refl)
