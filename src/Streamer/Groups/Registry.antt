-- ===== src/Streamer/Groups/Registry.antt =====
-- `groupStreamRegistry` of cmd/sse-streamer/main.go, one call after the other. A stream has an address, at which it
-- stays; JetStream gives numbers to its subscriptions, and the head of `faults` says whether the next one fails.
pub mod Leaving
pub mod Routed
pub mod Served
pub mod Calls
pub mod Shared
use todo_1m.Prelude.{
  ℕ, suc, ◌+◌, ◌≡◌, refl, sym, ap, ◌∙◌, String, Bool, true, false, not, List, [], ◌∷◌, Option, none,
  some, length, find, any, select, eqb, if◌then◌else◌, ◌==◌, eq_refl, eq_iff, arith, Bool-cases,
  inl, inr,
}
use todo_1m.Errors.{Result, ok, err, stream_failed}
use todo_1m.Streamer.Groups.{
  Subscriber, GroupStream, new_stream, drawn, sub_id, enrol, forget, Removal, stop_if_empty,
  remove_subscriber, store_subscription, subscriber_count, has_id, without,
}
use todo_1m.Streamer.Groups.Steps.{at}

-- An entry of `byGroup`.
pub record Entry : Type 0 where
  pub group_id : String
  pub stream : ℕ

pub record GroupStreamRegistry : Type 0 where
  pub by_group : List Entry
  pub streams : ℕ → GroupStream
  -- how many streams and subscriptions there have been
  pub made : ℕ
  pub handles : ℕ
  pub subscriptions : List ℕ
  pub faults : List Bool

-- `newGroupStreamRegistry`
abbrev pub new_registry : List Bool → GroupStreamRegistry
new_registry faults = record {
  by_group = [];
  streams = λ n. new_stream "";
  made = 0;
  handles = 0;
  subscriptions = [];
  faults = faults;
}

abbrev pub is_group : String → Entry → Bool
is_group group_id e = e.group_id == group_id

-- What `Subscribe` hands out: the channel by its id, and what its function `unsubscribe` remembers.
pub record Lease : Type 0 where
  pub group_id : String
  pub stream : ℕ
  pub sub_id : String

abbrev pub place : String → GroupStreamRegistry → Option Entry → ℕ × GroupStreamRegistry
place group_id r (some e) = (e.stream, r)
place group_id r none = (
  r.made,
  record r {
    by_group = record { group_id = group_id; stream = r.made } ∷ r.by_group;
    streams = at r.streams r.made (new_stream group_id);
    made = suc r.made;
  },
)

abbrev pub with_stream : ℕ → GroupStream → GroupStreamRegistry → GroupStreamRegistry
with_stream n s r = record r { streams = at r.streams n s }

-- js.Subscribe
abbrev pub js_subscribe : List Bool → GroupStreamRegistry → Option ℕ × GroupStreamRegistry
js_subscribe (true ∷ faults) r = (none, record r { faults = faults })
js_subscribe (false ∷ faults) r = (
  some r.handles,
  record r {
    faults = faults;
    handles = suc r.handles;
    subscriptions = r.handles ∷ r.subscriptions;
  },
)
js_subscribe [] r = (
  some r.handles,
  record r { handles = suc r.handles; subscriptions = r.handles ∷ r.subscriptions },
)

abbrev pub lease_of : ℕ → GroupStream → Lease
lease_of n s = record { group_id = s.group_id; stream = n; sub_id = sub_id s.group_id s.next_id }

-- `addSubscriber`, with the stream in which the subscriber is listed.
abbrev pub opened :
    ℕ → GroupStream → Option ℕ × GroupStreamRegistry → Result Lease × GroupStreamRegistry
opened n s (some handle, r) = (ok (lease_of n s), with_stream n (store_subscription handle s).1 r)
opened n s (none, r) = (err stream_failed, with_stream n (forget (sub_id s.group_id s.next_id) s) r)

abbrev pub ensured :
    ℕ → GroupStream → Option ℕ → GroupStreamRegistry → Result Lease × GroupStreamRegistry
ensured n s (some handle) r = (ok (lease_of n s), with_stream n s r)
ensured n s none r = opened n s (js_subscribe r.faults r)

abbrev pub add_subscriber : ℕ × GroupStreamRegistry → Result Lease × GroupStreamRegistry
add_subscriber (n, r) = let s = enrol (r.streams n) in ensured n s s.sub r

-- `Subscribe`
unfoldable pub subscribe : String → GroupStreamRegistry → Result Lease × GroupStreamRegistry
unfolding enrol forget store_subscription
subscribe group_id r = add_subscriber (place group_id r (find (is_group group_id) r.by_group))

abbrev pub end_subscription : Option ℕ → List ℕ → List ℕ
end_subscription none hs = hs
end_subscription (some h) hs = select (λ k. not (eqb k h)) hs

abbrev pub is_current : Lease → Entry → Bool
is_current l e = if e.group_id == l.group_id then eqb e.stream l.stream else false

abbrev pub removed : Lease → Removal → GroupStreamRegistry → GroupStreamRegistry
removed l m r =
    let r' = record r {
      streams = at r.streams l.stream m.stream;
      subscriptions = end_subscription m.ended r.subscriptions;
    } in
    if m.empty then record r' { by_group = select (λ e. not (is_current l e)) r.by_group } else r'

-- The function that `Subscribe` returns: the entry goes with the last subscriber, if it still names this stream.
unfoldable pub unsubscribe : Lease → GroupStreamRegistry → GroupStreamRegistry
unfolding remove_subscriber
unsubscribe l r = removed l (remove_subscriber l.sub_id (r.streams l.stream)) r

-- `CountGroups`
unfoldable pub count_groups : GroupStreamRegistry → ℕ
count_groups r = length r.by_group

abbrev pub subscribers_of : (ℕ → GroupStream) → List Entry → ℕ
subscribers_of streams [] = 0
subscribers_of streams (e ∷ es) = subscriber_count (streams e.stream) + subscribers_of streams es

-- `CountSubscribers`
unfoldable pub count_subscribers : GroupStreamRegistry → ℕ
unfolding subscriber_count
count_subscribers r = subscribers_of r.streams r.by_group
