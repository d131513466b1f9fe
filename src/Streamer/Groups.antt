-- ===== src/Streamer/Groups.antt =====
-- `groupStream` of cmd/sse-streamer/main.go: the subscribers of one group, who share one subscription of JetStream. Each
-- function is what a method does under the lock of the stream. A channel is the queue of its messages, a subscription
-- is a number, and a timer is whether there is one.
pub mod Steps
pub mod Sharing
pub mod Orphan
pub mod Snapshots
pub mod Registry
use Prim.Native.String
use todo_1m.Prelude.{
  ℕ, ◌+◌, ◌%◌, ◌^◌, String, Bool, true, false, not, List, [], ◌∷◌, ◌++◌, Option, none, some, length,
  select, ltb, if◌then◌else◌, ◌==◌, itoa, map,
}
use todo_1m.Contracts.{TodoEvent}
use todo_1m.ReadModel.{TodoView}

pub record GroupStreamMessage : Type 0 where
  pub event : Option TodoEvent
  pub seq : ℕ
  pub todos : Option (List TodoView)

pub record Subscriber : Type 0 where
  pub id : String
  pub queue : List GroupStreamMessage

pub record GroupStream : Type 0 where
  pub group_id : String
  pub sub : Option ℕ
  pub subscribers : List Subscriber
  pub next_id : ℕ
  pub pending_seq : ℕ
  pub refresh_timer : Bool

-- The stream that `Subscribe` makes.
abbrev pub new_stream : String → GroupStream
new_stream group_id = record {
  group_id = group_id;
  sub = none;
  subscribers = [];
  next_id = 0;
  pending_seq = 0;
  refresh_timer = false;
}

abbrev pub has_id : String → Subscriber → Bool
has_id id x = id == x.id

abbrev pub without : String → List Subscriber → List Subscriber
without id xs = select (λ x. not (has_id id x)) xs

-- `s.nextID++`, of a uint64.
abbrev pub drawn : GroupStream → ℕ
drawn s = (s.next_id + 1) % 2 ^ 64

-- fmt.Sprintf("%s-%d", s.groupID, s.nextID)
unfoldable pub sub_id : String → ℕ → String
sub_id group_id n = String.◌++◌ group_id (String.◌++◌ "-" (itoa n))

-- The first half of `addSubscriber`.
unfoldable pub enrol : GroupStream → GroupStream
enrol s =
    let id = sub_id s.group_id (drawn s) in
    let fresh : Subscriber = record { id = id; queue = [] } in
    record s { next_id = drawn s; subscribers = fresh ∷ without id s.subscribers }

-- `addSubscriber` where `ensureSubscription` has failed.
unfoldable pub forget : String → GroupStream → GroupStream
forget id s = record s { subscribers = without id s.subscribers }

-- What `removeSubscriber` returns, and the subscription that it ends afterwards.
pub record Removal : Type 0 where
  pub empty : Bool
  pub ended : Option ℕ
  pub stream : GroupStream

abbrev pub stop_if_empty : List Subscriber → GroupStream → Removal
stop_if_empty [] s = record {
  empty = true;
  ended = s.sub;
  stream = record s { subscribers = []; sub = none; refresh_timer = false; pending_seq = 0 };
}
stop_if_empty (x ∷ xs) s = record {
  empty = false;
  ended = none;
  stream = record s { subscribers = x ∷ xs };
}

unfoldable pub remove_subscriber : String → GroupStream → Removal
remove_subscriber id s = stop_if_empty (without id s.subscribers) s

-- The end of `ensureSubscription`: a subscription that came second is ended.
abbrev pub settle : Option ℕ → ℕ → GroupStream → Option ℕ × GroupStream
settle none handle s = (none, record s { sub = some handle })
settle (some other) handle s = (some handle, s)

unfoldable pub store_subscription : ℕ → GroupStream → Option ℕ × GroupStream
store_subscription handle s = settle s.sub handle s

-- make(chan groupStreamMessage, 64)
abbrev pub channel_size : ℕ
channel_size = 64

-- A message that finds the channel full is dropped.
unfoldable pub offer : GroupStreamMessage → Subscriber → Subscriber
offer msg x =
    if ltb (length x.queue) channel_size then record x { queue = x.queue ++ (msg ∷ []) } else x

unfoldable pub broadcast : GroupStreamMessage → GroupStream → GroupStream
unfolding offer
broadcast msg s = record s { subscribers = map (offer msg) s.subscribers }

-- `scheduleSnapshot`: the timer is started, or started again.
unfoldable pub schedule_snapshot : ℕ → GroupStream → GroupStream
schedule_snapshot seq s = record s {
  pending_seq = if ltb s.pending_seq seq then seq else s.pending_seq;
  refresh_timer = true;
}

-- The first half of `runSnapshotRefresh`: the sequence to wait for, where there are subscribers.
abbrev pub if_any : List Subscriber → ℕ → Option ℕ
if_any [] target = none
if_any (x ∷ xs) target = some target

unfoldable pub take_snapshot : GroupStream → Option ℕ × GroupStream
take_snapshot s =
    (if_any s.subscribers s.pending_seq, record s { pending_seq = 0; refresh_timer = false })

unfoldable pub subscriber_count : GroupStream → ℕ
subscriber_count s = length s.subscribers
