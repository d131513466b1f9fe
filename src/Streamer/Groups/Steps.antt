-- ===== src/Streamer/Groups/Steps.antt =====
-- The goroutines of cmd/sse-streamer/main.go on one `groupStream`, in any interleaving. A step is what one of them does
-- under the lock of the stream, or one call of JetStream.
use todo_1m.Prelude.{ℕ, ◌≡◌, ◌≢◌, String, Option, none, some, if◌then◌else◌, eqb}
use todo_1m.Streamer.Groups.{
  GroupStreamMessage, GroupStream, new_stream, drawn, sub_id, enrol, forget, remove_subscriber,
  store_subscription, broadcast, schedule_snapshot, take_snapshot,
}

-- Where the subscriber is to whom a number of the stream was given.
pub data Phase : Type 0 where
  -- no subscriber now
  absent : Phase
  -- before the first lock of `ensureSubscription`
  enrolled : Phase
  -- about to call JetStream
  opening : Phase
  -- JetStream has made a subscription
  holding : ℕ → Phase
  -- JetStream has failed
  failing : Phase
  -- `Subscribe` has returned a channel
  joined : Phase

-- How far a subscription of JetStream is.
pub data Handle : Type 0 where
  unopened : Handle
  opened_by : ℕ → Handle
  stored : Handle
  to_end : Handle
  ended : Handle

pub record State : Type 0 where
  pub stream : GroupStream
  pub phase : ℕ → Phase
  pub handle : ℕ → Handle

abbrev pub at {ℓ} : {A : Type ℓ} → (ℕ → A) → ℕ → A → ℕ → A
at f i a j = if eqb i j then a else f j

-- A subscription that a method hands out to be ended.
abbrev pub to_be_ended : Option ℕ → (ℕ → Handle) → ℕ → Handle
to_be_ended none f = f
to_be_ended (some h) f = at f h to_end

unfoldable pub enrols_at : State → State
enrols_at s = record s { stream = enrol s.stream; phase = at s.phase (drawn s.stream) enrolled }

-- The subscription is stored; another one that stands there already makes it the one to be ended.
unfoldable pub stores_at : ℕ → ℕ → State → State
stores_at n h s =
    let (late, stream) = store_subscription h s.stream in
    record s {
      stream = stream;
      phase = at s.phase n joined;
      handle = to_be_ended late (at s.handle h stored);
    }

unfoldable pub leaves_at : ℕ → State → State
leaves_at n s =
    let r = remove_subscriber (sub_id s.stream.group_id n) s.stream in
    record s {
      stream = r.stream;
      phase = at s.phase n absent;
      handle = to_be_ended r.ended s.handle;
    }

-- No subscriber gets the number of another that is still there: the counter has 64 bits.
pub data Step : State → State → Type 0 where
  enrols : (s : State) → s.phase (drawn s.stream) ≡ absent → Step s (enrols_at s)
  finds :
      (n : ℕ) (s : State)
      → s.phase n ≡ enrolled
      → s.stream.sub ≢ none
      → Step s (record s { phase = at s.phase n joined })
  misses :
      (n : ℕ) (s : State)
      → s.phase n ≡ enrolled
      → s.stream.sub ≡ none
      → Step s (record s { phase = at s.phase n opening })
  opens :
      (n h : ℕ) (s : State)
      → s.phase n ≡ opening
      → s.handle h ≡ unopened
      → Step s (record s { phase = at s.phase n (holding h); handle = at s.handle h (opened_by n) })
  fails :
      (n : ℕ) (s : State) → s.phase n ≡ opening → Step s (record s { phase = at s.phase n failing })
  stores : (n h : ℕ) (s : State) → s.phase n ≡ holding h → Step s (stores_at n h s)
  forgets :
      (n : ℕ) (s : State)
      → s.phase n ≡ failing
      → Step s (record s {
        stream = forget (sub_id s.stream.group_id n) s.stream;
        phase = at s.phase n absent;
      })
  leaves : (n : ℕ) (s : State) → s.phase n ≡ joined → Step s (leaves_at n s)
  ends :
      (h : ℕ) (s : State) → s.handle h ≡ to_end → Step s (record s { handle = at s.handle h ended })
  sends :
      (msg : GroupStreamMessage) (s : State) → Step s (record s { stream = broadcast msg s.stream })
  schedules : (seq : ℕ) (s : State) → Step s (record s { stream = schedule_snapshot seq s.stream })
  fires : (s : State) → Step s (record s { stream = (take_snapshot s.stream).1 })

abbrev pub initial : String → State
initial group_id = record {
  stream = new_stream group_id;
  phase = λ n. absent;
  handle = λ h. unopened;
}

pub data Reachable (group_id : String) : State → Type 0 where
  start : Reachable group_id (initial group_id)
  next : {s t : State} → Reachable group_id s → Step s t → Reachable group_id t
