-- ===== src/Streamer/Groups/Sharing/Kept.antt =====
-- The reachable states of a `groupStream` of cmd/sse-streamer/main.go.
use todo_1m.Prelude.{
  ℕ, ◌≡◌, refl, ◌⊎◌, inl, inr, String, Bool, true, false, Option, none, some, any,
}
use todo_1m.Streamer.Groups.{has_id, sub_id, schedule_snapshot, take_snapshot}
use todo_1m.Streamer.Groups.Steps.{
  holding, joined, Handle, unopened, opened_by, stored, to_end, ended, State, Step, enrols, finds,
  misses, opens, fails, stores, forgets, leaves, ends, sends, schedules, fires, Reachable, start,
  next,
}
use todo_1m.Streamer.Groups.Sharing.{IsShared}
use todo_1m.Streamer.Groups.Sharing.Joining.{
  initial-IsShared, finds-IsShared, misses-IsShared, opens-IsShared, fails-IsShared,
  enrols-IsShared, stores-IsShared,
}
use todo_1m.Streamer.Groups.Sharing.Leaving.{
  forgets-IsShared, leaves-IsShared, ends-IsShared, sends-IsShared,
}

Step-IsShared : {s t : State} → Step s t → IsShared s → IsShared t
unfolding schedule_snapshot take_snapshot
Step-IsShared (enrols s e) v = enrols-IsShared s e v
Step-IsShared (finds n s e there) v = finds-IsShared n s e there v
Step-IsShared (misses n s e there) v = misses-IsShared n s e v
Step-IsShared (opens n h s e new) v = opens-IsShared n h s e new v
Step-IsShared (fails n s e) v = fails-IsShared n s e v
Step-IsShared (stores n h s e) v = stores-IsShared n h s e v
Step-IsShared (forgets n s e) v = forgets-IsShared n s e v
Step-IsShared (leaves n s e) v = leaves-IsShared n s e v
Step-IsShared (ends h s e) v = ends-IsShared h s e v
Step-IsShared (sends msg s) v = sends-IsShared msg s v
Step-IsShared (schedules seq s) v = record {
  own = v.own;
  owned = v.owned;
  held = v.held;
  held_by = v.held_by;
  present = v.present;
  subscribed = v.subscribed;
}
Step-IsShared (fires s) v = record {
  own = v.own;
  owned = v.owned;
  held = v.held;
  held_by = v.held_by;
  present = v.present;
  subscribed = v.subscribed;
}

pub Reachable-IsShared : (group : String) (s : State) → Reachable group s → IsShared s
Reachable-IsShared group _ start = initial-IsShared group
Reachable-IsShared group _ (next {s} {t} r step) = Step-IsShared step (Reachable-IsShared group s r)

-- What a subscriber who has joined can rely on.
pub record IsServed (s : State) (n : ℕ) : Type 0 where
  pub handle : ℕ
  pub sub : s.stream.sub ≡ some handle
  pub open_handle : s.handle handle ≡ stored
  pub listed : any (has_id (sub_id s.stream.group_id n)) s.stream.subscribers ≡ true

joined-IsServed :
    (group : String) (s : State) (n : ℕ) → Reachable group s → s.phase n ≡ joined → IsServed s n
joined-IsServed group s n r e = go s.stream.sub refl
  where
    v : IsShared s
    v = Reachable-IsShared group s r

    go : (o : Option ℕ) → s.stream.sub ≡ o → IsServed s n
    go none q = absurd (v.subscribed n e q)
    go (some h) q = record {
      handle = h;
      sub = q;
      open_handle = v.own h q;
      listed = v.present n (λ k. absurd (cc));
    }

abbrev pub is_open : Handle → Bool
is_open (opened_by n) = true
is_open stored = true
is_open to_end = true
is_open _ = false

open_handle_owned :
    (group : String) (s : State) (h : ℕ)
    → Reachable group s
    → is_open (s.handle h) ≡ true
    → (s.stream.sub ≡ some h) ⊎ ((n : ℕ) × (s.phase n ≡ holding h)) ⊎ (s.handle h ≡ to_end)
open_handle_owned group s h r k = go (s.handle h) refl k
  where
    v : IsShared s
    v = Reachable-IsShared group s r

    go :
        (x : Handle)
        → s.handle h ≡ x
        → is_open x ≡ true
        → (s.stream.sub ≡ some h) ⊎ ((n : ℕ) × (s.phase n ≡ holding h)) ⊎ (s.handle h ≡ to_end)
    go unopened q k = absurd (cc)
    go (opened_by n) q k = inr (inl (n, v.held_by n h q))
    go stored q k = inl (v.owned h q)
    go to_end q k = inr (inr q)
    go ended q k = absurd (cc)

-- In every reachable state, whoever has joined is among the subscribers of a stream that has a subscription of
-- JetStream, and that subscription is open. An open subscription is the one of the stream, is held by the subscriber
-- who has just made it, or is about to be ended.
pub subscription_shared :
    (group : String) (s : State)
    → Reachable group s
    → ((n : ℕ) → s.phase n ≡ joined → IsServed s n)
      × ((h : ℕ)
          → is_open (s.handle h) ≡ true
          → (s.stream.sub ≡ some h) ⊎ ((n : ℕ) × (s.phase n ≡ holding h)) ⊎ (s.handle h ≡ to_end))
subscription_shared group s r =
    (λ n e. joined-IsServed group s n r e, λ h e. open_handle_owned group s h r e)
