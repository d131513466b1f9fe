-- ===== src/Streamer/Users.antt =====
-- `userStreamRegistry` of cmd/sse-streamer/main.go. The id of a lease stands for its cancel
-- function. Around the registry stand the streams that run, and the cancellations that `Replace` has handed out and the
-- handler of /events has not called yet.
pub mod Accounted
pub mod Single
use todo_1m.Prelude.{
  ℕ, String, Bool, true, false, not, ◌&&◌, List, [], ◌∷◌, Option, none, some, ◌≡◌, length, find,
  any, select, update_where, if◌then◌else◌, ◌==◌,
}

pub record UserStreamLease : Type 0 where
  pub user_id : String
  pub id : String

abbrev pub of_user : String → UserStreamLease → Bool
of_user user_id l = l.user_id == user_id

abbrev pub same_lease : UserStreamLease → UserStreamLease → Bool
same_lease a b = (a.user_id == b.user_id) && (a.id == b.id)

-- `byUser`, with one entry for a user.
abbrev pub UserStreamRegistry : Type 0
UserStreamRegistry = List UserStreamLease

abbrev pub id_of : Option UserStreamLease → Option String
id_of none = none
id_of (some l) = some l.id

abbrev pub without : String → UserStreamRegistry → UserStreamRegistry
without user_id r = select (λ l. not (of_user user_id l)) r

-- `Replace`, with the lease that is to be cancelled.
unfoldable pub replace :
    UserStreamLease → UserStreamRegistry → Option UserStreamLease × UserStreamRegistry
replace l r = (find (of_user l.user_id) r, l ∷ without l.user_id r)

abbrev pub release_found :
    UserStreamLease → UserStreamRegistry → Option UserStreamLease → UserStreamRegistry
release_found l r none = r
release_found l r (some current) = if current.id == l.id then without l.user_id r else r

-- `Release`: a lease that was replaced is let alone.
unfoldable pub release : UserStreamLease → UserStreamRegistry → UserStreamRegistry
release l r = release_found l r (find (of_user l.user_id) r)

-- `Cancel`, with the lease whose function is called.
unfoldable pub cancel : String → UserStreamRegistry → Option UserStreamLease × UserStreamRegistry
cancel user_id r = (find (of_user user_id) r, without user_id r)

-- `Count`
unfoldable pub count : UserStreamRegistry → ℕ
count r = length r

pub record State : Type 0 where
  pub registry : UserStreamRegistry
  pub running : List UserStreamLease
  -- the contexts that are done
  pub done : List UserStreamLease
  -- the cancel functions still to be called
  pub pending : List UserStreamLease

abbrev pub hold : Option UserStreamLease → List UserStreamLease → List UserStreamLease
hold none ls = ls
hold (some l) ls = l ∷ ls

unfoldable pub connect : UserStreamLease → State → State
unfolding replace
connect l s =
    let (previous, registry) = replace l s.registry in
    record s { registry = registry; running = l ∷ s.running; pending = hold previous s.pending }

unfoldable pub cancel_one : UserStreamLease → State → State
cancel_one l s = record s {
  done = l ∷ s.done;
  pending = select (λ p. not (same_lease l p)) s.pending;
}

unfoldable pub disconnect : UserStreamLease → State → State
unfolding release
disconnect l s = record s {
  registry = release l s.registry;
  running = select (λ p. not (same_lease l p)) s.running;
}

-- What the handler of /events/disconnect does to the stream of a user.
unfoldable pub close : String → State → State
unfolding cancel
close user_id s =
    let (lease, registry) = cancel user_id s.registry in
    record s { registry = registry; pending = hold lease s.pending }

-- What the handlers do, in any interleaving. A stream's id is the time in nanoseconds, which no other running stream
-- of the user has.
pub data Step : State → State → Type 0 where
  connects :
      (l : UserStreamLease) (s : State)
      → any (same_lease l) s.running ≡ false
      → Step s (connect l s)
  cancels :
      (l : UserStreamLease) (s : State)
      → any (same_lease l) s.pending ≡ true
      → Step s (cancel_one l s)
  closes : (user_id : String) (s : State) → Step s (close user_id s)
  disconnects :
      (l : UserStreamLease) (s : State)
      → any (same_lease l) s.running ≡ true
      → Step s (disconnect l s)

pub data Reachable : State → Type 0 where
  start : Reachable (record { registry = []; running = []; done = []; pending = [] })
  next : {s t : State} → Reachable s → Step s t → Reachable t
