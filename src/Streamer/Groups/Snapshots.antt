-- ===== src/Streamer/Groups/Snapshots.antt =====
-- `scheduleSnapshot`, `runSnapshotRefresh` and `waitForProjectionOffset` of cmd/sse-streamer/main.go. The read model as
-- the wait meets it, turn by turn, comes from the environment; times are in nanoseconds.
pub mod Fresh
pub mod Sent
use todo_1m.Prelude.{
  ℕ, zero, suc, ◌+◌, ◌*◌, ◌/◌, ◌≤◌, ◌<◌, ◌≡◌, ◌≢◌, refl, ◌⊎◌, inl, inr, String, Bool, true, false,
  ◌||◌, List, [], ◌∷◌, Option, none, some, pos, ltb, leb, eqb, if◌then◌else◌, arith, Bool-cases,
  if_holds, All, ltb→lt,
}
use todo_1m.Prelude.Polling.{poll, poll-returns, Ended, poll-Ended}
use todo_1m.Errors.{Result, ok, err}
use todo_1m.ReadModel.{TodoView}
use todo_1m.DataSink.{World}
use todo_1m.Query.{get_group_projection_offset, list_group_todos}
use todo_1m.Query.Listing.{IsPage, Listed, list_group_todos-IsPage}
use todo_1m.Query.Waiting.{Turn, millisecond}
use todo_1m.Streamer.Groups.{
  GroupStreamMessage, Subscriber, GroupStream, schedule_snapshot, if_any, take_snapshot,
}

-- time.Duration(float64(delay) * 1.5), 320 ms at most.
unfoldable pub next_delay : ℕ → ℕ
next_delay delay =
    let next = delay * 3 / 2 in if ltb (320 * millisecond) next then 320 * millisecond else next

-- The delay after turn `n`.
unfoldable pub delay_after : ℕ → ℕ
unfolding next_delay
delay_after zero = 40 * millisecond
delay_after (suc n) = next_delay (delay_after n)

abbrev pub reached : ℕ → Result ℕ → Bool
reached target (ok offset) = leb target offset
reached target (err e) = false

-- A turn is the last one where the offset is reached, or the context is done.
unfoldable pub stops : String → ℕ → (ℕ → Turn) → ℕ → Option ℕ
stops group_id target turns n =
    if reached target (get_group_projection_offset group_id (turns n).world).0 || (turns n).done
    then some n
    else none

-- `waitForProjectionOffset`, with the turn in which it returns; `none` where the fuel is spent.
unfoldable pub wait_for_projection_offset : String → ℕ → (ℕ → Turn) → ℕ → ℕ → ℕ → Option ℕ
unfolding stops
wait_for_projection_offset group_id target turns fuel start timeout =
    if eqb target 0
    then some 0
    else poll (λ n. (turns n).world.now) (stops group_id target turns) (λ n. n) fuel 0
        (start + timeout)

abbrev pub snapshot_of : ℕ → Result (List TodoView) → Option GroupStreamMessage
snapshot_of target (ok rows) = some (record { event = none; seq = target; todos = some rows })
snapshot_of target (err e) = none

-- `runSnapshotRefresh` from the first lock on: what is broadcast, if anything, once the wait is over. `after n` is the
-- read model as it is met after a wait that has ended in turn `n`.
abbrev pub refresh :
    String → Option ℕ → (ℕ → Turn) → (ℕ → World) → ℕ → ℕ → Option (Option GroupStreamMessage)
refresh group_id none turns after fuel start = some none
refresh group_id (some target) turns after fuel start =
    elim (wait_for_projection_offset group_id target turns fuel start (2500 * millisecond)) [
      | none ↦ none
      | some n ↦ some (snapshot_of target (list_group_todos group_id (pos 50) (after n)).0)
    ]

-- With what it leaves of the stream at its first lock.
unfoldable pub run_snapshot_refresh :
    GroupStream
    → (ℕ → Turn)
    → (ℕ → World)
    → ℕ
    → ℕ
    → Option (Option GroupStreamMessage) × GroupStream
unfolding take_snapshot wait_for_projection_offset
run_snapshot_refresh s turns after fuel start =
    let (target, s') = take_snapshot s in (refresh s.group_id target turns after fuel start, s')

longer : (d : ℕ) → 40 * millisecond ≤ d → 40 * millisecond ≤ next_delay d
unfolding next_delay
longer d h = ground arith

pub delay_after-bounded :
    (n : ℕ) → (40 * millisecond ≤ delay_after n) × (delay_after n ≤ 320 * millisecond)
unfolding delay_after next_delay
delay_after-bounded zero = omega arith
delay_after-bounded (suc n) =
    (longer (delay_after n) (delay_after-bounded n).0, shorter (delay_after n))
  where
    shorter : (d : ℕ) → next_delay d ≤ 320 * millisecond
    shorter d = ground arith
