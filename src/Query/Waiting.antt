-- ===== src/Query/Waiting.antt =====
-- `WaitForCommandApplied` of internal/app/query/repository.go: a client's command is awaited in the read model. Times
-- and delays are in nanoseconds.
use todo_1m.Prelude.{
  ℕ, zero, suc, ◌+◌, ◌*◌, ◌/◌, ◌≤◌, ◌≡◌, ◌≢◌, String, Bool, true, false, ◌&&◌, ◌||◌, Option, none,
  some, ℤ, pos, negsuc, ltb, if◌then◌else◌, any, trim_space, ◌==◌, arith, if_holds,
}
use todo_1m.Errors.{Result, ok, err, not_found, undefined_table, context_done}
use todo_1m.Postgres.{database}
use todo_1m.ReadModel.{StoredEvent}
use todo_1m.DataSink.{World, Statement}

abbrev pub millisecond : ℕ
millisecond = 1_000_000

abbrev pub is_event_of : String → String → StoredEvent → Bool
is_event_of command_id group_id row =
    (row.event.command_id == command_id) && (row.event.group_id == group_id)

-- SELECT 1 FROM todo_events WHERE command_id = $1 AND group_id = $2 LIMIT 1
unfoldable pub select_marker : String → String → Statement Unit
select_marker command_id group_id m =
    (if any (is_event_of command_id group_id) m.events then ok tt else err not_found, m)

-- One turn of the loop: the read model and the time as it meets them, and whether the context is done while it sleeps.
pub record Turn : Type 0 where
  pub world : World
  pub done : Bool

-- time.Duration(float64(delay) * 1.5), 250 ms at most.
unfoldable pub next_delay : ℕ → ℕ
next_delay delay =
    let next = delay * 3 / 2 in if ltb (250 * millisecond) next then 250 * millisecond else next

abbrev pub sleep : Bool → Option (Result (Unit {0})) → Option (Result (Unit {0}))
sleep done rest = if done then some (err context_done) else rest

-- A row that is not there yet, and a table that is not there yet, are waited for.
abbrev pub after_poll :
    Result (Unit {0}) → Bool → Option (Result (Unit {0})) → Option (Result (Unit {0}))
after_poll (ok u) done rest = some (ok tt)
after_poll (err not_found) done rest = sleep done rest
after_poll (err undefined_table) done rest = sleep done rest
after_poll (err e) done rest = some (err e)

module _ (turns : ℕ → Turn) (command_id group_id : String) where
  -- The loop from turn `n` on; `none` where the fuel is spent first.
  unfoldable pub wait_from : ℕ → ℕ → ℕ → ℕ → Option (Result (Unit {0}))
  unfolding next_delay select_marker
  wait_from zero n deadline delay = none
  wait_from (suc fuel) n deadline delay =
      let w = (turns n).world in
      let rest = wait_from fuel (suc n) deadline (next_delay delay) in
      if ltb w.now deadline
      then after_poll (database (select_marker command_id group_id) w).0 (turns n).done rest
      else some (ok tt)

abbrev pub timeout_of : ℤ → ℕ
timeout_of (pos zero) = 2000 * millisecond
timeout_of (pos (suc n)) = suc n
timeout_of (negsuc n) = 2000 * millisecond

unfoldable pub wait_for_command_applied :
    (ℕ → Turn) → ℕ → ℕ → String → String → ℤ → Option (Result (Unit {0}))
unfolding wait_from
wait_for_command_applied turns fuel start command_id group_id timeout =
    let command = trim_space command_id in
    let group = trim_space group_id in
    if command == "" || group == ""
    then some (ok tt)
    else wait_from turns command group fuel 0 (start + timeout_of timeout) (20 * millisecond)

-- The delay before turn `n + 1`, and how the clock goes: `time.After` sleeps for the delay at least.
unfoldable pub delay_at : ℕ → ℕ
unfolding next_delay
delay_at zero = 20 * millisecond
delay_at (suc n) = next_delay (delay_at n)

longer : (d : ℕ) → 20 * millisecond ≤ d → 20 * millisecond ≤ next_delay d
unfolding next_delay
longer d h = ground arith

delay_at-bounded : (n : ℕ) → 20 * millisecond ≤ delay_at n
unfolding delay_at
delay_at-bounded zero = omega arith
delay_at-bounded (suc n) = longer (delay_at n) (delay_at-bounded n)

abbrev Given : Option (Result (Unit {0})) → Type 0
Given o = o ≢ none

after_poll-Given :
    (r : Result (Unit {0})) (done : Bool) (rest : Option (Result (Unit {0})))
    → Given rest
    → Given (after_poll r done rest)
after_poll-Given (ok u) done rest h = λ e. absurd (cc)
after_poll-Given (err not_found) true rest h = λ e. absurd (cc)
after_poll-Given (err not_found) false rest h = h
after_poll-Given (err undefined_table) true rest h = λ e. absurd (cc)
after_poll-Given (err undefined_table) false rest h = h
after_poll-Given (err _) done rest h = λ e. absurd (cc)

over : (now deadline : ℕ) → deadline ≤ now + 20 * millisecond * 0 → ltb now deadline ≡ false
over now deadline h = ground arith

sooner :
    (now next delay fuel deadline : ℕ)
    → now + delay ≤ next
    → 20 * millisecond ≤ delay
    → deadline ≤ now + 20 * millisecond * suc fuel
    → deadline ≤ next + 20 * millisecond * fuel
sooner now next delay fuel deadline a b c = omega arith

module _ (turns : ℕ → Turn) (command_id group_id : String) where
  wait_from-Given :
      (fuel n deadline : ℕ)
      → ((k : ℕ) → (turns k).world.now + delay_at k ≤ (turns (suc k)).world.now)
      → deadline ≤ (turns n).world.now + 20 * millisecond * fuel
      → Given (wait_from turns command_id group_id (suc fuel) n deadline (delay_at n))
  unfolding wait_from delay_at
  wait_from-Given zero n deadline tick h =
      rw (over (turns n).world.now deadline h) (λ e. absurd (cc))
  wait_from-Given (suc fuel) n deadline tick h =
      if_holds Given (ltb (turns n).world.now deadline) _ _
        (after_poll-Given _ (turns n).done _ (
          wait_from-Given fuel (suc n) deadline tick (
            sooner (turns n).world.now (turns (suc n)).world.now (delay_at n) fuel deadline (tick n)
              (delay_at-bounded n) h)))
        (λ e. absurd (cc))

-- Where the first turn is not before `start`, and each turn comes after the one before it by its
-- delay at least, WaitForCommandApplied returns, on one turn more than the spells of 20 ms that
-- cover the timeout.
pub wait_returns :
    (turns : ℕ → Turn) (fuel start : ℕ) (command_id group_id : String) (timeout : ℤ)
    → ((k : ℕ) → (turns k).world.now + delay_at k ≤ (turns (suc k)).world.now)
    → start ≤ (turns 0).world.now
    → timeout_of timeout ≤ 20 * millisecond * fuel
    → wait_for_command_applied turns (suc fuel) start command_id group_id timeout ≢ none
unfolding wait_for_command_applied delay_at
wait_returns turns fuel start command_id group_id timeout tick begins enough =
    if_holds Given (trim_space command_id == "" || trim_space group_id == "") _ _ (λ e. absurd (cc))
      (wait_from-Given turns (trim_space command_id) (trim_space group_id) fuel 0
        (start + timeout_of timeout) tick
        (within (turns 0).world.now start (timeout_of timeout) fuel begins enough))
  where
    within :
        (now start t fuel : ℕ)
        → start ≤ now
        → t ≤ 20 * millisecond * fuel
        → start + t ≤ now + 20 * millisecond * fuel
    within now start t fuel a b = omega arith
