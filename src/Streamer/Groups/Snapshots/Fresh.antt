-- ===== src/Streamer/Groups/Snapshots/Fresh.antt =====
-- The snapshots that `runSnapshotRefresh` of cmd/sse-streamer/main.go sends.
use todo_1m.Prelude.{
  ℕ, suc, ◌+◌, ◌*◌, ◌≤◌, ◌≡◌, ◌≢◌, refl, ◌⊎◌, inl, inr, String, false, List, [], ◌∷◌, Option, none,
  some, pos, ltb, eqb, if◌then◌else◌, arith, Bool-cases, All, subst,
}
use todo_1m.Prelude.Polling.{poll-returns}
use todo_1m.DataSink.{World}
use todo_1m.Query.{list_group_todos}
use todo_1m.Query.Waiting.{Turn, millisecond}
use todo_1m.Streamer.Groups.{Subscriber, GroupStream, schedule_snapshot, if_any, take_snapshot}
use todo_1m.Streamer.Groups.Snapshots.{
  delay_after, delay_after-bounded, stops, wait_for_projection_offset, snapshot_of, refresh,
  run_snapshot_refresh,
}

-- The sequences of events that came in, one after the other.
unfoldable pub schedule_all : List ℕ → GroupStream → GroupStream
schedule_all [] s = s
schedule_all (seq ∷ seqs) s = schedule_all seqs (schedule_snapshot seq s)

abbrev pub IsAmong : ℕ → List ℕ → Type 0
IsAmong n [] = ⊥
IsAmong n (x ∷ xs) = (n ≡ x) ⊎ IsAmong n xs

-- The greatest of some numbers.
pub record IsGreatest (n : ℕ) (ns : List ℕ) : Type 0 where
  pub among : IsAmong n ns
  pub bound : All (λ m. m ≤ n) ns

pending-IsGreatest :
    (seqs : List ℕ) (s : GroupStream)
    → IsGreatest (schedule_all seqs s).pending_seq (s.pending_seq ∷ seqs)
unfolding schedule_all schedule_snapshot
pending-IsGreatest [] s = record { among = inl refl; bound = (omega arith, tt) }
pending-IsGreatest (seq ∷ seqs) s =
    greater s.pending_seq seq _ seqs (pending-IsGreatest seqs (schedule_snapshot seq s))
  where
    greater :
        (p seq n : ℕ) (seqs : List ℕ)
        → IsGreatest n ((if ltb p seq then seq else p) ∷ seqs)
        → IsGreatest n (p ∷ seq ∷ seqs)
    greater p seq n seqs g = record {
      among = place p seq n seqs g.among;
      bound = (ground (arith, g.bound.0), (ground (arith, g.bound.0), g.bound.1));
    }
      where
        place :
            (p seq n : ℕ) (seqs : List ℕ)
            → (n ≡ (if ltb p seq then seq else p)) ⊎ IsAmong n seqs
            → (n ≡ p) ⊎ ((n ≡ seq) ⊎ IsAmong n seqs)
        place p seq n seqs (inl e) = elim (Bool-cases (ltb p seq)) [
          | inl less ↦ inr (inl (ground arith))
          | inr not_less ↦ inl (ground arith)
        ]
        place p seq n seqs (inr h) = inr (inr h)

subscribers-schedule_all :
    (seqs : List ℕ) (s : GroupStream) → (schedule_all seqs s).subscribers ≡ s.subscribers
unfolding schedule_all schedule_snapshot
subscribers-schedule_all [] s = refl
subscribers-schedule_all (seq ∷ seqs) s = subscribers-schedule_all seqs (schedule_snapshot seq s)

-- Where a stream has subscribers, the refresh that follows any number of events waits for the greatest of their
-- sequences and the one that was pending, and leaves no sequence pending and no timer.
pub take_snapshot-IsGreatest :
    (seqs : List ℕ) (s : GroupStream)
    → s.subscribers ≢ []
    → (target : ℕ) × ((take_snapshot (schedule_all seqs s)).0 ≡ some target)
      × IsGreatest target (s.pending_seq ∷ seqs)
      × ((take_snapshot (schedule_all seqs s)).1.pending_seq ≡ 0)
      × ((take_snapshot (schedule_all seqs s)).1.refresh_timer ≡ false)
unfolding take_snapshot
take_snapshot-IsGreatest seqs s h = (
  (schedule_all seqs s).pending_seq,
  there (schedule_all seqs s).subscribers (schedule_all seqs s).pending_seq
      (λ e. h (subst (λ xs. xs ≡ []) (subscribers-schedule_all seqs s) e)),
  pending-IsGreatest seqs s,
  refl,
  refl,
)
  where
    there : (xs : List Subscriber) (n : ℕ) → xs ≢ [] → if_any xs n ≡ some n
    there [] n k = absurd (k refl)
    there (x ∷ xs) n k = refl

module _ (turns : ℕ → Turn) (start : ℕ) where
  abbrev Ticks : Type 0
  Ticks = (k : ℕ) → (turns k).world.now + delay_after k ≤ (turns (suc k)).world.now

  wait-returns :
      (group : String) (target fuel timeout : ℕ)
      → Ticks
      → start ≤ (turns 0).world.now
      → timeout ≤ 40 * millisecond * fuel
      → wait_for_projection_offset group target turns (suc fuel) start timeout ≢ none
  unfolding wait_for_projection_offset
  wait-returns group target fuel timeout tick begins enough = elim (Bool-cases (eqb target 0)) [
    | inl zero_target ↦ rw zero_target (λ e. absurd (cc))
    | inr given ↦ rw given (
        poll-returns (λ n. (turns n).world.now) (stops group target turns) (λ n. n)
          (40 * millisecond) fuel 0 (start + timeout)
          (λ k.
            at_least (turns k).world.now (turns (suc k)).world.now (delay_after k)
              (delay_after-bounded k).0 (tick k))
          (within (turns 0).world.now timeout fuel begins enough))
  ]
    where
      at_least : (a b d : ℕ) → 40 * millisecond ≤ d → a + d ≤ b → a + 40 * millisecond ≤ b
      at_least a b d h k = omega arith

      within :
          (now t fuel : ℕ)
          → start ≤ now
          → t ≤ 40 * millisecond * fuel
          → start + t ≤ now + 40 * millisecond * fuel
      within now t fuel a b = omega arith

  -- Where the first turn is not before the start, and each turn comes after the one before it by its delay at least,
  -- the refresh of a snapshot returns within 64 turns.
  pub run_snapshot_refresh-returns :
      (s : GroupStream) (after : ℕ → World)
      → ((k : ℕ) → (turns k).world.now + delay_after k ≤ (turns (suc k)).world.now)
      → start ≤ (turns 0).world.now
      → (run_snapshot_refresh s turns after 64 start).0 ≢ none
  unfolding run_snapshot_refresh take_snapshot
  run_snapshot_refresh-returns s after tick begins = go (if_any s.subscribers s.pending_seq)
    where
      go : (o : Option ℕ) → refresh s.group_id o turns after 64 start ≢ none
      go none = λ e. absurd (cc)
      go (some target) =
          given (wait_for_projection_offset s.group_id target turns 64 start (2500 * millisecond))
            (wait-returns s.group_id target 63 (2500 * millisecond) tick begins (omega arith))
        where
          given :
              (o : Option ℕ)
              → o ≢ none
              → (elim o [
                | none ↦ none
                | some n ↦
                    some (snapshot_of target (list_group_todos s.group_id (pos 50) (after n)).0)
              ])
                ≢ none
          given none h = absurd (h refl)
          given (some n) h = λ e. absurd (cc)
