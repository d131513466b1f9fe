-- ===== src/Streamer/Groups/Snapshots/Sent.antt =====
-- The messages that `runSnapshotRefresh` of cmd/sse-streamer/main.go broadcasts.
use todo_1m.Prelude.{
  ℕ, ◌+◌, ◌*◌, ◌≤◌, ◌≡◌, ◌⊎◌, String, Bool, true, List, [], ◌∷◌, Option, none, some, pos,
}
use todo_1m.ReadModel.{TodoView}
use todo_1m.DataSink.{World}
use todo_1m.Query.{get_group_projection_offset}
use todo_1m.Query.Listing.{IsPage}
use todo_1m.Query.Waiting.{Turn, millisecond}
use todo_1m.Streamer.Groups.{GroupStreamMessage, GroupStream}
use todo_1m.Streamer.Groups.Snapshots.{reached}

-- A snapshot for a sequence.
abbrev pub snapshot_message : ℕ → List TodoView → GroupStreamMessage
snapshot_message seq rows = record { event = none; seq = seq; todos = some rows }

-- The next round trip fails.
abbrev pub IsFailing : World → Type 0
IsFailing w = (rest : List Bool) × (w.faults ≡ true ∷ rest)

module _ (turns : ℕ → Turn) (after : ℕ → World) (start : ℕ) where
  -- How a wait for a sequence came to its end in turn `k`.
  Waited : String → ℕ → ℕ → Type 0
  Waited group target k =
      (reached target (get_group_projection_offset group (turns k).world).0 ≡ true)
      ⊎ (((turns k).done ≡ true) ⊎ (start + 2500 * millisecond ≤ (turns k).world.now))

  -- What comes after a turn: no earlier time, and no lower offset of the group.
  pub record Follows (group : String) (target : ℕ) : Type 0 where
    pub later : (k : ℕ) → (turns k).world.now ≤ (after k).now
    pub kept :
        (k : ℕ)
        → reached target (get_group_projection_offset group (turns k).world).0 ≡ true
        → reached target (get_group_projection_offset group (after k)).0 ≡ true

  -- The read model after turn `k` is fresh for a sequence, or the wait has been given up.
  abbrev pub IsFresh : String → ℕ → ℕ → Type 0
  IsFresh group target k =
      (reached target (get_group_projection_offset group (after k)).0 ≡ true)
      ⊎ (((turns k).done ≡ true) ⊎ (start + 2500 * millisecond ≤ (after k).now))

  -- What a snapshot is.
  pub record IsSnapshot (s : GroupStream) (msg : GroupStreamMessage) : Type 0 where
    pub turn : ℕ
    pub rows : List TodoView
    pub message : msg ≡ snapshot_message s.pending_seq rows
    pub page : IsPage s.group_id (pos 50) (after turn).tables rows
    pub fresh : (s.pending_seq ≡ 0) ⊎ IsFresh s.group_id s.pending_seq turn

  -- What comes of a refresh: a snapshot, or nothing, which is where nobody is subscribed or the list cannot be read.
  abbrev pub IsOutcome : GroupStream → Option GroupStreamMessage → Type 0
  IsOutcome s (some msg) = IsSnapshot s msg
  IsOutcome s none =
      (s.subscribers ≡ [])
      ⊎ ((turn : ℕ) × IsFailing (after turn)
          × ((s.pending_seq ≡ 0) ⊎ IsFresh s.group_id s.pending_seq turn))
