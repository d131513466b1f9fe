-- ===== src/Platform/Nats/Connecting.antt =====
-- How `ConnectJetStreamWithRetry` of internal/platform/natsutil/nats.go and the waits for Postgres end.
use todo_1m.Prelude.{
  ℕ, suc, ◌+◌, ◌*◌, ◌≤◌, ◌<◌, ◌≡◌, refl, sym, ap, ◌∙◌, ◌⊎◌, inl, inr, Bool, true, false, List, [],
  ◌∷◌, any, Option, none, some, if◌then◌else◌, arith, Bool-cases, Option-cases, String, eq_refl,
  subst,
}
use todo_1m.Prelude.Polling.{poll-returns, Ended, poll-Ended}
use todo_1m.Errors.{Error, Result, ok, err, stream_not_found}
use todo_1m.Exec.{resume, ◌>>=◌, raise, after_error, on_error}
use todo_1m.Platform.Streams.{
  Stream, JetStream, has_name, stream_info, add_stream, add_if_missing, ensure_stream,
  commands_stream, events_stream, ensure_streams,
}
use todo_1m.Platform.Nats.{
  Dial, ensured, connect_jetstream, Turn, Connected, client, timed_out, client_of, last_error,
  connect_with_retry,
}

-- A connection that is not handed out has been closed.
abbrev open_connections : Result JetStream → ℕ
open_connections (ok js) = 1
open_connections (err e) = 0

connect_jetstream-closes :
    (d : Dial)
    → (connect_jetstream d).opened
      ≡ (connect_jetstream d).closed + open_connections (connect_jetstream d).client
unfolding connect_jetstream
connect_jetstream-closes d = elim (Bool-cases d.connects) [
  | inl up ↦ elim (Bool-cases d.has_jetstream) [
    | inl there ↦ rw (up, there) (kept (ensure_streams d.server))
    | inr missing ↦ rw (up, missing) refl
  ]
  | inr down ↦ rw down refl
]
  where
    kept :
        (r : Result (Unit {0}) × JetStream)
        → (ensured r).opened ≡ (ensured r).closed + open_connections (ensured r).client
    kept (ok u, js) = refl
    kept (err e, js) = refl

-- Both streams are there.
abbrev pub HasStreams : JetStream → Type 0
HasStreams js =
    (any (has_name "COMMANDS") js.streams ≡ true) × (any (has_name "EVENTS") js.streams ≡ true)

abbrev jetstream : List Stream → List Bool → JetStream
jetstream ss fs = record { streams = ss; faults = fs }

-- What a stream that is ensured leaves.
record IsEnsured (s : Stream) (ss : List Stream) (r : Result (Unit {0}) × JetStream) : Type 0 where
  pub there : r.0 ≡ ok tt → any (has_name s.name) r.1.streams ≡ true
  pub kept :
      (name : String) → any (has_name name) ss ≡ true → any (has_name name) r.1.streams ≡ true

added :
    (s : Stream) (ss : List Stream) (fs : List Bool)
    → IsEnsured s ss (add_stream s (jetstream ss fs))
unfolding add_stream any
added s ss [] = record {
  there = λ e. ground (arith, eq_refl s.name);
  kept = λ name h. ground (arith, h);
}
added s ss (false ∷ fs) = record {
  there = λ e. ground (arith, eq_refl s.name);
  kept = λ name h. ground (arith, h);
}
added s ss (true ∷ fs) = record { there = λ e. absurd (cc); kept = λ name h. h }

looked_up :
    (s : Stream) (ss : List Stream) (fs : List Bool)
    → IsEnsured s ss (
        after_error
          (add_if_missing s)
          (if any (has_name s.name) ss then ok tt else err stream_not_found)
          (jetstream ss fs))
unfolding add_if_missing
looked_up s ss fs = elim (Bool-cases (any (has_name s.name) ss)) [
  | inl found ↦ rw found (record { there = λ e. found; kept = λ name h. h })
  | inr missing ↦ rw missing (added s ss fs)
]

ensure_stream-IsEnsured :
    (s : Stream) (ss : List Stream) (fs : List Bool)
    → IsEnsured s ss (ensure_stream s (jetstream ss fs))
unfolding ensure_stream stream_info on_error add_if_missing raise
ensure_stream-IsEnsured s ss [] = looked_up s ss []
ensure_stream-IsEnsured s ss (false ∷ fs) = looked_up s ss fs
ensure_stream-IsEnsured s ss (true ∷ fs) = record { there = λ e. absurd (cc); kept = λ name h. h }

ensure_streams-HasStreams :
    (js : JetStream) → (ensure_streams js).0 ≡ ok tt → HasStreams (ensure_streams js).1
unfolding ensure_streams ◌>>=◌
ensure_streams-HasStreams js h =
    go (ensure_stream commands_stream js)
      (ensure_stream-IsEnsured commands_stream js.streams js.faults) h
  where
    go :
        (r : Result (Unit {0}) × JetStream)
        → IsEnsured commands_stream js.streams r
        → (resume r.0 (λ u. ensure_stream events_stream) r.1).0 ≡ ok tt
        → HasStreams (resume r.0 (λ u. ensure_stream events_stream) r.1).1
    go (ok u, j) c k =
        let e = ensure_stream-IsEnsured events_stream j.streams j.faults in
        (e.kept "COMMANDS" (c.there refl), e.there k)
    go (err x, j) c k = absurd (cc)

client-HasStreams :
    (d : Dial) (js : JetStream) → (connect_jetstream d).client ≡ ok js → HasStreams js
unfolding connect_jetstream
client-HasStreams d js h = elim (Bool-cases d.connects) [
  | inl up ↦ elim (Bool-cases d.has_jetstream) [
    | inl there ↦
        from_ensured (ensure_streams d.server) (ensure_streams-HasStreams d.server)
          (rw (up, there) at h)
    | inr missing ↦ absurd (cc (rw (up, missing) at h))
  ]
  | inr down ↦ absurd (cc (rw down at h))
]
  where
    from_ensured :
        (r : Result (Unit {0}) × JetStream)
        → (r.0 ≡ ok tt → HasStreams r.1)
        → (ensured r).client ≡ ok js
        → HasStreams js
    from_ensured (ok u, j) f e = subst HasStreams (same j js e) (f refl)
      where
        same : (a b : JetStream) → ok a ≡ ok b → a ≡ b
        same a b e = cc
    from_ensured (err x, j) f e = absurd (cc)

-- How the loop may end: with the client of the first attempt that succeeds, before the deadline and with both streams
-- there, or after the deadline, when no attempt has succeeded.
abbrev pub Ending : (ℕ → Turn) → ℕ → Connected → Type 0
Ending turns deadline (client js) =
    HasStreams js
    × ((k : ℕ) × ((turns k).now < deadline) × ((connect_jetstream (turns k).dial).client ≡ ok js))
Ending turns deadline (timed_out e) =
    (k : ℕ) × (deadline ≤ (turns k).now)
    × (e ≡ last_error turns k)
    × ((i : ℕ) → i < k → client_of (connect_jetstream (turns i).dial).client ≡ none)

module _ (turns : ℕ → Turn) (start timeout : ℕ) where
  ended :
      (r : Connected)
      → Ended
          (λ n. (turns n).now)
          (λ n. client_of (connect_jetstream (turns n).dial).client)
          (λ n. timed_out (last_error turns n))
          0
          (start + timeout)
          r
      → Ending turns (start + timeout) r
  ended r e = go r e.ending
    where
      answered :
          (x : Result JetStream) (r : Connected)
          → client_of x ≡ some r
          → (js : JetStream) × (x ≡ ok js) × (r ≡ client js)
      answered (ok js) r h = (js, refl, cc)
      answered (err x) r h = absurd (cc)

      same_client : (a b : JetStream) → client a ≡ client b → a ≡ b
      same_client a b h = cc

      same_error : (a b : Option Error) → timed_out a ≡ timed_out b → b ≡ a
      same_error a b h = cc

      zero_le : (k : ℕ) → 0 ≤ k
      zero_le k = omega arith

      go :
          (r : Connected)
          → (((turns e.last).now < start + timeout)
              × (client_of (connect_jetstream (turns e.last).dial).client ≡ some r))
            ⊎ ((start + timeout ≤ (turns e.last).now) × (timed_out (last_error turns e.last) ≡ r))
          → Ending turns (start + timeout) r
      go (client js) (inl p) =
          let (js', a, b) =
            answered (connect_jetstream (turns e.last).dial).client (client js) p.1 in
          let q = a ∙ ap ok (same_client js' js (sym b)) in
          (client-HasStreams (turns e.last).dial js q, (e.last, p.0, q))
      go (client js) (inr p) = absurd (cc (p.1))
      go (timed_out x) (inl p) =
          let (js', a, b) =
            answered (connect_jetstream (turns e.last).dial).client (timed_out x) p.1 in
          absurd (cc (b))
      go (timed_out x) (inr p) =
          (e.last, p.0, same_error (last_error turns e.last) x p.1, λ i h. e.before i (zero_le i) h)

  -- Where each turn comes 500 ms after the one before it at least, ConnectJetStreamWithRetry returns on one turn more than
  -- the half seconds that cover its timeout. It returns the client of an attempt before the deadline, with both streams
  -- there, or, after the deadline and when no attempt has succeeded, the last error, and none where there was no attempt.
  pub connect_with_retry-Ending :
      (fuel : ℕ)
      → ((k : ℕ) → (turns k).now + 500_000_000 ≤ (turns (suc k)).now)
      → start ≤ (turns 0).now
      → timeout ≤ 500_000_000 * fuel
      → (r : Connected) × (connect_with_retry turns (suc fuel) start timeout ≡ some r)
        × Ending turns (start + timeout) r
  unfolding connect_with_retry
  connect_with_retry-Ending fuel tick begins enough =
      elim (Option-cases (connect_with_retry turns (suc fuel) start timeout)) [
        | inl spent ↦ absurd (
            poll-returns (λ n. (turns n).now)
              (λ n. client_of (connect_jetstream (turns n).dial).client)
              (λ n. timed_out (last_error turns n)) 500_000_000 fuel 0 (start + timeout) tick
              (within (turns 0).now fuel begins enough) spent)
        | inr (r, e) ↦ (r, e, ended r (poll-Ended _ _ _ (suc fuel) 0 (start + timeout) e))
      ]
    where
      within :
          (now fuel : ℕ)
          → start ≤ now
          → timeout ≤ 500_000_000 * fuel
          → start + timeout ≤ now + 500_000_000 * fuel
      within now fuel a b = omega arith
