-- ===== src/Platform/Streams.antt =====
-- internal/messaging/jetstream.go: the two streams that the services need. JetStream keeps its streams by name; the
-- head of `faults` says whether the next call fails. Limits and storage of a stream are left out.
use todo_1m.Prelude.{
  ◌≡◌, refl, ap, ◌∙◌, inl, inr, Bool-cases, String, Bool, true, false, List, [], ◌∷◌, any,
  if◌then◌else◌, ◌==◌, eq_refl, arith,
}
use todo_1m.Errors.{Error, Result, ok, err, stream_not_found, stream_failed}
use todo_1m.Exec.{Exec, raise, ◌>>=◌, ◌>>◌, on_error}

pub record Stream : Type 0 where
  pub name : String
  pub subject : String

pub record JetStream : Type 0 where
  pub streams : List Stream
  pub faults : List Bool

abbrev pub has_name : String → Stream → Bool
has_name name s = s.name == name

abbrev pub reply :
    {A : Type 0} → List Bool → (JetStream → Result A × JetStream) → JetStream → Result A × JetStream
reply [] f j = f j
reply (false ∷ rest) f j = f (record j { faults = rest })
reply (true ∷ rest) f j = (err stream_failed, record j { faults = rest })

-- `StreamInfo`: only whether the stream is there is used.
unfoldable pub stream_info : String → Exec JetStream Unit
stream_info name j =
    reply j.faults (λ k. (if any (has_name name) k.streams then ok tt else err stream_not_found, k))
      j

-- `AddStream`
unfoldable pub add_stream : Stream → Exec JetStream Unit
add_stream s j = reply j.faults (λ k. (ok tt, record k { streams = s ∷ k.streams })) j

unfoldable pub add_if_missing : Stream → Error → Exec JetStream Unit
add_if_missing s stream_not_found = add_stream s
add_if_missing s e = raise e

unfoldable pub ensure_stream : Stream → Exec JetStream Unit
unfolding add_if_missing stream_info add_stream
ensure_stream s = on_error (stream_info s.name) (add_if_missing s)

abbrev pub commands_stream : Stream
commands_stream = record { name = "COMMANDS"; subject = "app.command.>" }

abbrev pub events_stream : Stream
events_stream = record { name = "EVENTS"; subject = "app.event.>" }

-- `EnsureStreams`
unfoldable pub ensure_streams : Exec JetStream Unit
unfolding ensure_stream
ensure_streams = ensure_stream commands_stream >> ensure_stream events_stream

-- A JetStream that answers.
abbrev pub answering : List Stream → JetStream
answering streams = record { streams = streams; faults = [] }

ensured : Stream → List Stream → List Stream
ensured s ss = if any (has_name s.name) ss then ss else s ∷ ss

ensure_stream-answering :
    (s : Stream) (ss : List Stream)
    → ensure_stream s (answering ss) ≡ (ok tt, answering (ensured s ss))
unfolding ensure_stream stream_info add_stream add_if_missing on_error ensured
ensure_stream-answering s ss = elim (Bool-cases (any (has_name s.name) ss)) [
  | inl there ↦ rw there refl
  | inr missing ↦ rw missing refl
]

ensure_streams-answering :
    (ss : List Stream)
    → ensure_streams (answering ss)
      ≡ (ok tt, answering (ensured events_stream (ensured commands_stream ss)))
unfolding ensure_streams ◌>>=◌
ensure_streams-answering ss =
    rw (ensure_stream-answering commands_stream ss) (ensure_stream-answering events_stream _)

ensured-there : (s : Stream) (ss : List Stream) → any (has_name s.name) (ensured s ss) ≡ true
unfolding ensured any
ensured-there s ss = ground (arith, eq_refl s.name)

ensured-kept :
    (s : Stream) (name : String) (ss : List Stream)
    → any (has_name name) ss ≡ true
    → any (has_name name) (ensured s ss) ≡ true
unfolding ensured any
ensured-kept s name ss h = ground arith

ensured_again :
    (s : Stream) (ss : List Stream) → any (has_name s.name) ss ≡ true → ensured s ss ≡ ss
unfolding ensured
ensured_again s ss h = rw h refl

-- EnsureStreams on a JetStream that answers returns no error and leaves both streams there; called again, it changes
-- nothing.
pub ensure_streams_establishes :
    (ss : List Stream)
    → (after : List Stream) × (ensure_streams (answering ss) ≡ (ok tt, answering after))
      × (any (has_name "COMMANDS") after ≡ true)
      × (any (has_name "EVENTS") after ≡ true)
      × (ensure_streams (answering after) ≡ (ok tt, answering after))
ensure_streams_establishes ss =
    let after = ensured events_stream (ensured commands_stream ss) in
    let commands =
      ensured-kept events_stream "COMMANDS" (ensured commands_stream ss)
        (ensured-there commands_stream ss) in
    let events = ensured-there events_stream (ensured commands_stream ss) in
    (
      after,
      ensure_streams-answering ss,
      commands,
      events,
      ensure_streams-answering after
          ∙ ap (λ x. (ok tt, answering (ensured events_stream x)))
              (ensured_again commands_stream after commands)
          ∙ ap (λ x. (ok tt, answering x)) (ensured_again events_stream after events),
    )
