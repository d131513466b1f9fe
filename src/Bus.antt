-- ===== src/Bus.antt =====
-- The message bus as the services publish to it: `PublishFunc` of internal/app/commandapi and
-- internal/app/domainengine, which cmd/command-api and cmd/domain-engine make of JetStream. The head
-- of `faults` says whether the next publishing fails.
use todo_1m.Prelude.{ℕ, suc, String, Bool, true, false, List, [], ◌∷◌}
use todo_1m.Errors.{Result, ok, err, publish_failed}
use todo_1m.Exec.{Exec}

pub record Message : Type 0 where
  pub subject : String
  pub payload : String

-- What was published, the newest first, the faults to come, how many ids have been drawn, and the time.
pub record Bus : Type 0 where
  pub published : List Message
  pub faults : List Bool
  pub ids : ℕ
  pub now : ℕ

abbrev pub put : List Bool → Message → Bus → Result (Unit {0}) × Bus
put [] m b = (ok tt, record b { published = m ∷ b.published })
put (false ∷ rest) m b = (ok tt, record b { published = m ∷ b.published; faults = rest })
put (true ∷ rest) m b = (err publish_failed, record b { faults = rest })

-- `Publish(subject, payload)`
unfoldable pub publish : String → String → Exec Bus Unit
publish subject payload b = put b.faults (record { subject = subject; payload = payload }) b

-- `NewID()`, from the sequence that nuid gives out.
unfoldable pub draw_id : (ℕ → String) → Exec Bus String
draw_id nth_id b = (ok (nth_id b.ids), record b { ids = suc b.ids })
