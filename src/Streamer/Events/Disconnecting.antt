-- ===== src/Streamer/Events/Disconnecting.antt =====
-- What a request to /events/disconnect of cmd/sse-streamer/main.go leaves of a stream that a request to /events opened.
use todo_1m.Prelude.{ℕ, ◌≡◌, refl, ap, ◌∙◌, String, Bool, true, false, ◌∷◌, none, find, ◌==◌}
use todo_1m.Errors.{ok}
use todo_1m.Platform.Auth.{Codec, Manager, Claims, parse}
use todo_1m.Streamer.Users.{of_user, cancel, hold}
use todo_1m.Streamer.Events.{Connections, token_of, get_events, disconnect}
use todo_1m.Streamer.Events.Replacing.{is_open, get_events-IsReplaced, find-without_self}

-- With a valid token the stream of the user is cancelled, if there is one, and no stream of the user is registered.
pub record IsDisconnected (user : String) (s : Connections) (r : (ℕ × String) × Connections)
    : Type 0 where
  pub status : r.0.0 ≡ 204
  pub cancelled : r.1.cancelled ≡ hold (find (of_user user) s.registry) s.cancelled
  pub registered : find (of_user user) r.1.registry ≡ none

pub disconnect-IsDisconnected :
    (c : Codec) (m : Manager) (now : ℕ) (header parameter : String) (s : Connections)
    (claims : Claims)
    → (token_of header parameter == "") ≡ false
    → parse c m now (token_of header parameter) ≡ ok claims
    → IsDisconnected claims.subject s (disconnect c m now header parameter s)
unfolding disconnect cancel
disconnect-IsDisconnected c m now header parameter s claims given valid =
    rw (given, valid)
      (record {
        status = refl;
        cancelled = refl;
        registered = find-without_self claims.subject s.registry;
      })

-- A stream that a request to /events has opened is the one that a later request with the same token cancels.
pub disconnect-get_events :
    (c : Codec) (m : Manager) (now later : ℕ) (header parameter stream_id group_id : String)
    (subscribed : Bool) (s : Connections) (claims : Claims)
    → (token_of header parameter == "") ≡ false
    → parse c m now (token_of header parameter) ≡ ok claims
    → parse c m later (token_of header parameter) ≡ ok claims
    → is_open (get_events c m now header parameter stream_id group_id subscribed s).0 ≡ true
    → (disconnect c m later header parameter
        (get_events c m now header parameter stream_id group_id subscribed s).1).1.cancelled
      ≡ record { user_id = claims.subject; id = stream_id }
        ∷ hold (find (of_user claims.subject) s.registry) s.cancelled
disconnect-get_events c m now later header parameter stream_id group_id subscribed s claims given
      valid again opens =
    let r = get_events c m now header parameter stream_id group_id subscribed s in
    let replaced =
      get_events-IsReplaced c m now header parameter stream_id group_id subscribed s claims given
        valid in
    let gone = disconnect-IsDisconnected c m later header parameter r.1 claims given again in
    gone.cancelled
    ∙ ap (λ o. hold o r.1.cancelled) (rw opens at replaced.registered)
    ∙ ap (λ ls. record { user_id = claims.subject; id = stream_id } ∷ ls) replaced.cancelled
