-- ===== src/Streamer/Events/Replacing.antt =====
-- What a request to /events of cmd/sse-streamer/main.go does to the stream that its user has open.
use todo_1m.Prelude.{
  ℕ, ◌≡◌, refl, ap, ◌∙◌, String, Bool, true, false, [], ◌∷◌, none, some, find, select,
  if◌then◌else◌, ◌==◌, eq_refl, trim_space, Bool-cases, inl, inr,
}
use todo_1m.Errors.{Result, ok, err}
use todo_1m.Platform.Auth.{Codec, Manager, Claims, parse}
use todo_1m.Identity.Repository
use todo_1m.Identity.Repository.{is_user_in_group, get_membership_role}
use todo_1m.Streamer.Users.{
  UserStreamLease, UserStreamRegistry, of_user, without, replace, release, release_found, hold,
}
use todo_1m.Streamer.Events.{
  Opening, streams, Connections, ends, with_role, if_member, open_stream, token_of, get_events,
}

abbrev pub is_open : Opening → Bool
is_open (streams claims group role) = true
is_open _ = false

-- The stream that was open is cancelled, and the new one is registered only if it opens.
pub record IsReplaced (user stream_id : String) (s : Connections) (r : Opening × Connections)
    : Type 0 where
  pub cancelled : r.1.cancelled ≡ hold (find (of_user user) s.registry) s.cancelled
  pub registered :
      find (of_user user) r.1.registry
      ≡ (if is_open r.0 then some (record { user_id = user; id = stream_id }) else none)

pub find-without_self :
    (user : String) (r : UserStreamRegistry) → find (of_user user) (without user r) ≡ none
unfolding find select
find-without_self user [] = refl
find-without_self user (l ∷ r) = elim (Bool-cases (of_user user l)) [
  | inl own ↦ rw own (find-without_self user r)
  | inr other ↦ rw other (rw other (find-without_self user r))
]

module _ (claims : Claims) (stream_id : String) (before : Connections) where
  lease : UserStreamLease
  lease = record { user_id = claims.subject; id = stream_id }

  -- After `Replace`.
  replaced : UserStreamRegistry
  replaced = lease ∷ without claims.subject before.registry

  found : find (of_user claims.subject) replaced ≡ some lease
  unfolding find replaced lease
  found = rw (eq_refl claims.subject) refl

  released : find (of_user claims.subject) (release lease replaced) ≡ none
  unfolding release lease
  released =
      ap (λ o. find (of_user claims.subject) (release_found lease replaced o)) found
      ∙ rw (eq_refl stream_id) (find-without_self claims.subject replaced)

  -- The state in which the checks of the group begin.
  Begun : Connections → Type 0
  Begun s =
      (s.registry ≡ replaced)
      × (s.cancelled ≡ hold (find (of_user claims.subject) before.registry) before.cancelled)

  ends-IsReplaced :
      (o : Opening) (s : Connections)
      → is_open o ≡ false
      → Begun s
      → IsReplaced claims.subject stream_id before (ends lease o s)
  unfolding Begun
  ends-IsReplaced o s closed b = record {
    cancelled = b.1;
    registered =
        ap (λ r. find (of_user claims.subject) (release lease r)) b.0 ∙ released ∙ rw closed refl;
  }

  role-IsReplaced :
      (group : String) (subscribed : Bool) (s : Connections) (r : Result String × Repository.World)
      → Begun s
      → IsReplaced claims.subject stream_id before (with_role lease claims group subscribed s r)
  unfolding Begun lease
  role-IsReplaced group true s (ok role, w) b = record {
    cancelled = b.1;
    registered = ap (find (of_user claims.subject)) b.0 ∙ found;
  }
  role-IsReplaced group false s (ok role, w) b = ends-IsReplaced _ _ refl b
  role-IsReplaced group subscribed s (err e, w) b = ends-IsReplaced _ _ refl b

  member-IsReplaced :
      (group : String) (subscribed : Bool) (s : Connections) (r : Result Bool × Repository.World)
      → Begun s
      → IsReplaced claims.subject stream_id before (if_member lease claims group subscribed s r)
  unfolding Begun
  member-IsReplaced group subscribed s (ok true, w) b =
      role-IsReplaced group subscribed s (get_membership_role claims.subject group w) b
  member-IsReplaced group subscribed s (ok false, w) b = ends-IsReplaced _ _ refl b
  member-IsReplaced group subscribed s (err e, w) b = ends-IsReplaced _ _ refl b

  open_stream-IsReplaced :
      (group_id : String) (subscribed : Bool)
      → IsReplaced claims.subject stream_id before
          (open_stream stream_id group_id subscribed claims before)
  unfolding open_stream replace Begun lease replaced
  open_stream-IsReplaced group_id subscribed = elim (Bool-cases (trim_space group_id == "")) [
    | inl blank ↦ rw blank (ends-IsReplaced _ _ refl (refl, refl))
    | inr given ↦ rw given (
        member-IsReplaced (trim_space group_id) subscribed
          (record before {
            registry = replaced;
            cancelled = hold (find (of_user claims.subject) before.registry) before.cancelled;
          })
          (is_user_in_group claims.subject (trim_space group_id) before.identity) (refl, refl))
  ]

-- A request to /events with a valid token cancels the stream that its user has open, whether it is then refused for its
-- group or not; afterwards the new stream is registered if it opens, and else no stream of the user is.
pub get_events-IsReplaced :
    (c : Codec) (m : Manager) (now : ℕ) (header parameter stream_id group_id : String)
    (subscribed : Bool) (s : Connections) (claims : Claims)
    → (token_of header parameter == "") ≡ false
    → parse c m now (token_of header parameter) ≡ ok claims
    → IsReplaced claims.subject stream_id s
        (get_events c m now header parameter stream_id group_id subscribed s)
unfolding get_events
get_events-IsReplaced c m now header parameter stream_id group_id subscribed s claims given valid =
    rw (given, valid) (open_stream-IsReplaced claims stream_id s group_id subscribed)
