-- ===== src/Streamer/Events.antt =====
-- The handlers of /events and /events/disconnect in cmd/sse-streamer/main.go, with `cssAttrSelector` and what it sends. The component
-- `frontend.EventItem` is a parameter, which may fail to render.
pub mod Frames
pub mod Replacing
pub mod Disconnecting
use Prim.Native.String
use todo_1m.Prelude.{
  ℕ, Char, code, String, Bool, true, false, List, [], ◌∷◌, ◌++◌, Option, none, some, pos, eqb,
  if◌then◌else◌, ◌==◌, trim_space,
}
use todo_1m.Errors.{Error, Result, ok, err}
use todo_1m.Contracts.{TodoEvent}
use todo_1m.Platform.Auth
use todo_1m.Platform.Auth.{Codec, Manager, Claims, bearer_token}
use todo_1m.Identity.Repository
use todo_1m.Identity.Repository.{is_user_in_group, get_membership_role}
use todo_1m.ReadModel.{TodoView}
use todo_1m.Streamer.Groups.{GroupStreamMessage}
use todo_1m.Streamer.Pages.{written, render_todo_list, render_events_container}
use todo_1m.Streamer.Users.{UserStreamLease, UserStreamRegistry, replace, release, cancel, hold}

-- strings.ReplaceAll, of one character.
unfoldable pub replace_char : ℕ → String → String → String
replace_char old new String.[] = String.[]
replace_char old new (String.◌∷◌ c s) =
    let rest = replace_char old new s in
    if eqb (code c) old then String.◌++◌ new rest else String.◌∷◌ c rest

-- `cssAttrSelector`: fmt.Sprintf("#%s[%s='%s']", id, attr, escaped)
unfoldable pub css_attr_selector : String → String → String → String
unfolding replace_char
css_attr_selector id attr value =
    let escaped = replace_char 39 "\\'" (replace_char b'\\' "\\\\" value) in
    String.◌++◌ "#" (
      String.◌++◌ id
        (String.◌++◌ "[" (String.◌++◌ attr (String.◌++◌ "='" (String.◌++◌ escaped "']")))))

-- `groupEventSubject`
unfoldable pub group_event_subject : String → String
group_event_subject group_id = String.◌++◌ "app.event.*.group." group_id

-- What `sendPatch` is given.
pub record Patch : Type 0 where
  pub selector : String
  pub mode : String
  pub content : String

-- What it writes.
unfoldable pub send_patch : Patch → String
unfolding replace_char
send_patch p = String.◌++◌ "event: datastar-patch-elements\ndata: selector " (
    String.◌++◌ p.selector (
      String.◌++◌ "\ndata: mode " (
        String.◌++◌ p.mode
          (String.◌++◌ "\ndata: elements " (String.◌++◌ (replace_char 10 "" p.content) "\n\n")))))

module _ (event_item : String → String → Option String) (group_id : String) where
  -- `sendFragment`: nothing is sent where the component does not render.
  abbrev pub fragment : Option String → List Patch
  fragment none = []
  fragment (some html) =
      record {
        selector = css_attr_selector "events" "data-group-id" group_id;
        mode = "prepend";
        content = html;
      }
      ∷ []

  unfoldable pub send_fragment : String → String → List Patch
  unfolding css_attr_selector
  send_fragment msg subtitle = fragment (event_item msg subtitle)

  -- The event of a message.
  unfoldable pub event_patches : TodoEvent → List Patch
  unfolding send_fragment
  event_patches e =
      if e.event_type == "todo.created"
      then send_fragment e.title (String.◌++◌ "created by " e.actor_name)
      else if e.event_type == "todo.updated"
      then send_fragment e.title (String.◌++◌ "updated by " e.actor_name)
      else if e.event_type == "todo.deleted"
      then send_fragment "Todo deleted" (String.◌++◌ "deleted by " e.actor_name)
      else send_fragment "Group updated" (String.◌++◌ "change by " e.actor_name)

  abbrev pub todo_patch : String → String → List TodoView → Patch
  todo_patch user role rows = record {
    selector = css_attr_selector "todos" "data-group-id" group_id;
    mode = "outer";
    content = written (render_todo_list rows user role group_id);
  }

  abbrev pub event_part : Option TodoEvent → List Patch
  event_part none = []
  event_part (some e) = event_patches e

  abbrev pub todos_part : String → String → Option (List TodoView) → List Patch
  todos_part user role none = []
  todos_part user role (some rows) = todo_patch user role rows ∷ []

  -- What the loop sends for a message.
  unfoldable pub message_patches : String → String → GroupStreamMessage → List Patch
  unfolding event_patches
  message_patches user role msg = event_part msg.event ++ todos_part user role msg.todos

  -- What is sent before the loop; the todos only where they could be read.
  abbrev pub initial_todos : String → String → Result (List TodoView) → List Patch
  initial_todos user role (ok rows) = todo_patch user role rows ∷ []
  initial_todos user role (err e) = []

  unfoldable pub initial_patches : String → String → Result (List TodoView) → List Patch
  unfolding send_fragment
  initial_patches user role rows =
      record {
        selector = "#todos";
        mode = "outer";
        content = written (render_todo_list [] user role group_id);
      }
      ∷ record {
        selector = "#events";
        mode = "outer";
        content = written (render_events_container group_id);
      }
      ∷ (send_fragment "Connected to Group Stream!" "Waiting for updates..."
          ++ initial_todos user role rows)

-- How a request ends, or which stream it opens.
pub data Opening : Type 0 where
  refused : ℕ → String → Opening
  failed : Error → Opening
  streams : Claims → String → String → Opening

-- What a request sees and changes: the identity tables, the registry of the users' streams, and the streams that it
-- has cancelled.
pub record Connections : Type 0 where
  pub identity : Repository.World
  pub registry : UserStreamRegistry
  pub cancelled : List UserStreamLease

abbrev pub ends : UserStreamLease → Opening → Connections → Opening × Connections
ends l o s = (o, record s { registry = release l s.registry })

-- The end of the checks: the subscription to the group may fail. A handler that returns releases its lease.
abbrev pub with_role :
    UserStreamLease
    → Claims
    → String
    → Bool
    → Connections
    → Result String × Repository.World
    → Opening × Connections
with_role l claims group subscribed s (ok role, w) =
    if subscribed
    then (streams claims group role, record s { identity = w })
    else ends l (refused 500 "stream subscription failed") (record s { identity = w })
with_role l claims group subscribed s (err e, w) = ends l (failed e) (record s { identity = w })

abbrev pub if_member :
    UserStreamLease
    → Claims
    → String
    → Bool
    → Connections
    → Result Bool × Repository.World
    → Opening × Connections
if_member l claims group subscribed s (ok true, w) =
    with_role l claims group subscribed s (get_membership_role claims.subject group w)
if_member l claims group subscribed s (ok false, w) =
    ends l (refused 403 "forbidden") (record s { identity = w })
if_member l claims group subscribed s (err e, w) = ends l (failed e) (record s { identity = w })

-- With a valid token: the stream of the user is replaced before the group is looked at.
unfoldable pub open_stream : String → String → Bool → Claims → Connections → Opening × Connections
open_stream stream_id group_id subscribed claims s =
    let l : UserStreamLease = record { user_id = claims.subject; id = stream_id } in
    let (previous, registry) = replace l s.registry in
    let t = record s { registry = registry; cancelled = hold previous s.cancelled } in
    let group = trim_space group_id in
    if group == ""
    then ends l (refused 400 "group_id is required") t
    else if_member l claims group subscribed t (is_user_in_group claims.subject group t.identity)

abbrev pub with_claims :
    (Claims → Connections → Opening × Connections)
    → Result Claims
    → Connections
    → Opening × Connections
with_claims next (ok claims) s = next claims s
with_claims next (err e) s = (refused 401 "invalid token", s)

-- The token of the header, or of the parameter where the header has none.
unfoldable pub token_of : String → String → String
token_of header parameter =
    let token = bearer_token header in if token == "" then trim_space parameter else token

-- GET /events up to its loop. `subscribed` says whether the subscription to the group succeeds.
unfoldable pub get_events :
    Codec
    → Manager
    → ℕ
    → String
    → String
    → String
    → String
    → Bool
    → Connections
    → Opening × Connections
unfolding open_stream token_of
get_events c m now header parameter stream_id group_id subscribed s =
    let token = token_of header parameter in
    if token == ""
    then (refused 401 "token is required", s)
    else with_claims (open_stream stream_id group_id subscribed) (Auth.parse c m now token) s

abbrev pub disconnected : Result Claims → Connections → (ℕ × String) × Connections
disconnected (ok claims) s =
    let (previous, registry) = cancel claims.subject s.registry in
    ((204, ""), record s { registry = registry; cancelled = hold previous s.cancelled })
disconnected (err e) s = ((401, "invalid token"), s)

-- GET /events/disconnect, with the status and the text of its answer.
unfoldable pub disconnect :
    Codec → Manager → ℕ → String → String → Connections → (ℕ × String) × Connections
unfolding token_of cancel
disconnect c m now header parameter s =
    let token = token_of header parameter in
    if token == ""
    then ((401, "token is required"), s)
    else disconnected (Auth.parse c m now token) s
