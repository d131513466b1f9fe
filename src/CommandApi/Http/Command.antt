-- ===== src/CommandApi/Http/Command.antt =====
-- `handleCreateCommand` and `authMiddleware` of internal/app/commandapi/http.go. The wait for the projection that
-- ends `handleCreateCommand` writes nothing and its result is dropped, so it is left out. The todo reader is configured.
use todo_1m.Prelude.{ℕ, String, Bool, not, ◌&&◌, ◌||◌, Option, if◌then◌else◌, ◌==◌, trim_space}
use todo_1m.Errors.{Result, ok, err}
use todo_1m.Contracts.{Json}
use todo_1m.Platform.Auth
use todo_1m.Platform.Auth.{Claims, bearer_token}
use todo_1m.Identity.Repository
use todo_1m.Identity.Service
use todo_1m.Identity.Service.{can_moderate_messages, ensure_member_role}
use todo_1m.ReadModel.{TodoView}
use todo_1m.DataSink
use todo_1m.Query.{get_todo_by_id}
use todo_1m.Bus.{Bus}
use todo_1m.CommandApi.{CreateTodoRequest, CommandResponse, normalize_action, accept}
use todo_1m.CommandApi.Http.{
  accepted, Response, Server, Handler, status_text, with_body, membership_failed, todo_failed,
  accept_failed,
}

-- An action on a todo that is there already.
abbrev pub is_change : String → Bool
is_change action = (action == "update-todo") || (action == "delete-todo")

abbrev pub may_change : String → String → TodoView → Bool
may_change user_id role t = can_moderate_messages role || t.created_by_user_id == user_id

module _ (j : Json) (nth_id : ℕ → String) (claims : Claims) (req : CreateTodoRequest) where
  abbrev pub accept_reply : Server → Result CommandResponse × Bus → Response × Server
  accept_reply s (ok r, b) = (record { status = 202; body = accepted r }, record s { bus = b })
  accept_reply s (err e, b) = (accept_failed e, record s { bus = b })

  -- The command is sent.
  unfoldable pub submit : Handler
  submit s =
      accept_reply s (
        accept j nth_id (record { user_id = claims.subject; username = claims.username }) req s.bus)

  abbrev pub todo_reply : String → Server → Result TodoView × DataSink.World → Response × Server
  todo_reply role s (err e, w) = (todo_failed e, record s { todos = w })
  todo_reply role s (ok t, w) =
      let s' = record s { todos = w } in
      if not (t.group_id == trim_space req.group_id)
      then (status_text 400 "todo does not belong to group_id", s')
      else if not (can_moderate_messages role) && not (t.created_by_user_id == claims.subject)
      then (status_text 403 "insufficient permissions for this action", s')
      else submit s'

  -- A change is checked against the todo that it names.
  unfoldable pub check_todo : String → Handler
  unfolding submit
  check_todo role s =
      if is_change (normalize_action req.action)
      then todo_reply role s (get_todo_by_id req.todo_id s.todos)
      else submit s

  abbrev pub role_reply : Server → Result String × Repository.World → Response × Server
  role_reply s (err e, w) = (membership_failed e, record s { identity = w })
  role_reply s (ok role, w) = check_todo role (record s { identity = w })

  unfoldable pub create_command : Handler
  unfolding check_todo
  create_command s = role_reply s (ensure_member_role claims.subject req.group_id s.identity)

unfoldable pub handle_create_command :
    Json → (ℕ → String) → Claims → Option CreateTodoRequest → Handler
unfolding create_command
handle_create_command j nth_id claims body =
    with_body body λ req. create_command j nth_id claims req

abbrev pub authenticated : (Claims → Handler) → Result Claims → Handler
authenticated next (ok claims) s = next claims s
authenticated next (err e) s = (status_text 401 "invalid token", s)

-- `authMiddleware`, of the Authorization header and the time of the request.
unfoldable pub with_auth : Service.Service → ℕ → String → (Claims → Handler) → Handler
with_auth svc now header next s =
    let token = bearer_token header in
    if token == ""
    then (status_text 401 "missing bearer token", s)
    else authenticated next (Auth.parse svc.codec svc.auth_token now token) s
