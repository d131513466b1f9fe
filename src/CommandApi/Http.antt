-- ===== src/CommandApi/Http.antt =====
-- The handlers of internal/app/commandapi/http.go. A body comes as the decoder leaves it, `none` where it is no
-- JSON of the request; the text of an error stands as the error itself.
pub mod Command
pub mod Router
pub mod Authentication
pub mod Guards
pub mod Cors
use todo_1m.Prelude.{
  ℕ, String, Bool, true, false, not, ◌&&◌, ◌||◌, List, Option, none, some, if◌then◌else◌, ◌==◌,
  trim_space,
}
use todo_1m.Errors.{
  Error, Result, ok, err, invalid_username, invalid_password, invalid_group_name, invalid_group_id,
  invalid_role, invalid_credentials, forbidden_group, forbidden_role, refresh_token_missing,
  invalid_refresh_token, not_found, todo_not_found, title_required, group_required,
  todo_id_required, unsupported_action, is_duplicate,
}
use todo_1m.Exec.{Exec}
use todo_1m.Contracts.{Json}
use todo_1m.Platform.Auth
use todo_1m.Platform.Auth.{Claims, bearer_token}
use todo_1m.Identity.Tables.{Group}
use todo_1m.Identity.Repository
use todo_1m.Identity.Service
use todo_1m.Identity.Service.{AuthResponse, can_moderate_messages}
use todo_1m.ReadModel.{TodoView}
use todo_1m.DataSink
use todo_1m.Query.{get_todo_by_id}
use todo_1m.Bus.{Bus}
use todo_1m.CommandApi.{Actor, CreateTodoRequest, CommandResponse, normalize_action, accept}
use todo_1m.CommandApi.Limiter.{IpRateLimiter, allow}

pub data Body : Type 0 where
  empty : Body
  session : AuthResponse → Body
  group : Group → Body
  accepted : CommandResponse → Body
  text : String → Body
  failure : Error → Body

pub record Response : Type 0 where
  pub status : ℕ
  pub body : Body

-- What the handlers share: the store of identities, the read model, the bus and the limiter.
pub record Server : Type 0 where
  pub identity : Repository.World
  pub todos : DataSink.World
  pub bus : Bus
  pub limiter : IpRateLimiter

abbrev pub Handler : Type 0
Handler = Server → Response × Server

unfoldable pub reply : ℕ → Body → Handler
reply status body s = (record { status = status; body = body }, s)

abbrev pub status_text : ℕ → String → Response
status_text status message = record { status = status; body = text message }

abbrev pub status_error : ℕ → Error → Response
status_error status e = record { status = status; body = failure e }

abbrev pub bad_json : Response
bad_json = status_text 400 "invalid JSON payload"

abbrev pub with_body {ℓ} : {R : Type ℓ} → Option R → (R → Handler) → Handler
with_body none handler s = (bad_json, s)
with_body (some req) handler s = handler req s

abbrev answered {ℓ} : {A : Type ℓ} → (A → Response) → (Error → Response) → Result A → Response
answered good bad (ok a) = good a
answered good bad (err e) = bad e

-- A call of the identity service and what is written for its outcome.
abbrev pub on_identity :
    {A : Type 0} → Exec Repository.World A → (A → Response) → (Error → Response) → Handler
on_identity m good bad s =
    let (r, w) = m s.identity in (answered good bad r, record s { identity = w })

-- The switches on the error.
unfoldable pub register_failed : Error → Response
register_failed invalid_username = status_error 400 invalid_username
register_failed invalid_password = status_error 400 invalid_password
register_failed e =
    if is_duplicate e then status_text 409 "username already exists" else status_error 500 e

unfoldable pub login_failed : Error → Response
login_failed invalid_credentials = status_error 401 invalid_credentials
login_failed e = status_error 500 e

unfoldable pub refresh_failed : Error → Response
refresh_failed refresh_token_missing = status_error 400 refresh_token_missing
refresh_failed invalid_refresh_token = status_error 401 invalid_refresh_token
refresh_failed e = status_error 500 e

unfoldable pub logout_failed : Error → Response
logout_failed refresh_token_missing = status_error 400 refresh_token_missing
logout_failed e = status_error 500 e

unfoldable pub create_group_failed : Error → Response
create_group_failed invalid_group_name = status_error 400 invalid_group_name
create_group_failed e = status_error 500 e

unfoldable pub delete_group_failed : Error → Response
delete_group_failed invalid_group_id = status_error 400 invalid_group_id
delete_group_failed forbidden_group = status_error 403 forbidden_group
delete_group_failed forbidden_role = status_error 403 forbidden_role
delete_group_failed not_found = status_text 404 "group not found"
delete_group_failed e = status_error 500 e

-- The same switch stands in `handleAddMember` and in `handleUpdateMemberRole`.
unfoldable pub member_failed : Error → Response
member_failed invalid_group_id = status_error 400 invalid_group_id
member_failed invalid_username = status_error 400 invalid_username
member_failed invalid_role = status_error 400 invalid_role
member_failed forbidden_group = status_error 403 forbidden_group
member_failed forbidden_role = status_error 403 forbidden_role
member_failed not_found = status_text 404 "user not found"
member_failed e = status_error 500 e

unfoldable pub membership_failed : Error → Response
membership_failed invalid_group_id = status_error 400 invalid_group_id
membership_failed forbidden_group = status_error 403 forbidden_group
membership_failed e = status_error 500 e

unfoldable pub todo_failed : Error → Response
todo_failed todo_not_found = status_text 404 "todo not found"
todo_failed e = status_error 500 e

unfoldable pub accept_failed : Error → Response
accept_failed title_required = status_error 400 title_required
accept_failed group_required = status_error 400 group_required
accept_failed todo_id_required = status_error 400 todo_id_required
accept_failed unsupported_action = status_error 400 unsupported_action
accept_failed e = status_error 500 e

pub record RegisterRequest : Type 0 where
  pub username : String
  pub password : String

pub record MemberRequest : Type 0 where
  pub username : String
  pub role : String

abbrev pub created : Body → Response
created body = record { status = 201; body = body }

abbrev pub fine : Body → Response
fine body = record { status = 200; body = body }

abbrev pub no_content : Response
no_content = record { status = 204; body = empty }

module _ (svc : Service.Service) where
  unfoldable pub handle_register : Option RegisterRequest → Handler
  unfolding register_failed
  handle_register body = with_body body λ req.
      on_identity (Service.register svc req.username req.password) (λ r. created (session r))
        register_failed

  unfoldable pub handle_login : Option RegisterRequest → Handler
  unfolding login_failed
  handle_login body = with_body body λ req.
      on_identity (Service.login svc req.username req.password) (λ r. fine (session r)) login_failed

  unfoldable pub handle_refresh : Option String → Handler
  unfolding refresh_failed
  handle_refresh body =
      with_body body
        λ token. on_identity (Service.refresh svc token) (λ r. fine (session r)) refresh_failed

  unfoldable pub handle_logout : Option String → Handler
  unfolding logout_failed
  handle_logout body =
      with_body body λ token. on_identity (Service.logout svc token) (λ _. no_content) logout_failed

  unfoldable pub handle_create_group : Claims → Option String → Handler
  unfolding create_group_failed
  handle_create_group claims body = with_body body λ name.
      on_identity (Service.create_group svc claims.subject name) (λ g. created (group g))
        create_group_failed

unfoldable pub handle_delete_group : Claims → String → Handler
unfolding delete_group_failed
handle_delete_group claims group_id =
    on_identity (Service.delete_group claims.subject group_id) (λ _. no_content) delete_group_failed

unfoldable pub handle_add_member : Claims → String → Option MemberRequest → Handler
unfolding member_failed
handle_add_member claims group_id body = with_body body λ req.
    on_identity (Service.add_member_by_username claims.subject group_id req.username req.role)
      (λ _. no_content) member_failed

unfoldable pub handle_update_member_role : Claims → String → Option MemberRequest → Handler
unfolding member_failed
handle_update_member_role claims group_id body = with_body body λ req.
    on_identity
      (Service.update_member_role_by_username claims.subject group_id req.username req.role)
      (λ _. no_content) member_failed
