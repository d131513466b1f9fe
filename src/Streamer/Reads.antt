-- ===== src/Streamer/Reads.antt =====
-- The handlers of /api/v1/groups, /api/v1/todos and /ui/workspace in cmd/sse-streamer/main.go. The method
-- of a request is GET.
pub mod Members
pub mod Workspace
use todo_1m.Prelude.{
  ℕ, String, Bool, true, false, find, List, [], Option, none, some, ℤ, pos, if◌then◌else◌, ◌==◌,
  ◌||◌, trim_space, atoi,
}
use todo_1m.Errors.{Error, Result, ok, err}
use todo_1m.Platform.Auth
use todo_1m.Platform.Auth.{Codec, Manager, Claims, bearer_token}
use todo_1m.Identity.Tables.{GroupMembership}
use todo_1m.Identity.Repository
use todo_1m.Identity.Repository.{is_user_in_group, list_groups_for_user}
use todo_1m.ReadModel.{TodoView}
use todo_1m.DataSink
use todo_1m.Query.{list_group_todos}
use todo_1m.Streamer.Pages.{Piece, render_groups_list, render_todo_list}

-- What is written: a status with a text or an error, or the rows as JSON.
pub data Reply : Type 0 where
  refused : ℕ → String → Reply
  failed : Error → Reply
  groups : List GroupMembership → Reply
  todos : List TodoView → Reply
  -- the pages of /ui/workspace, one after the other
  workspace : List Piece → List Piece → Reply

-- The two stores that a request reads.
pub record Stores : Type 0 where
  pub identity : Repository.World
  pub read_model : DataSink.World

abbrev pub Reading : Type 0
Reading = Stores → Reply × Stores

abbrev pub with_claims : (Claims → Reading) → Result Claims → Reading
with_claims next (ok claims) s = next claims s
with_claims next (err e) s = (refused 401 "invalid token", s)

-- `claimsFromAuthHeader`, of the header and the time, and what follows it.
unfoldable pub claims_from_auth_header : Codec → Manager → ℕ → String → (Claims → Reading) → Reading
claims_from_auth_header c m now header next s =
    let token = bearer_token header in
    if token == ""
    then (refused 401 "missing bearer token", s)
    else with_claims next (Auth.parse c m now token) s

abbrev pub listed : Result (List GroupMembership) → Reply
listed (ok rows) = groups rows
listed (err e) = failed e

abbrev pub page : Result (List TodoView) → Reply
page (ok rows) = todos rows
page (err e) = failed e

-- GET /api/v1/groups
unfoldable pub get_groups : Codec → Manager → ℕ → String → Reading
unfolding claims_from_auth_header
get_groups c m now header = claims_from_auth_header c m now header λ claims s.
    let (r, w) = list_groups_for_user claims.subject s.identity in
    (listed r, record s { identity = w })

-- A limit that is no number is the limit that is not given.
abbrev pub limit_or_default : Option ℤ → ℤ
limit_or_default none = pos 50
limit_or_default (some n) = n

unfoldable pub limit_of : String → ℤ
limit_of raw =
    let trimmed = trim_space raw in
    if trimmed == "" then pos 50 else limit_or_default (atoi trimmed)

abbrev pub read_page : String → ℤ → Reading
read_page group_id limit s =
    let (r, w) = list_group_todos group_id limit s.read_model in
    (page r, record s { read_model = w })

abbrev pub if_member : (Reading) → Stores → Result Bool × Repository.World → Reply × Stores
if_member next s (ok true, w) = next (record s { identity = w })
if_member next s (ok false, w) = (refused 403 "forbidden", record s { identity = w })
if_member next s (err e, w) = (failed e, record s { identity = w })

-- The part of GET /api/v1/todos after the token.
unfoldable pub todos_of : String → String → Claims → Reading
unfolding limit_of
todos_of group_id raw_limit claims s =
    let group = trim_space group_id in
    if group == ""
    then (refused 400 "group_id is required", s)
    else if_member (read_page group (limit_of raw_limit)) s
        (is_user_in_group claims.subject group s.identity)

-- GET /api/v1/todos, of the parameters group_id and limit.
unfoldable pub get_todos : Codec → Manager → ℕ → String → String → String → Reading
unfolding claims_from_auth_header todos_of
get_todos c m now header group_id raw_limit =
    claims_from_auth_header c m now header (todos_of group_id raw_limit)

abbrev pub has_group_id : String → GroupMembership → Bool
has_group_id id g = g.group_id == id

abbrev pub role_or_empty : Option GroupMembership → String
role_or_empty none = ""
role_or_empty (some g) = g.role

-- The role of the user in the group that is asked for, empty where it is none of the user's groups.
unfoldable pub active_role : String → List GroupMembership → String
active_role active_group_id gs = role_or_empty (find (has_group_id active_group_id) gs)

abbrev pub show_workspace :
    List GroupMembership
    → String
    → String
    → String
    → Stores
    → Result (List TodoView) × DataSink.World
    → Reply × Stores
show_workspace gs user role group s (ok rows, w) = (
  workspace (render_groups_list gs group) (render_todo_list rows user role group),
  record s { read_model = w },
)
show_workspace gs user role group s (err e, w) = (failed e, record s { read_model = w })

-- With the groups of the user. No group is active where there is no role.
unfoldable pub workspace_of_groups : String → String → List GroupMembership → Reading
unfolding active_role
workspace_of_groups user active_group_id gs s =
    let role = active_role active_group_id gs in
    if role == "" || active_group_id == ""
    then (workspace (render_groups_list gs "") (render_todo_list [] user role ""), s)
    else show_workspace gs user role active_group_id s
        (list_group_todos active_group_id (pos 50) s.read_model)

abbrev pub with_groups :
    (List GroupMembership → Reading)
    → Stores
    → Result (List GroupMembership) × Repository.World
    → Reply × Stores
with_groups next s (ok gs, w) = next gs (record s { identity = w })
with_groups next s (err e, w) = (failed e, record s { identity = w })

unfoldable pub workspace_of : String → Claims → Reading
unfolding workspace_of_groups
workspace_of group_id claims s =
    with_groups (workspace_of_groups claims.subject (trim_space group_id)) s
      (list_groups_for_user claims.subject s.identity)

-- GET /ui/workspace, of the parameter group_id.
unfoldable pub get_workspace : Codec → Manager → ℕ → String → String → Reading
unfolding claims_from_auth_header workspace_of
get_workspace c m now header group_id =
    claims_from_auth_header c m now header (workspace_of group_id)
