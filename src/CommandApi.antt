-- ===== src/CommandApi.antt =====
-- internal/app/commandapi/service.go: what a client asks for becomes a command on the bus.
pub mod Limiter
pub mod Origin
pub mod Stages
pub mod Pipeline
pub mod Http
use todo_1m.Prelude.{ℕ, String, Bool, if◌then◌else◌, ◌==◌, trim_space, to_lower}
use todo_1m.Errors.{
  Error, Result, ok, err, group_required, title_required, todo_id_required, unsupported_action,
}
use todo_1m.Exec.{Exec, pure, gets, lift, ◌>>=◌, ◌>>◌}
use todo_1m.Contracts.{TodoCommand, Json}
use todo_1m.Sharding.{get_subject}
use todo_1m.Bus.{Bus, publish, draw_id}

pub record Actor : Type 0 where
  pub user_id : String
  pub username : String

pub record CreateTodoRequest : Type 0 where
  pub action : String
  pub todo_id : String
  pub title : String
  pub group_id : String

pub record CommandResponse : Type 0 where
  pub status : String
  pub command_id : String
  pub todo_id : String

unfoldable pub normalize_action : String → String
normalize_action action =
    let a = trim_space (to_lower action) in if a == "" then "create-todo" else a

abbrev pub present : String → Error → Result (Unit {0})
present s e = if s == "" then err e else ok tt

-- The switch on the action: what a command of each kind must carry.
unfoldable pub check_request : String → String → String → Result (Unit {0})
check_request action todo_id title =
    if action == "create-todo"
    then present title title_required
    else if action == "update-todo"
    then (if todo_id == "" then err todo_id_required else present title title_required)
    else if action == "delete-todo"
    then present todo_id todo_id_required
    else err unsupported_action

abbrev pub or_else : String → String → String
or_else s fallback = if s == "" then fallback else s

-- An actor without a name: the field is replaced where it is blank, and kept as it is elsewhere.
unfoldable pub unless_blank : String → String → String
unless_blank s fallback = if trim_space s == "" then fallback else s

module _ (j : Json) (nth_id : ℕ → String) where
  -- `Service.Accept`. The JSON of a command can always be made.
  unfoldable pub accept : Actor → CreateTodoRequest → Exec Bus CommandResponse
  unfolding unless_blank
  accept actor req = do
    let group_id = trim_space req.group_id
    lift (present group_id group_required)
    let action = normalize_action req.action
    let todo_id = trim_space req.todo_id
    let title = trim_space req.title
    lift (check_request action todo_id title)
    command_id ← draw_id nth_id
    now ← gets (λ b. b.now)
    let cmd : TodoCommand = record {
      command_id = command_id;
      todo_id = or_else todo_id command_id;
      actor_user_id = unless_blank actor.user_id "user-1";
      actor_name = unless_blank actor.username "unknown";
      group_id = group_id;
      action = action;
      title = title;
      created_at = now;
    }
    publish (get_subject "group" group_id) (j.marshal_command cmd)
    pure (record { status = "accepted"; command_id = cmd.command_id; todo_id = cmd.todo_id })
