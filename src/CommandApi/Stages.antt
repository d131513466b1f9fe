-- ===== src/CommandApi/Stages.antt =====
-- A command at each of its stages: accepted by internal/app/commandapi, handled by internal/app/domainengine, applied
-- by internal/app/datasink.
use todo_1m.Prelude.{
  ℕ, suc, ◌≡◌, refl, inl, inr, String, true, false, List, [], ◌∷◌, pos, ◌==◌, eq_iff, trim_space,
  to_lower, Bool-cases, arith,
}
use todo_1m.Errors.{ok, err, unsupported_action}
use todo_1m.Exec.{◌>>=◌, lift, pure, gets}
use todo_1m.Contracts.{TodoCommand, TodoEvent, Json, RoundTrips}
use todo_1m.Sharding.{get_shard_id, get_subject}
use todo_1m.Bus.{Message, Bus, publish, draw_id}
use todo_1m.CommandApi.{
  Actor, CreateTodoRequest, normalize_action, check_request, or_else, unless_blank, accept,
}
use todo_1m.ReadModel.{ReadModel}
use todo_1m.DataSink
use todo_1m.DataSink.{insert_event, fits_integer}
use todo_1m.DataSink.Projection.{is_supported, project, insert_event_succeeds}
use todo_1m.DomainEngine
use todo_1m.DomainEngine.{map_event_type, event_subject, event_of, shard_from_subject}
use todo_1m.DomainEngine.Subjects.{shard_from_subject-get_subject, get_shard_id-bounded}

-- The type of event that each action of a command becomes.
pub data Becomes : String → String → Type 0 where
  create : Becomes "create-todo" "todo.created"
  update : Becomes "update-todo" "todo.updated"
  delete : Becomes "delete-todo" "todo.deleted"

unfoldable pub Known : String → Type 0
Known action = (event_type : String) × Becomes action event_type

check_request-unknown :
    (action todo_id title : String)
    → (action == "create-todo") ≡ false
    → (action == "update-todo") ≡ false
    → (action == "delete-todo") ≡ false
    → check_request action todo_id title ≡ err unsupported_action
unfolding check_request
check_request-unknown action todo_id title nc nu nd = rw (nc, nu, nd) refl

pub check_request-Known :
    (action todo_id title : String) → check_request action todo_id title ≡ ok tt → Known action
unfolding check_request Known
check_request-Known action todo_id title h = elim (Bool-cases (action == "create-todo")) [
  | inl c ↦ ("todo.created", rw ((eq_iff action "create-todo").0 c) create)
  | inr nc ↦ elim (Bool-cases (action == "update-todo")) [
    | inl u ↦ ("todo.updated", rw ((eq_iff action "update-todo").0 u) update)
    | inr nu ↦ elim (Bool-cases (action == "delete-todo")) [
      | inl d ↦ ("todo.deleted", rw ((eq_iff action "delete-todo").0 d) delete)
      | inr nd ↦ absurd (cc (h, check_request-unknown action todo_id title nc nu nd))
    ]
  ]
]

map_event_type-Becomes :
    (action event_type : String) → Becomes action event_type → map_event_type action ≡ ok event_type
unfolding map_event_type trim_space to_lower
map_event_type-Becomes _ _ create = refl
map_event_type-Becomes _ _ update = refl
map_event_type-Becomes _ _ delete = refl

-- The command that an accepted request makes.
unfoldable pub command_for : Actor → CreateTodoRequest → String → ℕ → TodoCommand
command_for actor req id now = record {
  command_id = id;
  todo_id = or_else (trim_space req.todo_id) id;
  actor_user_id = unless_blank actor.user_id "user-1";
  actor_name = unless_blank actor.username "unknown";
  group_id = trim_space req.group_id;
  action = normalize_action req.action;
  title = trim_space req.title;
  created_at = now;
}

-- A request that names a group and carries what its action needs.
pub record IsValid (req : CreateTodoRequest) : Type 0 where
  pub has_group : (trim_space req.group_id == "") ≡ false
  pub has_fields :
      check_request (normalize_action req.action) (trim_space req.todo_id) (trim_space req.title)
      ≡ ok tt

-- A bus that takes every message.
abbrev pub quiet : List Message → ℕ → ℕ → Bus
quiet published ids now = record { published = published; faults = []; ids = ids; now = now }

pub Becomes-is_supported :
    (action event_type : String)
    → Becomes action event_type
    → (e : TodoEvent) → e.event_type ≡ event_type
    → is_supported e ≡ true
Becomes-is_supported _ _ create e h = rw h refl
Becomes-is_supported _ _ update e h = rw h refl
Becomes-is_supported _ _ delete e h = rw h refl

-- A database that answers.
abbrev pub world : ReadModel → ℕ → DataSink.World
world m at = record { tables = m; faults = []; ids = 0; now = at }

module _ (j : Json) (nth_id : ℕ → String) where
  pub accept-ok :
      (actor : Actor) (req : CreateTodoRequest) (sent : List Message) (ids now : ℕ)
      → IsValid req
      → accept j nth_id actor req (quiet sent ids now) ≡ (
        ok (record {
          status = "accepted";
          command_id = nth_id ids;
          todo_id = or_else (trim_space req.todo_id) (nth_id ids);
        }),
        quiet
            (record {
              subject = get_subject "group" (trim_space req.group_id);
              payload = j.marshal_command (command_for actor req (nth_id ids) now);
            }
              ∷ sent)
            (suc ids)
            now,
      )
  unfolding accept command_for ◌>>=◌ lift pure gets draw_id publish
  accept-ok actor req sent ids now v = rw (v.has_group, v.has_fields) refl

  pub handle-ok :
      (cmd : TodoCommand) (event_type : String) (sent : List Message) (ids now : ℕ)
      → RoundTrips j
      → Becomes cmd.action event_type
      → DomainEngine.handle j nth_id
          (get_subject "group" cmd.group_id)
          (j.marshal_command cmd)
          (quiet sent ids now)
        ≡ (
          ok tt,
          quiet
              (record {
                subject =
                    event_subject
                      (event_of cmd event_type (nth_id ids) now (pos (get_shard_id cmd.group_id)));
                payload =
                    j.marshal_event
                      (event_of cmd event_type (nth_id ids) now (pos (get_shard_id cmd.group_id)));
              }
                ∷ sent)
              (suc ids)
              now,
        )
  unfolding DomainEngine.handle ◌>>=◌ lift pure gets draw_id publish
  handle-ok cmd event_type sent ids now rt b =
      rw
        (
          rt.command cmd,
          map_event_type-Becomes cmd.action event_type b,
          shard_from_subject-get_subject "group" cmd.group_id cmd.group_id,
        )
        refl

sunk :
    (e : TodoEvent) (seq at : ℕ) (m : ReadModel)
    → is_supported e ≡ true
    → fits_integer e.shard_id ≡ true
    → ((insert_event e seq (world m at)).0 ≡ ok tt)
      × ((insert_event e seq (world m at)).1.tables ≡ project e seq at m)
sunk e seq at m known fits = insert_event_succeeds e seq 0 at m known fits

pub handle-sunk :
    (j : Json) (e : TodoEvent) (seq at : ℕ) (m : ReadModel)
    → RoundTrips j
    → is_supported e ≡ true
    → fits_integer e.shard_id ≡ true
    → ((DataSink.handle j (j.marshal_event e) seq (world m at)).0 ≡ ok tt)
      × ((DataSink.handle j (j.marshal_event e) seq (world m at)).1.tables ≡ project e seq at m)
unfolding DataSink.handle ◌>>=◌ lift
handle-sunk j e seq at m rt known fits = rw (rt.event e) (sunk e seq at m known fits)

-- The shard of a group is an integer of Postgres.
pub shard-fits : (id : String) → fits_integer (pos (get_shard_id id)) ≡ true
unfolding fits_integer
shard-fits id = ground (arith, get_shard_id-bounded id)
