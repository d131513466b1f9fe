-- ===== src/Tests/Witnesses.antt =====
-- The theorems at concrete inputs.
use todo_1m.Prelude.{
  ◌+◌, ◌-◌, ◌/◌, ◌≡◌, ◌≢◌, refl, ◌⊎◌, String, List, [], ◌∷◌, some, find, any, update_where, pos,
  trim_space, leb, if◌then◌else◌, itoa, arith, to_lower,
}
use todo_1m.Errors.{Result, ok, err, expired_token}
use todo_1m.Exec.{◌>>=◌, pure, raise, gets, lift, on_error}
use todo_1m.Postgres.{database}
use todo_1m.Postgres.Atomic.{Failed, Same}
use todo_1m.Platform.Auth.{sign, parse}
use todo_1m.Platform.Auth
use todo_1m.Platform.Auth.Tokens.{token_lifetime, claims_at}
use todo_1m.Identity.Repository.{
  role_owner, role_member, create_refresh_token, revoke_refresh_token, find_user_by_id,
  find_refresh_token_by_hash,
}
use todo_1m.Identity.Tables.{select_live_token, update_revoked, select_user_by_id, insert_token}
use todo_1m.Identity.Service
use todo_1m.Identity.Service.{AuthResponse}
use todo_1m.Identity.Requests.{Arrival, registers, deletes, adds, serve_all}
use todo_1m.Identity.Ownership.{creator_of, OwnersFounded, serve_all-OwnersFounded}
use todo_1m.Identity.Sessions.{UniqueHashes}
use todo_1m.Identity.Reuse.{refresh_token_single_use}
use todo_1m.Identity.Atomic.{group_requests_atomic}
use todo_1m.Identity.Access.{role_in, MayAdd, add_member_authorized, owner_only}
use todo_1m.Identity.Demotion.{Meeting, admin_demotes_owner}
use todo_1m.DataSink
use todo_1m.DataSink.{is_undeleted, updated_todo, insert_event}
use todo_1m.DataSink.Projection.{project}
use todo_1m.DomainEngine
use todo_1m.DomainEngine.{shard_from_subject}
use todo_1m.Query.{list_group_todos}
use todo_1m.Query.Listing.{Listed, list_group_todos-IsPage}
use todo_1m.CommandApi.{accept, normalize_action, check_request}
use todo_1m.CommandApi.Pipeline.{Journey, command_reaches_read_model}
use todo_1m.CommandApi.Stages
use todo_1m.CommandApi.Stages.{IsValid, quiet}
use todo_1m.CommandApi.Http.Command.{create_command}
use todo_1m.CommandApi.Http.Guards.{Guarded, create_command_guarded}
use todo_1m.CommandApi.Limiter.Window.{admitted, requests, smaller, window_exact}
use todo_1m.CommandApi.Limiter.Window
use todo_1m.Tests.Codecs.{plain, plain-IsCodec}
use todo_1m.Tests.Codecs.Messages.{dotted, dotted-RoundTrips}
use todo_1m.Tests.Data.{
  nuid, secret, service, ann, owner_row, admin_row, tables, world, model, actor, request, claims,
  limiter, server,
}

request-IsValid : IsValid request
unfolding trim_space to_lower normalize_action check_request
request-IsValid = record { has_group = refl; has_fields = refl }

command_reaches_read_model_example :
    (t : Journey) × (accept dotted nuid actor request (quiet [] 0 10)
      ≡ (ok t.response, quiet (t.command_message ∷ []) 1 10))
    × (DomainEngine.handle dotted nuid t.command_message.subject t.command_message.payload
          (quiet [] 5 11)
        ≡ (ok tt, quiet (t.event_message ∷ []) 6 11))
    × ((DataSink.handle dotted t.event_message.payload 1 (Stages.world model 12)).0 ≡ ok tt)
    × ((DataSink.handle dotted t.event_message.payload 1 (Stages.world model 12)).1.tables
        ≡ project t.event 1 12 model)
    × (t.event.command_id ≡ t.response.command_id)
    × (t.event.todo_id ≡ t.response.todo_id)
    × (t.event.group_id ≡ trim_space request.group_id)
    × (t.event.title ≡ trim_space request.title)
command_reaches_read_model_example =
    command_reaches_read_model dotted nuid nuid actor request [] [] 0 10 5 11 1 12 model
      dotted-RoundTrips request-IsValid

create_command_guarded_example :
    Guarded claims request server (create_command dotted nuid claims request server)
create_command_guarded_example = create_command_guarded dotted nuid claims request server

tables-OwnersFounded : OwnersFounded tables
unfolding creator_of
tables-OwnersFounded = record { owners = (λ h. refl, (λ h. absurd (cc), tt)) }

abbrev visits : List Arrival
visits =
    record { request = adds "u2" "g1" "ann" ""; at = 20; faults = [] }
    ∷ record { request = registers "Cid" "password3"; at = 21; faults = [] }
    ∷ record { request = deletes "u2" "g1"; at = 22; faults = [] }
    ∷ []

serve_all-OwnersFounded_example : OwnersFounded (serve_all service visits world).tables
serve_all-OwnersFounded_example = serve_all-OwnersFounded service visits world tables-OwnersFounded

tables-UniqueHashes : UniqueHashes tables
unfolding any
tables-UniqueHashes = record { distinct = (refl, tt) }

abbrev text_of : Result String → String
text_of (ok s) = s
text_of (err e) = ""

abbrev new_session : AuthResponse
new_session = record {
  access_token = text_of (sign plain secret 10 "u1" "ann");
  refresh_token = "id0.id1";
  user_id = "u1";
  username = "ann";
}

refreshed : (Service.refresh service "token" world).0 ≡ ok new_session
unfolding Service.refresh Service.issue_session Service.new_id ◌>>=◌ pure raise gets lift on_error
    find_refresh_token_by_hash revoke_refresh_token find_user_by_id create_refresh_token sign
    trim_space itoa find update_where any database select_live_token update_revoked
    select_user_by_id insert_token Service.instead_of_not_found
refreshed = refl

refresh_token_single_use_example :
    (Service.refresh service "token"
      (serve_all service visits (Service.refresh service "token" world).1)).0
    ≢ ok new_session
refresh_token_single_use_example =
    refresh_token_single_use service "token" world new_session new_session visits
      tables-UniqueHashes refreshed

group_requests_atomic_example :
    Failed (Same tables) (Service.create_group service "u3" "g1" world)
    × Failed (Same tables) (Service.delete_group "u3" "g1" world)
    × Failed (Same tables) (Service.add_member_by_username "u3" "g1" "ann" "member" world)
    × Failed (Same tables) (Service.update_member_role_by_username "u3" "g1" "ann" "member" world)
group_requests_atomic_example = group_requests_atomic service "u3" "g1" "ann" "member" world

add_member_authorized_example :
    ((Service.add_member_by_username "u2" "g1" "ann" "" world).1.tables ≡ tables)
    ⊎ MayAdd tables "u2" "g1" ""
add_member_authorized_example = add_member_authorized "u2" "g1" "ann" "" world

owner_only_example :
    (((Service.delete_group "u1" "g1" world).1.tables ≡ tables)
      ⊎ (role_in tables "u1" (trim_space "g1") ≡ some role_owner))
    × (((Service.update_member_role_by_username "u1" "g1" "bob" "member" world).1.tables ≡ tables)
        ⊎ (role_in tables "u1" (trim_space "g1") ≡ some role_owner))
owner_only_example = owner_only "u1" "g1" "bob" "member" world

meeting : Meeting tables "g1" "u2" ann
unfolding trim_space to_lower Service.normalize_username find
meeting = record {
  trimmed = refl;
  named = refl;
  normal = refl;
  has_name = refl;
  admin_row = (admin_row, refl, refl);
  owner_user = refl;
  owner_row = (owner_row, refl, refl);
}

admin_demotes_owner_example :
    (role_in tables "u1" "g1" ≡ some role_owner)
    × ((Service.add_member_by_username "u2" "g1" "ann" "" world).0 ≡ ok tt)
    × (role_in (Service.add_member_by_username "u2" "g1" "ann" "" world).1.tables "u1" "g1"
        ≡ some role_member)
admin_demotes_owner_example = admin_demotes_owner tables "g1" "u2" ann 0 10 meeting

abbrev page_world : DataSink.World
page_world = record { tables = model; faults = []; ids = 0; now = 10 }

list_group_todos-IsPage_example :
    Listed "g1" (pos 20) page_world (list_group_todos "g1" (pos 20) page_world)
list_group_todos-IsPage_example = list_group_todos-IsPage "g1" (pos 20) page_world

token_lifetime_example :
    (t : String) × (sign plain secret 100_000_000_000 "u1" "ann" ≡ ok t)
    × (parse plain secret 200_000_000_000 t ≡ (
        if leb ((100_000_000_000 + 900_000_000_000) / Auth.second) (200_000_000_000 / Auth.second)
        then err expired_token
        else ok (claims_at secret 100_000_000_000 "u1" "ann")))
token_lifetime_example =
    token_lifetime plain secret 100_000_000_000 200_000_000_000 "u1" "ann" plain-IsCodec refl refl
      (omega arith)

abbrev asked : List Window.Arrival
asked =
    record { key = "10.0.0.1"; at = 110 }
    ∷ record { key = "10.0.0.2"; at = 111 }
    ∷ record { key = "10.0.0.1"; at = 112 }
    ∷ record { key = "10.0.0.1"; at = 113 }
    ∷ []

window_exact_example :
    admitted "10.0.0.1" asked limiter ≡ smaller (3 - 1) (requests "10.0.0.1" asked)
unfolding find
window_exact_example =
    window_exact asked limiter (record { key = "10.0.0.1"; window_start = 100; count = 1 }) refl
      (omega arith, (omega arith, (omega arith, (omega arith, tt))))
