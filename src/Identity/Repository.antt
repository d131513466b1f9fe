-- ===== src/Identity/Repository.antt =====
-- The methods of `PostgresRepository` (internal/app/identity/repository.go).
use todo_1m.Prelude.{String, Bool, List, if◌then◌else◌}
use todo_1m.Errors.{not_found}
use todo_1m.Exec.{Exec, pure, raise, gets, ◌>>=◌, ◌>>◌}
use todo_1m.Postgres
use todo_1m.Postgres.{database, transaction}
use todo_1m.Identity.Tables
use todo_1m.Identity.Tables.{
  Tables, Statement, User, Group, Member, GroupMembership, RefreshToken, insert_user,
  select_user_by_username, select_user_by_id, insert_group, upsert_member, update_member_role,
  select_role, exists_membership, select_groups, insert_token, select_live_token, update_revoked,
}

abbrev pub World : Type 0
World = Postgres.World Tables

unfoldable pub create_user : User → Exec World Unit
create_user u = database (insert_user u)

unfoldable pub find_user_by_username : String → Exec World User
find_user_by_username name = database (select_user_by_username name)

unfoldable pub find_user_by_id : String → Exec World User
find_user_by_id id = database (select_user_by_id id)

abbrev pub role_owner : String
role_owner = "owner"

abbrev pub role_admin : String
role_admin = "admin"

abbrev pub role_member : String
role_member = "member"

unfoldable pub create_group : Group → String → Exec World Unit
create_group g creator_user_id = transaction do
  now ← gets (λ w. w.now)
  database (insert_group g creator_user_id now)
  database (upsert_member g.id creator_user_id role_owner)

abbrev pub found_or_not : Bool → Exec World Unit
found_or_not affected = if affected then pure tt else raise not_found

unfoldable pub delete_group : String → Exec World Unit
delete_group group_id = do affected ← database (Tables.delete_group group_id); found_or_not affected

unfoldable pub add_user_to_group_with_role : String → String → String → Exec World Unit
add_user_to_group_with_role group_id user_id role = database (upsert_member group_id user_id role)

unfoldable pub add_user_to_group_by_username_with_role : String → String → String → Exec World Unit
unfolding add_user_to_group_with_role
add_user_to_group_by_username_with_role group_id username role = do
  u ← database (select_user_by_username username)
  add_user_to_group_with_role group_id u.id role

unfoldable pub set_user_role_by_username : String → String → String → Exec World Unit
set_user_role_by_username group_id username role = do
  affected ← database (update_member_role group_id username role)
  found_or_not affected

unfoldable pub get_membership_role : String → String → Exec World String
get_membership_role user_id group_id = database (select_role user_id group_id)

unfoldable pub is_user_in_group : String → String → Exec World Bool
is_user_in_group user_id group_id = database (exists_membership user_id group_id)

unfoldable pub list_groups_for_user : String → Exec World (List GroupMembership)
list_groups_for_user user_id = database (select_groups user_id)

unfoldable pub create_refresh_token : RefreshToken → Exec World Unit
create_refresh_token token = database (insert_token token)

unfoldable pub find_refresh_token_by_hash : String → Exec World RefreshToken
find_refresh_token_by_hash hash = do now ← gets (λ w. w.now); database (select_live_token hash now)

unfoldable pub revoke_refresh_token : String → Exec World Unit
revoke_refresh_token token_id = do now ← gets (λ w. w.now); database (update_revoked token_id now)
