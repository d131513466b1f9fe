-- ===== src/Identity/Kept.antt =====
-- What the repository's methods keep, given that the statements which change rows do.
use todo_1m.Prelude.{ℕ, String, Bool}
use todo_1m.Exec.{◌>>=◌}
use todo_1m.Exec.Invariants.{Holds}
use todo_1m.Postgres.{database}
use todo_1m.Postgres.Invariants.{
  After, After-bind, After-database, Holds-database, Holds-transaction, InTables, table_rules,
}
use todo_1m.Identity.Tables
use todo_1m.Identity.Tables.{Tables, User, Group, RefreshToken, insert_group, upsert_member}
use todo_1m.Identity.Repository
use todo_1m.Identity.Repository.{
  World, role_owner, create_user, find_user_by_username, find_user_by_id,
  add_user_to_group_by_username_with_role, set_user_role_by_username, get_membership_role,
  list_groups_for_user, create_refresh_token, find_refresh_token_by_hash, revoke_refresh_token,
  found_or_not,
}
use todo_1m.Identity.Invariants.{Kept}
use todo_1m.Prelude.{◌≡◌, false, ◌==◌}

-- Reading keeps everything.
module _ {P : Tables → Type 0} where
  pub found-kept : (b : Bool) → Holds (InTables P) (found_or_not b)
  found-kept b = search table_rules

  pub by_username-kept : (name : String) → Holds (InTables P) (find_user_by_username name)
  unfolding find_user_by_username Tables.select_user_by_username
  by_username-kept name = Holds-database _ (λ t p. p)

  pub by_id-kept : (id : String) → Holds (InTables P) (find_user_by_id id)
  unfolding find_user_by_id Tables.select_user_by_id
  by_id-kept id = Holds-database _ (λ t p. p)

  pub role-kept : (u g : String) → Holds (InTables P) (get_membership_role u g)
  unfolding get_membership_role Tables.select_role
  role-kept u g = Holds-database _ (λ t p. p)

  pub groups-kept : (u : String) → Holds (InTables P) (list_groups_for_user u)
  unfolding list_groups_for_user Tables.select_groups
  groups-kept u = Holds-database _ (λ t p. p)

  pub by_name-kept :
      (name : String) → Holds (InTables P) (database (Tables.select_user_by_username name))
  unfolding Tables.select_user_by_username
  by_name-kept name = Holds-database _ (λ t p. p)

  live-kept :
      (h : String) (now : ℕ) → Holds (InTables P) (database (Tables.select_live_token h now))
  unfolding Tables.select_live_token
  live-kept h now = Holds-database _ (λ t p. p)

  pub by_hash-kept : (h : String) → Holds (InTables P) (find_refresh_token_by_hash h)
  unfolding find_refresh_token_by_hash
  by_hash-kept h = search (table_rules, live-kept)

module _ {P : Tables → Type 0} (k : Kept P) where
  pub create_user-kept : (u : User) → Holds (InTables P) (create_user u)
  unfolding create_user
  create_user-kept u = Holds-database _ (k.user u)

  pub creation-kept : (g : Group) (c : String) → Holds (InTables P) (Repository.create_group g c)
  unfolding Repository.create_group ◌>>=◌
  creation-kept g c = Holds-transaction _ λ w p.
      After-bind _ _ _ (database (insert_group g c w.now)) w
        (After-database (λ t. After P (upsert_member g.id c role_owner t)) _ w
          (k.creation g c w.now w.tables p))
        (λ _ v q. After-database P _ v q)

  deleted-kept : (g : String) → Holds (InTables P) (database (Tables.delete_group g))
  deleted-kept g = Holds-database _ (k.deletion g)

  pub deletion-kept : (g : String) → Holds (InTables P) (Repository.delete_group g)
  unfolding Repository.delete_group
  deletion-kept g = search (table_rules, deleted-kept, found-kept)

  member-kept :
      (g u r : String)
      → (r == role_owner) ≡ false
      → Holds (InTables P) (Repository.add_user_to_group_with_role g u r)
  unfolding Repository.add_user_to_group_with_role
  member-kept g u r h = Holds-database _ (k.member g u r h)

  pub addition-kept :
      (g u r : String)
      → (r == role_owner) ≡ false
      → Holds (InTables P) (add_user_to_group_by_username_with_role g u r)
  unfolding add_user_to_group_by_username_with_role
  addition-kept g u r h = search (table_rules, by_name-kept, member-kept)

  updated-kept :
      (g u r : String)
      → (r == role_owner) ≡ false
      → Holds (InTables P) (database (Tables.update_member_role g u r))
  updated-kept g u r h = Holds-database _ (k.role g u r h)

  pub change-kept :
      (g u r : String)
      → (r == role_owner) ≡ false
      → Holds (InTables P) (set_user_role_by_username g u r)
  unfolding set_user_role_by_username
  change-kept g u r h = search (table_rules, updated-kept, found-kept)

  pub token-kept : (r : RefreshToken) → Holds (InTables P) (create_refresh_token r)
  unfolding create_refresh_token
  token-kept r = Holds-database _ (k.token r)

  revoked-kept :
      (id : String) (now : ℕ) → Holds (InTables P) (database (Tables.update_revoked id now))
  revoked-kept id now = Holds-database _ (k.revocation id now)

  pub revocation-kept : (id : String) → Holds (InTables P) (revoke_refresh_token id)
  unfolding revoke_refresh_token
  revocation-kept id = search (table_rules, revoked-kept)
