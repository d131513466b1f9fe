-- ===== src/Identity/Service.antt =====
-- internal/app/identity/service.go: registration, sessions, groups and roles.
use todo_1m.Prelude.{
  ℕ, suc, ◌+◌, String, Bool, not, ◌&&◌, ◌||◌, List, Option, none, some, ltb, if◌then◌else◌, ◌==◌,
  trim_space, to_lower,
}
use todo_1m.Errors.{
  Error, Result, ok, err, invalid_username, invalid_password, invalid_group_name, invalid_group_id,
  invalid_role, invalid_credentials, forbidden_group, forbidden_role, refresh_token_missing,
  invalid_refresh_token, not_found, hash_failed,
}
use todo_1m.Exec.{Exec, pure, raise, gets, lift, ◌>>=◌, ◌>>◌, on_error}
use todo_1m.Platform.Auth
use todo_1m.Platform.Auth.{Codec, Manager, ◌+++◌}
use todo_1m.Identity.Tables.{User, Group, GroupMembership, RefreshToken}
use todo_1m.Identity.Repository
use todo_1m.Identity.Repository.{
  World, role_owner, role_admin, role_member, create_user, find_user_by_username, find_user_by_id,
  add_user_to_group_by_username_with_role, set_user_role_by_username, get_membership_role,
  list_groups_for_user, create_refresh_token, find_refresh_token_by_hash, revoke_refresh_token,
}

pub record AuthResponse : Type 0 where
  pub access_token : String
  pub refresh_token : String
  pub user_id : String
  pub username : String

-- The `Service` and the libraries that it calls: nuid's ids in the order in which they are drawn,
-- bcrypt, and the SHA-256 of a refresh token in hexadecimal.
pub record Service : Type 0 where
  pub codec : Codec
  pub auth_token : Manager
  pub refresh_ttl : ℕ
  pub nth_id : ℕ → String
  pub generate_from_password : String → Option String
  -- the hash, then the password
  pub compare_hash_and_password : String → String → Bool
  pub sha256_hex : String → String

unfoldable pub normalize_username : String → String
normalize_username username = to_lower (trim_space username)

-- `len` counts bytes.
unfoldable pub validate_credentials : String → String → Result (Unit {0})
unfolding normalize_username
validate_credentials username password =
    if normalize_username username == ""
    then err invalid_username
    else if ltb (Prim.Native.String.len (trim_space password)) 8
    then err invalid_password
    else ok tt

unfoldable pub is_valid_role : String → Bool
is_valid_role role =
    let r = trim_space role in (r == role_owner) || (r == role_admin) || (r == role_member)

unfoldable pub can_manage_members : String → Bool
can_manage_members role = (role == role_owner) || (role == role_admin)

unfoldable pub can_manage_roles : String → Bool
can_manage_roles role = role == role_owner

unfoldable pub can_moderate_messages : String → Bool
can_moderate_messages role = (role == role_owner) || (role == role_admin)

abbrev pub guard : Bool → Error → Exec World Unit
guard test e = if test then pure tt else raise e

-- `if errors.Is(err, ErrNotFound) { return other }; return err`
unfoldable pub instead_of_not_found : {A : Type 0} → Error → Error → Exec World A
instead_of_not_found other not_found = raise other
instead_of_not_found other e = raise e

unfoldable pub hashed : Option String → Exec World String
hashed none = raise hash_failed
hashed (some hash) = pure hash

-- An unknown or spent token is no error.
unfoldable pub revoke_found : Option RefreshToken → Exec World Unit
revoke_found none = pure tt
revoke_found (some session) = revoke_refresh_token session.token_id

unfoldable pub none_if_not_found : Error → Exec World (Option RefreshToken)
none_if_not_found not_found = pure none
none_if_not_found e = raise e

module _ (s : Service) where
  -- `s.NewID()`
  unfoldable pub new_id : Exec World String
  new_id w = (ok (s.nth_id w.ids), record w { ids = suc w.ids })

  unfoldable pub issue_session : User → Exec World AuthResponse
  issue_session user = do
    now ← gets (λ w. w.now)
    access_token ← lift (Auth.sign s.codec s.auth_token now user.id user.username)
    first ← new_id
    second ← new_id
    let refresh_token = first +++ "." +++ second
    token_id ← new_id
    create_refresh_token (record {
      token_id = token_id;
      user_id = user.id;
      token_hash = s.sha256_hex refresh_token;
      expires_at = now + s.refresh_ttl;
      revoked_at = none;
    })
    pure (record {
      access_token = access_token;
      refresh_token = refresh_token;
      user_id = user.id;
      username = user.username;
    })

  unfoldable pub register : String → String → Exec World AuthResponse
  unfolding normalize_username hashed
  register username password = do
    lift (validate_credentials username password)
    let uname = normalize_username username
    hash ← hashed (s.generate_from_password password)
    id ← new_id
    let u : User = record { id = id; username = uname; password_hash = hash }
    create_user u
    issue_session u

  unfoldable pub login : String → String → Exec World AuthResponse
  unfolding normalize_username instead_of_not_found
  login username password = do
    let uname = normalize_username username
    guard (not (uname == "" || trim_space password == "")) invalid_credentials
    u ← on_error (find_user_by_username uname) (instead_of_not_found invalid_credentials)
    guard (s.compare_hash_and_password u.password_hash password) invalid_credentials
    issue_session u

  unfoldable pub refresh : String → Exec World AuthResponse
  unfolding instead_of_not_found
  refresh refresh_token = do
    let token = trim_space refresh_token
    guard (not (token == "")) refresh_token_missing
    session ←
        on_error (find_refresh_token_by_hash (s.sha256_hex token))
          (instead_of_not_found invalid_refresh_token)
    revoke_refresh_token session.token_id
    u ← find_user_by_id session.user_id
    issue_session u

  unfoldable pub logout : String → Exec World Unit
  unfolding none_if_not_found revoke_found
  logout refresh_token = do
    let token = trim_space refresh_token
    guard (not (token == "")) refresh_token_missing
    found ←
        on_error (do session ← find_refresh_token_by_hash (s.sha256_hex token); pure (some session))
          none_if_not_found
    revoke_found found

  unfoldable pub create_group : String → String → Exec World Group
  create_group actor_user_id name = do
    let name' = trim_space name
    guard (not (name' == "")) invalid_group_name
    id ← new_id
    let g : Group = record { id = id; name = name' }
    Repository.create_group g actor_user_id
    pure g

-- The role of the actor, for the operations that only a member may ask for.
unfoldable pub actor_role : String → String → Exec World String
unfolding instead_of_not_found
actor_role actor_user_id group_id =
    on_error (get_membership_role actor_user_id group_id) (instead_of_not_found forbidden_group)

unfoldable pub delete_group : String → String → Exec World Unit
unfolding actor_role
delete_group actor_user_id group_id = do
  let group_id' = trim_space group_id
  guard (not (group_id' == "")) invalid_group_id
  role ← actor_role actor_user_id group_id'
  guard (role == role_owner) forbidden_role
  Repository.delete_group group_id'

unfoldable pub add_member_by_username : String → String → String → String → Exec World Unit
unfolding normalize_username is_valid_role can_manage_members actor_role
add_member_by_username actor_user_id group_id username role = do
  let group_id' = trim_space group_id
  guard (not (group_id' == "")) invalid_group_id
  let username' = normalize_username username
  guard (not (username' == "")) invalid_username
  let trimmed = trim_space role
  let role' = if trimmed == "" then role_member else trimmed
  guard (not (not (is_valid_role role') || role' == role_owner)) invalid_role
  actor ← actor_role actor_user_id group_id'
  guard (can_manage_members actor) forbidden_role
  guard (not (not (actor == role_owner) && role' == role_admin)) forbidden_role
  add_user_to_group_by_username_with_role group_id' username' role'

unfoldable pub update_member_role_by_username : String → String → String → String → Exec World Unit
unfolding normalize_username is_valid_role can_manage_roles actor_role
update_member_role_by_username actor_user_id group_id username role = do
  let group_id' = trim_space group_id
  guard (not (group_id' == "")) invalid_group_id
  let username' = normalize_username username
  guard (not (username' == "")) invalid_username
  let role' = trim_space role
  guard (not (not (is_valid_role role') || role' == role_owner)) invalid_role
  actor ← actor_role actor_user_id group_id'
  guard (can_manage_roles actor) forbidden_role
  set_user_role_by_username group_id' username' role'

unfoldable pub list_groups : String → Exec World (List GroupMembership)
list_groups user_id = list_groups_for_user user_id

-- The group is looked up as it was sent, not trimmed.
unfoldable pub ensure_member_role : String → String → Exec World String
unfolding actor_role
ensure_member_role user_id group_id = do
  guard (not (trim_space group_id == "")) invalid_group_id
  actor_role user_id group_id
