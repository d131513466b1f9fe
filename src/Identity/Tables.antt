-- ===== src/Identity/Tables.antt =====
-- The Postgres tables of internal/app/identity/repository.go with their keys, and the statements
-- that the repository sends, one function each. A table is the list of its rows, the newest first.
use todo_1m.Prelude.{
  ℕ, String, Bool, true, false, not, ◌&&◌, List, [], ◌∷◌, ◌++◌, Option, none, some, ltb, leb,
  if◌then◌else◌, find, select, any, update_where, ◌==◌,
}
use todo_1m.Postgres
use todo_1m.Errors.{Result, ok, err, duplicate_key, foreign_key, not_found}

pub record User : Type 0 where
  pub id : String
  pub username : String
  pub password_hash : String

pub record Group : Type 0 where
  pub id : String
  pub name : String

-- A row of `groups`: the group, who created it, and when.
pub record GroupRow : Type 0 where
  pub group : Group
  pub open group use *
  pub created_by : String
  pub created_at : ℕ

pub record Member : Type 0 where
  pub group_id : String
  pub user_id : String
  pub role : String

pub record GroupMembership : Type 0 where
  pub group_id : String
  pub group_name : String
  pub role : String

pub record RefreshToken : Type 0 where
  pub token_id : String
  pub user_id : String
  pub token_hash : String
  pub expires_at : ℕ
  pub revoked_at : Option ℕ

pub record Tables : Type 0 where
  pub users : List User
  pub groups : List GroupRow
  pub members : List Member
  pub tokens : List RefreshToken

-- The tests of the WHERE clauses and of the keys.
abbrev pub has_id : String → User → Bool
has_id id u = u.id == id

abbrev pub has_username : String → User → Bool
has_username name u = u.username == name

abbrev pub is_group : String → GroupRow → Bool
is_group id g = g.id == id

abbrev pub is_membership : String → String → Member → Bool
is_membership group_id user_id m = (m.group_id == group_id) && (m.user_id == user_id)

abbrev pub in_group : String → Member → Bool
in_group group_id m = m.group_id == group_id

abbrev pub has_token_id : String → RefreshToken → Bool
has_token_id id t = t.token_id == id

abbrev pub has_hash : String → RefreshToken → Bool
has_hash hash t = t.token_hash == hash

abbrev pub is_none {ℓ} : {A : Type ℓ} → Option A → Bool
is_none none = true
is_none (some a) = false

-- token_hash = $1 AND revoked_at IS NULL AND expires_at > now()
abbrev pub is_live : String → ℕ → RefreshToken → Bool
is_live hash now t = has_hash hash t && is_none t.revoked_at && ltb now t.expires_at

abbrev pub Statement : Type 0 → Type 0
Statement A = Postgres.Statement Tables A

abbrev pub row_or_not_found {ℓ} : {A : Type ℓ} → Option A → Result A
row_or_not_found none = err not_found
row_or_not_found (some a) = ok a

-- INSERT INTO users: the id is the primary key and the username is UNIQUE.
unfoldable pub insert_user : User → Statement Unit
insert_user u t =
    if any (has_id u.id) t.users
    then (err duplicate_key, t)
    else if any (has_username u.username) t.users
    then (err duplicate_key, t)
    else (ok tt, record t { users = u ∷ t.users })

unfoldable pub select_user_by_username : String → Statement User
select_user_by_username name t = (row_or_not_found (find (has_username name) t.users), t)

unfoldable pub select_user_by_id : String → Statement User
select_user_by_id id t = (row_or_not_found (find (has_id id) t.users), t)

-- INSERT INTO groups: the id is the primary key and created_by references users.
unfoldable pub insert_group : Group → String → ℕ → Statement Unit
insert_group g creator now t =
    if any (is_group g.id) t.groups
    then (err duplicate_key, t)
    else if any (has_id creator) t.users
    then (
      ok tt,
      record t { groups = record { group = g; created_by = creator; created_at = now } ∷ t.groups },
    )
    else (err foreign_key, t)

abbrev pub with_role : String → Member → Member
with_role role m = record m { role = role }

-- INSERT INTO group_members … ON CONFLICT (group_id, user_id) DO UPDATE SET role = EXCLUDED.role:
-- both columns are foreign keys.
unfoldable pub upsert_member : String → String → String → Statement Unit
upsert_member group_id user_id role t =
    if any (is_membership group_id user_id) t.members
    then (
      ok tt,
      record t {
        members = update_where (is_membership group_id user_id) (with_role role) t.members;
      },
    )
    else if any (is_group group_id) t.groups && any (has_id user_id) t.users
    then (
      ok tt,
      record t {
        members = record { group_id = group_id; user_id = user_id; role = role } ∷ t.members;
      },
    )
    else (err foreign_key, t)

-- DELETE FROM groups, which cascades to group_members; the number of rows affected, as a test.
unfoldable pub delete_group : String → Statement Bool
delete_group group_id t =
    if any (is_group group_id) t.groups
    then (
      ok true,
      record t {
        groups = select (λ g. not (is_group group_id g)) t.groups;
        members = select (λ m. not (in_group group_id m)) t.members;
      },
    )
    else (ok false, t)

-- UPDATE group_members gm SET role = $3 FROM users u WHERE gm.group_id = $1 AND gm.user_id = u.id AND
-- u.username = $2. The username is UNIQUE, so one user at most joins.
unfoldable pub update_member_role : String → String → String → Statement Bool
update_member_role group_id username role t = elim (find (has_username username) t.users) [
  | none ↦ (ok false, t)
  | some u ↦ (
    ok (any (is_membership group_id u.id) t.members),
    record t { members = update_where (is_membership group_id u.id) (with_role role) t.members },
  )
]

abbrev pub role_of : Option Member → Result String
role_of none = err not_found
role_of (some m) = ok m.role

unfoldable pub select_role : String → String → Statement String
select_role user_id group_id t = (role_of (find (is_membership group_id user_id) t.members), t)

unfoldable pub exists_membership : String → String → Statement Bool
exists_membership user_id group_id t = (ok (any (is_membership group_id user_id) t.members), t)

-- ORDER BY created_at DESC, by insertion.
insert_by_time : GroupRow → List GroupRow → List GroupRow
insert_by_time g [] = g ∷ []
insert_by_time g (h ∷ gs) =
    if leb h.created_at g.created_at then g ∷ h ∷ gs else h ∷ insert_by_time g gs

unfoldable pub newest_first : List GroupRow → List GroupRow
unfolding insert_by_time
newest_first [] = []
newest_first (g ∷ gs) = insert_by_time g (newest_first gs)

-- The join of one group with the memberships of a user.
unfoldable pub memberships_in : GroupRow → String → List Member → List GroupMembership
memberships_in g user_id [] = []
memberships_in g user_id (m ∷ ms) =
    let rest = memberships_in g user_id ms in
    if is_membership g.id user_id m
    then record { group_id = g.id; group_name = g.name; role = m.role } ∷ rest
    else rest

unfoldable pub join_members : String → List Member → List GroupRow → List GroupMembership
unfolding memberships_in
join_members user_id ms [] = []
join_members user_id ms (g ∷ gs) = memberships_in g user_id ms ++ join_members user_id ms gs

unfoldable pub select_groups : String → Statement (List GroupMembership)
unfolding newest_first join_members
select_groups user_id t = (ok (join_members user_id t.members (newest_first t.groups)), t)

-- INSERT INTO refresh_tokens: the id is the primary key, the hash is UNIQUE, user_id references users.
unfoldable pub insert_token : RefreshToken → Statement Unit
insert_token r t =
    if any (has_token_id r.token_id) t.tokens
    then (err duplicate_key, t)
    else if any (has_hash r.token_hash) t.tokens
    then (err duplicate_key, t)
    else if any (has_id r.user_id) t.users
    then (ok tt, record t { tokens = record r { revoked_at = none } ∷ t.tokens })
    else (err foreign_key, t)

unfoldable pub select_live_token : String → ℕ → Statement RefreshToken
select_live_token hash now t = (row_or_not_found (find (is_live hash now) t.tokens), t)

abbrev pub revoke_at : ℕ → RefreshToken → RefreshToken
revoke_at now r = record r { revoked_at = some now }

-- UPDATE refresh_tokens SET revoked_at = now() WHERE token_id = $1; no row is no error.
unfoldable pub update_revoked : String → ℕ → Statement Unit
update_revoked token_id now t =
    (ok tt, record t { tokens = update_where (has_token_id token_id) (revoke_at now) t.tokens })
