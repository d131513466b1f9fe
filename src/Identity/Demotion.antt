-- ===== src/Identity/Demotion.antt =====
-- What AddMemberByUsername of internal/app/identity does to someone who is a member already.
use todo_1m.Prelude.{
  ℕ, ◌≡◌, refl, ap, String, Bool, true, false, List, [], ◌∷◌, some, find, any, update_where, ◌==◌,
  trim_space, arith,
}
use todo_1m.Errors.{ok}
use todo_1m.Exec.{pure, raise, ◌>>=◌, on_error}
use todo_1m.Postgres.{database}
use todo_1m.Identity.Tables.{
  Tables, User, Member, is_membership, has_username, with_role, select_role,
  select_user_by_username, upsert_member,
}
use todo_1m.Identity.Repository.{
  role_owner, role_admin, role_member, get_membership_role, add_user_to_group_by_username_with_role,
  add_user_to_group_with_role,
}
use todo_1m.Identity.Service.{
  add_member_by_username, normalize_username, can_manage_members, is_valid_role, actor_role,
}
use todo_1m.Identity.Access.{role_in}

-- A group with an admin and an owner, seen by a request of the admin.
pub record Meeting (t : Tables) (group admin : String) (owner : User) : Type 0 where
  pub trimmed : trim_space group ≡ group
  pub named : (group == "") ≡ false
  pub normal : normalize_username owner.username ≡ owner.username
  pub has_name : (owner.username == "") ≡ false
  pub admin_row :
      (m : Member) × (find (is_membership group admin) t.members ≡ some m) × (m.role ≡ role_admin)
  pub owner_user : find (has_username owner.username) t.users ≡ some owner
  pub owner_row :
      (m : Member) × (find (is_membership group owner.id) t.members ≡ some m)
      × (m.role ≡ role_owner)

found_any : {A : Type 0} (p : A → Bool) (xs : List A) (x : A) → find p xs ≡ some x → any p xs ≡ true
unfolding find any
found_any p [] x h = ground (arith, h)
found_any p (y ∷ ys) x h = ground (arith, found_any p ys x)

find-with_role :
    (group user role : String) (ms : List Member) (m : Member)
    → find (is_membership group user) ms ≡ some m
    → find (is_membership group user) (update_where (is_membership group user) (with_role role) ms)
      ≡ some (with_role role m)
unfolding find update_where
find-with_role group user role [] m h = ground (arith, h)
find-with_role group user role (n ∷ ms) m h = ground (arith, h, find-with_role group user role ms m)

trim_empty : trim_space "" ≡ ""
unfolding trim_space
trim_empty = refl

trim_member : trim_space role_member ≡ role_member
unfolding trim_space
trim_member = refl

-- In a group with an owner and an admin, the admin may add the owner by name, with no role: the
-- request succeeds, and the owner has the role member. The group's id and the owner's name are
-- trimmed and not empty, and the database answers.
pub admin_demotes_owner :
    (t : Tables) (group admin : String) (owner : User) (ids now : ℕ)
    → Meeting t group admin owner
    → (role_in t owner.id group ≡ some role_owner)
      × ((add_member_by_username admin group owner.username ""
            (record { tables = t; faults = []; ids = ids; now = now })).0
          ≡ ok tt)
      × (role_in
            (add_member_by_username admin group owner.username ""
              (record { tables = t; faults = []; ids = ids; now = now })).1.tables
            owner.id
            group
          ≡ some role_member)
unfolding add_member_by_username is_valid_role can_manage_members actor_role on_error
    get_membership_role select_role add_user_to_group_by_username_with_role
    add_user_to_group_with_role select_user_by_username upsert_member database ◌>>=◌ pure raise
    role_in
admin_demotes_owner t group admin owner ids now h =
    let (a, a_found, a_role) = h.admin_row in
    let (o, o_found, o_role) = h.owner_row in
    (
      rw o_found (ap some o_role),
      rw
          (
            h.trimmed,
            h.named,
            h.normal,
            h.has_name,
            trim_empty,
            trim_member,
            a_found,
            a_role,
            h.owner_user,
            found_any _ _ _ o_found,
          )
          refl,
      rw
          (
            h.trimmed,
            h.named,
            h.normal,
            h.has_name,
            trim_empty,
            trim_member,
            a_found,
            a_role,
            h.owner_user,
            found_any _ _ _ o_found,
          )
          (rw (find-with_role group owner.id role_member t.members o o_found) refl),
    )
