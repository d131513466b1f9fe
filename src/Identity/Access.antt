-- ===== src/Identity/Access.antt =====
-- Who may change a group (internal/app/identity/service.go): the role of the actor and what it allows.
use todo_1m.Prelude.{
  ◌≡◌, refl, ◌⊎◌, inl, inr, String, Bool, true, false, not, ◌&&◌, ◌||◌, Option, none, some, ◌==◌,
  eq_iff, arith, find, if◌then◌else◌, trim_space, trim_space_idem, ◌∙◌, Bool-cases,
}
use todo_1m.Errors.{Error, Result, ok, err, not_found}
use todo_1m.Exec.{Exec, after_error, pure, raise, ◌>>=◌, ◌>>◌, on_error}
use todo_1m.Exec.Inversion.{bind-ok}
use todo_1m.Postgres.Atomic.{Failed, Same}
use todo_1m.Postgres.Returns.{database-ok}
use todo_1m.Identity.Tables.{Tables, Member, is_membership, role_of, select_role}
use todo_1m.Identity.Repository.{World, role_owner, role_admin, role_member, get_membership_role}
use todo_1m.Identity.Service.{
  add_member_by_username, update_member_role_by_username, delete_group, ensure_member_role, guard,
  actor_role, instead_of_not_found, is_valid_role, can_manage_members, can_manage_roles,
}
use todo_1m.Identity.Atomic.{delete_group-Atomic, add_member-Atomic, change_role-Atomic}

abbrev role_in_row : Option Member → Option String
role_in_row none = none
role_in_row (some m) = some m.role

-- The role of a user in a group, where the user is a member.
unfoldable pub role_in : Tables → String → String → Option String
role_in t user group = role_in_row (find (is_membership group user) t.members)

-- What a success says of a guard and of a first action, handed on to the rest of the argument.
pub guard_then :
    {A C : Type 0} {a : A} (b : Bool) (e : Error) (m : Exec World A) (w : World)
    → ((guard b e >> m) w).0 ≡ ok a
    → (b ≡ true → (m w).0 ≡ ok a → C)
    → C
unfolding ◌>>=◌ pure raise
guard_then true e m w h k = k refl h
guard_then false e m w h k = absurd (cc)

bind_then :
    {A B C : Type 0} {b : B} (m : Exec World A) (f : A → Exec World B) (w : World)
    → ((m >>= f) w).0 ≡ ok b
    → ((a : A) (v : World) → (m w).0 ≡ ok a → (f a v).0 ≡ ok b → C)
    → C
bind_then m f w h k = let (a, p, q) = bind-ok m f w h in k a (m w).1 p q

handled-ok :
    {A : Type 0} (other : Error) (r : Result A) (w : World) {a : A}
    → (after_error (instead_of_not_found other) r w).0 ≡ ok a
    → r ≡ ok a
unfolding instead_of_not_found raise
handled-ok other (ok a) w h = h
handled-ok other (err not_found) w h = cc
handled-ok other (err _) w h = cc

role_of-ok : (o : Option Member) {role : String} → role_of o ≡ ok role → role_in_row o ≡ some role
role_of-ok none h = cc
role_of-ok (some m) h = ground arith

pub actor_role-ok :
    (user group : String) (w : World) {role : String}
    → (actor_role user group w).0 ≡ ok role
    → role_in w.tables user group ≡ some role
unfolding actor_role on_error get_membership_role role_in select_role
actor_role-ok user group w h =
    role_of-ok _ (database-ok (select_role user group) w (handled-ok _ _ _ h))

-- What `AddMember` asks of the actor for a role, after the default.
abbrev pub granted : String → String
granted role = let r = trim_space role in if r == "" then role_member else r

pub record MayAdd (t : Tables) (actor group role : String) : Type 0 where
  pub actor_role : String
  pub is_member : role_in t actor (trim_space group) ≡ some actor_role
  pub manages : (actor_role ≡ role_owner) ⊎ (actor_role ≡ role_admin)
  pub grants :
      (granted role ≡ role_member) ⊎ ((granted role ≡ role_admin) × (actor_role ≡ role_owner))

valid_granted :
    (actor x : String)
    → trim_space x ≡ x
    → not (not (is_valid_role x) || x == role_owner) ≡ true
    → not (not (actor == role_owner) && x == role_admin) ≡ true
    → (x ≡ role_member) ⊎ ((x ≡ role_admin) × (actor ≡ role_owner))
unfolding is_valid_role
valid_granted actor x e h k = ground (
  arith,
  eq_iff (trim_space x) role_owner,
  eq_iff (trim_space x) role_admin,
  eq_iff (trim_space x) role_member,
  eq_iff actor role_owner,
  eq_iff x role_owner,
  eq_iff x role_admin,
)

managing :
    (actor : String) → can_manage_members actor ≡ true → (actor ≡ role_owner) ⊎ (actor ≡ role_admin)
unfolding can_manage_members
managing actor h = ground (arith, eq_iff actor role_owner, eq_iff actor role_admin)

granted-trimmed : (r : String) → trim_space (granted r) ≡ granted r
granted-trimmed r = elim (Bool-cases (trim_space r == "")) [
  | inl empty ↦ rw empty (unfold trim_space in refl)
  | inr given ↦ rw given (trim_space_idem r)
]

may_add :
    (a g u r : String) (w : World)
    → (add_member_by_username a g u r w).0 ≡ ok tt
    → MayAdd w.tables a g r
unfolding add_member_by_username
may_add a g u r w h = guard_then _ _ _ w h λ _ h1. guard_then _ _ _ w h1 λ _ h2.
    guard_then _ _ _ w h2 λ valid h3. bind_then _ _ w h3 λ actor v is h4.
      guard_then _ _ _ v h4 λ manages h5. guard_then _ _ _ v h5 λ grants _. record {
        actor_role = actor;
        is_member = actor_role-ok a (trim_space g) w is;
        manages = managing actor manages;
        grants = valid_granted actor (granted r) (granted-trimmed r) valid grants;
      }

-- Either the request changed nothing, or the actor may add.
changed_or :
    {C : Type 0} (t : Tables) (r : Result (Unit {0}) × World)
    → Failed (Same t) r
    → (r.0 ≡ ok tt → C)
    → (r.1.tables ≡ t) ⊎ C
changed_or t (ok u, w) h k = inr (k refl)
changed_or t (err e, w) h k = inl h

-- AddMember leaves the tables as they were, or the actor is a member of the group with the role owner
-- or admin, and the role given is member, or admin if the actor is an owner.
pub add_member_authorized :
    (a g u r : String) (w : World)
    → ((add_member_by_username a g u r w).1.tables ≡ w.tables) ⊎ MayAdd w.tables a g r
add_member_authorized a g u r w =
    changed_or w.tables (add_member_by_username a g u r w)
      ((add_member-Atomic a g u r).rolled_back w) (may_add a g u r w)

pub ensure_member_role-ok :
    (user group : String) (w : World) {role : String}
    → (ensure_member_role user group w).0 ≡ ok role
    → role_in w.tables user group ≡ some role
unfolding ensure_member_role
ensure_member_role-ok user group w h = guard_then _ _ _ w h λ _ k. actor_role-ok user group w k

is_owner : (actor : String) → (actor == role_owner) ≡ true → some actor ≡ some role_owner
is_owner actor h = ground (arith, eq_iff actor role_owner)

-- DeleteGroup and UpdateMemberRole leave the tables as they were, or the actor is an owner of the group.
pub owner_only :
    (a g u r : String) (w : World)
    → (((delete_group a g w).1.tables ≡ w.tables)
        ⊎ (role_in w.tables a (trim_space g) ≡ some role_owner))
      × (((update_member_role_by_username a g u r w).1.tables ≡ w.tables)
          ⊎ (role_in w.tables a (trim_space g) ≡ some role_owner))
unfolding delete_group update_member_role_by_username can_manage_roles
owner_only a g u r w = (
  changed_or w.tables (delete_group a g w) ((delete_group-Atomic a g).rolled_back w) (λ h.
      guard_then _ _ _ w h λ _ h1. bind_then _ _ w h1 λ actor v is h2.
        guard_then _ _ _ v h2 λ owns _. actor_role-ok a (trim_space g) w is ∙ is_owner actor owns),
  changed_or w.tables (update_member_role_by_username a g u r w)
      ((change_role-Atomic a g u r).rolled_back w)
      (λ h. guard_then _ _ _ w h λ _ h1. guard_then _ _ _ w h1 λ _ h2. guard_then _ _ _ w h2 λ _ h3.
        bind_then _ _ w h3 λ actor v is h4.
          guard_then _ _ _ v h4
            λ owns _. actor_role-ok a (trim_space g) w is ∙ is_owner actor owns),
)
