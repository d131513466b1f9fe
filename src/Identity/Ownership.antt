-- ===== src/Identity/Ownership.antt =====
-- Who owns a group (internal/app/identity): the rows with the role owner and the creator of the group.
use todo_1m.Prelude.{
  ℕ, ◌≡◌, refl, String, true, false, not, ◌&&◌, List, [], ◌∷◌, Option, none, some, arith, All, find,
  any, select, update_where, ◌==◌, eq_iff, inl, inr, Bool-cases, Option-cases, ◌∙◌,
}
use todo_1m.Errors.{Result, ok, err}
use todo_1m.Postgres.Invariants.{After, Keeps}
use todo_1m.Identity.Tables
use todo_1m.Identity.Tables.{
  Tables, User, Group, GroupRow, Member, RefreshToken, is_group, is_membership, in_group, with_role,
  has_id, has_username, insert_user, insert_group, upsert_member, update_member_role, insert_token,
  update_revoked,
}
use todo_1m.Identity.Repository.{World, role_owner}
use todo_1m.Identity.Service.{Service}
use todo_1m.Identity.Invariants.{Kept}
use todo_1m.Identity.Requests.{Arrival, serve_all, serve_all-kept}

abbrev creator : Option GroupRow → Option String
creator none = none
creator (some g) = some g.created_by

-- Who created a group, if it is there.
unfoldable pub creator_of : String → List GroupRow → Option String
unfolding find
creator_of id gs = creator (find (is_group id) gs)

abbrev pub IsFounder : List GroupRow → Member → Type 0
IsFounder gs m = (m.role == role_owner) ≡ true → creator_of m.group_id gs ≡ some m.user_id

pub record OwnersFounded (t : Tables) : Type 0 where
  pub owners : All (IsFounder t.groups) t.members

any_of_creator :
    (id u : String) (gs : List GroupRow) → creator_of id gs ≡ some u → any (is_group id) gs ≡ true
unfolding creator_of any
any_of_creator id u [] h = cc
any_of_creator id u (g ∷ gs) h = ground (arith, any_of_creator id u gs)

creator_of-cons :
    (id u : String) (g : GroupRow) (gs : List GroupRow)
    → any (is_group g.id) gs ≡ false
    → creator_of id gs ≡ some u
    → creator_of id (g ∷ gs) ≡ some u
unfolding creator_of
creator_of-cons id u g gs fresh h = elim (Bool-cases (g.id == id)) [
  | inl same ↦ absurd (ground (arith, eq_iff g.id id, any_of_creator id u gs h))
  | inr other ↦ ground arith
]

creator_of-select :
    (id removed : String) (gs : List GroupRow)
    → (id == removed) ≡ false
    → creator_of id (select (λ g. not (is_group removed g)) gs) ≡ creator_of id gs
unfolding creator_of select
creator_of-select id removed [] h = refl
creator_of-select id removed (g ∷ gs) h = ground (
  arith,
  eq_iff g.id id,
  eq_iff g.id removed,
  eq_iff id removed,
  creator_of-select id removed gs h,
)

owners-cons :
    (g : GroupRow) (gs : List GroupRow) (ms : List Member)
    → any (is_group g.id) gs ≡ false
    → All (IsFounder gs) ms
    → All (IsFounder (g ∷ gs)) ms
owners-cons g gs [] fresh h = tt
owners-cons g gs (m ∷ ms) fresh h =
    (λ o. creator_of-cons m.group_id m.user_id g gs fresh (h.0 o), owners-cons g gs ms fresh h.1)

owners-select :
    (removed : String) (gs : List GroupRow) (ms : List Member)
    → All (IsFounder gs) ms
    → All
        (IsFounder (select (λ g. not (is_group removed g)) gs))
        (select (λ m. not (in_group removed m)) ms)
unfolding select
owners-select removed gs [] h = tt
owners-select removed gs (m ∷ ms) h = elim (Bool-cases (m.group_id == removed)) [
  | inl gone ↦ rw gone (owners-select removed gs ms h.1)
  | inr stays ↦
      rw stays (
        λ o. creator_of-select m.group_id removed gs stays ∙ h.0 o,
        owners-select removed gs ms h.1,
      )
]

-- An UPDATE to a role that is not the owner's, or of the creator's own row.
owners-update :
    (g u r : String) (gs : List GroupRow) (ms : List Member)
    → ((r == role_owner) ≡ true → creator_of g gs ≡ some u)
    → All (IsFounder gs) ms
    → All (IsFounder gs) (update_where (is_membership g u) (with_role r) ms)
unfolding update_where
owners-update g u r gs [] k h = tt
owners-update g u r gs (m ∷ ms) k h = elim (Bool-cases (is_membership g u m)) [
  | inl hit ↦ rw hit (founder_of_row m hit, owners-update g u r gs ms k h.1)
  | inr miss ↦ rw miss (h.0, owners-update g u r gs ms k h.1)
]
  where
    founder_of_row : (m : Member) → is_membership g u m ≡ true → IsFounder gs (with_role r m)
    founder_of_row m hit o = ground (arith, k o, eq_iff m.group_id g, eq_iff m.user_id u)

module _ (g u r : String) (t : Tables)
    (k : (r == role_owner) ≡ true → creator_of g t.groups ≡ some u) where
  upsert-founded : OwnersFounded t → OwnersFounded (upsert_member g u r t).1
  unfolding upsert_member
  upsert-founded f = elim (Bool-cases (any (is_membership g u) t.members)) [
    | inl old ↦ rw old (record { owners = owners-update g u r t.groups t.members k f.owners })
    | inr new ↦ elim (Bool-cases (any (is_group g) t.groups && any (has_id u) t.users)) [
      | inl there ↦ rw (new, there) (record { owners = (k, f.owners) })
      | inr missing ↦ rw (new, missing) f
    ]
  ]

update_role-founded :
    (g name r : String)
    → (r == role_owner) ≡ false
    → Keeps OwnersFounded (update_member_role g name r)
unfolding update_member_role
update_role-founded g name r h t f = elim (Option-cases (find (has_username name) t.users)) [
  | inl nobody ↦ rw (nobody, update_member_role) f
  | inr (u, found) ↦
      rw (found, update_member_role)
        (record { owners = owners-update g u.id r t.groups t.members (λ o. cc (h, o)) f.owners })
]

delete-founded : (g : String) → Keeps OwnersFounded (Tables.delete_group g)
unfolding Tables.delete_group
delete-founded g t f = elim (Bool-cases (any (is_group g) t.groups)) [
  | inl there ↦ rw there (record { owners = owners-select g t.groups t.members f.owners })
  | inr missing ↦ rw missing f
]

creator_of-head :
    (id c : String) (g : GroupRow) (gs : List GroupRow)
    → g.id ≡ id
    → creator_of id (g ∷ gs) ≡ some g.created_by
unfolding creator_of find
creator_of-head id c g gs e = ground (arith, eq_iff g.id id)

After-of : (Q : Tables → Type 0) (r : Result (Unit {0}) × Tables) → Q r.1 → After Q r
After-of Q (ok a, t) q = q
After-of Q (err e, t) q = tt

user-founded : (u : User) → Keeps OwnersFounded (insert_user u)
unfolding insert_user
user-founded u t f = ground arith

token-founded : (r : RefreshToken) → Keeps OwnersFounded (insert_token r)
unfolding insert_token
token-founded r t f = ground arith

revoke-founded : (id : String) (now : ℕ) → Keeps OwnersFounded (update_revoked id now)
unfolding update_revoked
revoke-founded id now t f = record { owners = f.owners }

creation-founded :
    (g : Group) (c : String) (now : ℕ) (t : Tables)
    → OwnersFounded t
    → After (λ u. After OwnersFounded (upsert_member g.id c role_owner u)) (insert_group g c now t)
unfolding insert_group
creation-founded g c now t f = elim (Bool-cases (any (is_group g.id) t.groups)) [
  | inl taken ↦ rw taken tt
  | inr fresh ↦ elim (Bool-cases (any (has_id c) t.users)) [
    | inl there ↦
        rw (fresh, there)
          (After-of OwnersFounded _ (
            upsert-founded g.id c role_owner _ (λ _. creator_of-head g.id c _ _ refl)
              (record { owners = owners-cons _ t.groups t.members fresh f.owners })))
    | inr missing ↦ rw (fresh, missing) tt
  ]
]

ownership : Kept OwnersFounded
ownership = record {
  user = user-founded;
  member = λ g u r h t f. upsert-founded g u r t (λ o. cc (h, o)) f;
  role = update_role-founded;
  deletion = delete-founded;
  token = token-founded;
  revocation = revoke-founded;
  creation = creation-founded;
}

-- Where each owner's row belongs to the creator of its group, it does so after any requests, at
-- any times and with any database faults.
pub serve_all-OwnersFounded :
    (s : Service) (rs : List Arrival) (w : World)
    → OwnersFounded w.tables
    → OwnersFounded (serve_all s rs w).tables
serve_all-OwnersFounded s rs w f = serve_all-kept ownership s rs w f
