-- ===== src/Identity/Atomic.antt =====
-- What the requests of internal/app/identity/service.go leave where they fail.
use todo_1m.Prelude.{
  ◌≡◌, refl, String, Bool, true, false, List, [], ◌∷◌, arith, ap, any, update_where-none, find, inl,
  inr, Bool-cases, Option-cases,
}
use todo_1m.Errors.{Error, Result, ok, err}
use todo_1m.Exec.{Exec, resume, pure, raise, ◌>>=◌, ◌>>◌}
use todo_1m.Postgres.{Statement, World, database, call}
use todo_1m.Postgres.Atomic.{
  Atomic, Failed, Same, Atomic-bind, Atomic-database, Atomic-transaction, Atomic-pure,
}
use todo_1m.Identity.Tables
use todo_1m.Identity.Tables.{
  Tables, insert_group, upsert_member, update_member_role, is_membership, with_role,
  select_user_by_username, has_username, is_group, has_id,
}
use todo_1m.Identity.Repository
use todo_1m.Identity.Repository.{
  found_or_not, add_user_to_group_with_role, add_user_to_group_by_username_with_role,
  set_user_role_by_username,
}
use todo_1m.Identity.Service.{
  Service, create_group, delete_group, add_member_by_username, update_member_role_by_username,
  guard,
}
use todo_1m.Identity.Requests.{new_id-kept, actor_role-kept}
use todo_1m.Identity.Kept.{by_name-kept}

module _ {A : Type 0} where
  pub Atomic-guard :
      (b : Bool) (e : Error) (m : Exec (World Tables) A) → Atomic m → Atomic (guard b e >> m)
  unfolding ◌>>=◌ pure raise
  Atomic-guard true e m h = record { rolled_back = λ w. h.rolled_back w }
  Atomic-guard false e m h = record { rolled_back = λ w. refl }

-- An UPDATE or DELETE that affects no row changes none.
abbrev Affects : Tables → Result Bool × Tables → Type 0
Affects t (ok true, u) = Unit
Affects t (ok false, u) = u ≡ t
Affects t (err e, u) = u ≡ t

affected-answer :
    (t : Tables) (r : Result Bool × Tables) (w : World Tables)
    → Affects t r
    → Failed (Same t) (resume r.0 found_or_not (record w { tables = r.1 }))
unfolding pure raise
affected-answer t (ok true, u) w h = tt
affected-answer t (ok false, u) w h = h
affected-answer t (err e, u) w h = h

affected-call :
    (faults : List Bool) (q : Statement Tables Bool) (w : World Tables)
    → Affects w.tables (q w.tables)
    → Failed (Same w.tables) (resume (call faults q w).0 found_or_not (call faults q w).1)
affected-call [] q w h = affected-answer w.tables (q w.tables) w h
affected-call (false ∷ rest) q w h =
    affected-answer w.tables (q w.tables) (record w { faults = rest }) h
affected-call (true ∷ rest) q w h = refl

Atomic-affected :
    (q : Statement Tables Bool)
    → ((t : Tables) → Affects t (q t))
    → Atomic (database q >>= found_or_not)
unfolding database ◌>>=◌
Atomic-affected q h = record { rolled_back = λ w. affected-call w.faults q w (h w.tables) }

delete-Affects : (g : String) (t : Tables) → Affects t (Tables.delete_group g t)
unfolding Tables.delete_group
delete-Affects g t = elim (Bool-cases (any (is_group g) t.groups)) [
  | inl there ↦ rw there tt
  | inr missing ↦ rw missing refl
]

update_role-Affects : (g n r : String) (t : Tables) → Affects t (update_member_role g n r t)
unfolding update_member_role
update_role-Affects g n r t = elim (Option-cases (find (has_username n) t.users)) [
  | inl nobody ↦ rw (nobody, update_member_role) refl
  | inr (u, found) ↦ elim (Bool-cases (any (is_membership g u.id) t.members)) [
    | inl there ↦ rw (found, there, update_member_role) tt
    | inr missing ↦
        rw (found, missing, update_member_role)
          (ap (λ ms. record t { members = ms })
            (update_where-none _ (with_role r) t.members missing))
  ]
]

upsert-Failed : (g u r : String) (t : Tables) → Failed (λ v. v ≡ t) (upsert_member g u r t)
unfolding upsert_member
upsert-Failed g u r t = ground arith

add_user-Atomic : (g u r : String) → Atomic (add_user_to_group_with_role g u r)
unfolding add_user_to_group_with_role
add_user-Atomic g u r = Atomic-database _ (upsert-Failed g u r)

module _ (g u r : String) where
  add_by_name-Atomic : Atomic (add_user_to_group_by_username_with_role g u r)
  unfolding add_user_to_group_by_username_with_role
  add_by_name-Atomic = Atomic-bind _ _ (λ t. by_name-kept u) λ v. add_user-Atomic g v.id r

  set_role-Atomic : Atomic (set_user_role_by_username g u r)
  unfolding set_user_role_by_username
  set_role-Atomic = Atomic-affected _ (update_role-Affects g u r)

module _ (a g : String) where
  pub delete_group-Atomic : Atomic (delete_group a g)
  unfolding delete_group Repository.delete_group
  delete_group-Atomic = Atomic-guard _ _ _ (
      Atomic-bind _ _ (λ t. actor_role-kept a _)
        λ _. Atomic-guard _ _ _ (Atomic-affected _ (delete-Affects _)))

  pub add_member-Atomic : (u r : String) → Atomic (add_member_by_username a g u r)
  unfolding add_member_by_username
  add_member-Atomic u r = Atomic-guard _ _ _ (
      Atomic-guard _ _ _ (
        Atomic-guard _ _ _ (
          Atomic-bind _ _ (λ t. actor_role-kept a _)
            λ _. Atomic-guard _ _ _ (Atomic-guard _ _ _ (add_by_name-Atomic _ _ _)))))

  pub change_role-Atomic : (u r : String) → Atomic (update_member_role_by_username a g u r)
  unfolding update_member_role_by_username
  change_role-Atomic u r = Atomic-guard _ _ _ (
      Atomic-guard _ _ _ (
        Atomic-guard _ _ _ (
          Atomic-bind _ _ (λ t. actor_role-kept a _)
            λ _. Atomic-guard _ _ _ (set_role-Atomic _ _ _))))

create_group-Atomic : (s : Service) (a n : String) → Atomic (create_group s a n)
unfolding create_group Repository.create_group
create_group-Atomic s a n =
    Atomic-guard _ _ _
      (Atomic-bind _ _ (λ t. new_id-kept s) λ id. Atomic-pure _ _ (Atomic-transaction _))

-- The four requests that change groups and memberships are atomic: where one of them fails, with any
-- error and at any of its database calls, every table is as before.
pub group_requests_atomic :
    (s : Service) (a g u r : String) (w : World Tables)
    → Failed (Same w.tables) (create_group s a g w)
      × Failed (Same w.tables) (delete_group a g w)
      × Failed (Same w.tables) (add_member_by_username a g u r w)
      × Failed (Same w.tables) (update_member_role_by_username a g u r w)
group_requests_atomic s a g u r w = (
  (create_group-Atomic s a g).rolled_back w,
  (delete_group-Atomic a g).rolled_back w,
  (add_member-Atomic a g u r).rolled_back w,
  (change_role-Atomic a g u r).rolled_back w,
)
