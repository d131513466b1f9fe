-- ===== src/Identity/Requests.antt =====
-- The requests of internal/app/identity/service.go as one type, and their sequences.
use todo_1m.Prelude.{
  ℕ, ◌≡◌, refl, String, Bool, true, false, not, ◌||◌, List, [], ◌∷◌, Option, none, some, arith,
}
use todo_1m.Errors.{Error, not_found}
use todo_1m.Exec.{Exec, ◌>>=◌, ◌>>◌}
use todo_1m.Exec.Invariants.{Holds, Holds-bind, Holds-pure, Holds-raise}
use todo_1m.Postgres.Invariants.{InTables, table_rules}
use todo_1m.Identity.Tables.{Tables, User, RefreshToken}
use todo_1m.Identity.Repository.{World}
use todo_1m.Identity.Service.{
  Service, register, login, refresh, logout, create_group, delete_group, add_member_by_username,
  update_member_role_by_username, list_groups, ensure_member_role, issue_session, new_id, guard,
  instead_of_not_found, actor_role, hashed, revoke_found, none_if_not_found,
}
use todo_1m.Identity.Invariants.{Kept}
use todo_1m.Identity.Kept.{
  create_user-kept, by_username-kept, by_id-kept, role-kept, groups-kept, creation-kept,
  deletion-kept, addition-kept, change-kept, token-kept, by_hash-kept, revocation-kept,
}

pub data Request : Type 0 where
  registers : String → String → Request
  logs_in : String → String → Request
  refreshes : String → Request
  logs_out : String → Request
  creates : String → String → Request
  deletes : String → String → Request
  adds : String → String → String → String → Request
  changes : String → String → String → String → Request
  lists : String → Request
  ensures : String → String → Request

not_owner : (v o : Bool) → not (not v || o) ≡ true → o ≡ false
not_owner v o h = ground arith

module _ {P : Tables → Type 0} where
  guard-kept :
      {A : Type 0} (b : Bool) (e : Error) (m : Exec World A)
      → (b ≡ true → Holds (InTables P) m)
      → Holds (InTables P) (guard b e >> m)
  unfolding ◌>>=◌
  guard-kept true e m h = h refl
  guard-kept false e m h = record { keep = λ s p. p }

  pub new_id-kept : (s : Service) → Holds (InTables P) (new_id s)
  unfolding new_id
  new_id-kept s = record { keep = λ w p. record { at = p.at } }

  other_error-kept :
      {A : Type 0} (other e : Error) → Holds (InTables P) (instead_of_not_found {A = A} other e)
  unfolding instead_of_not_found
  other_error-kept other not_found = Holds-raise other
  other_error-kept other _ = Holds-raise _

  hashed-kept : (o : Option String) → Holds (InTables P) (hashed o)
  unfolding hashed
  hashed-kept none = Holds-raise _
  hashed-kept (some h) = Holds-pure h

  none_if_not_found-kept : (e : Error) → Holds (InTables P) (none_if_not_found e)
  unfolding none_if_not_found
  none_if_not_found-kept not_found = Holds-pure none
  none_if_not_found-kept _ = Holds-raise _

  pub actor_role-kept : (u g : String) → Holds (InTables P) (actor_role u g)
  unfolding actor_role
  actor_role-kept u g = search (table_rules, role-kept, other_error-kept)

module _ {P : Tables → Type 0} (k : Kept P) where
  revoke_found-kept : (o : Option RefreshToken) → Holds (InTables P) (revoke_found o)
  unfolding revoke_found
  revoke_found-kept none = Holds-pure tt
  revoke_found-kept (some r) = revocation-kept k r.token_id

  pub issue_session-kept : (s : Service) (u : User) → Holds (InTables P) (issue_session s u)
  unfolding issue_session
  issue_session-kept s u = search (table_rules, token-kept k, new_id-kept) depth 10

  register-kept : (s : Service) (u p : String) → Holds (InTables P) (register s u p)
  unfolding register
  register-kept s u p =
      search (table_rules, hashed-kept, new_id-kept, issue_session-kept, create_user-kept k) depth
        10

  login-kept : (s : Service) (u p : String) → Holds (InTables P) (login s u p)
  unfolding login
  login-kept s u p =
      search (table_rules, issue_session-kept, by_username-kept, other_error-kept) depth 8

  refresh-kept : (s : Service) (t : String) → Holds (InTables P) (refresh s t)
  unfolding refresh
  refresh-kept s t =
      search
        (
          table_rules,
          issue_session-kept,
          by_hash-kept,
          by_id-kept,
          revocation-kept k,
          other_error-kept,
        )
        depth 8

  logout-kept : (s : Service) (t : String) → Holds (InTables P) (logout s t)
  unfolding logout
  logout-kept s t =
      search (table_rules, by_hash-kept, revoke_found-kept, none_if_not_found-kept) depth 8

  create_group-kept : (s : Service) (u n : String) → Holds (InTables P) (create_group s u n)
  unfolding create_group
  create_group-kept s u n = search (table_rules, new_id-kept, creation-kept k) depth 8

  delete_group-kept : (u g : String) → Holds (InTables P) (delete_group u g)
  unfolding delete_group
  delete_group-kept u g = search (table_rules, actor_role-kept, deletion-kept k) depth 8

  add_member-kept : (a g u r : String) → Holds (InTables P) (add_member_by_username a g u r)
  unfolding add_member_by_username
  add_member-kept a g u r = guard-kept _ _ _ λ _. guard-kept _ _ _ λ _. guard-kept _ _ _ λ h.
      Holds-bind _ _ (actor_role-kept a _)
        λ _. guard-kept _ _ _ λ _. guard-kept _ _ _ λ _. addition-kept k _ _ _ (not_owner _ _ h)

  change_role-kept :
      (a g u r : String) → Holds (InTables P) (update_member_role_by_username a g u r)
  unfolding update_member_role_by_username
  change_role-kept a g u r = guard-kept _ _ _ λ _. guard-kept _ _ _ λ _. guard-kept _ _ _ λ h.
      Holds-bind _ _ (actor_role-kept a _)
        λ _. guard-kept _ _ _ λ _. change-kept k _ _ _ (not_owner _ _ h)

  ensure-kept : (u g : String) → Holds (InTables P) (ensure_member_role u g)
  unfolding ensure_member_role
  ensure-kept u g = search (table_rules, actor_role-kept)

-- The world that a request leaves; the reply is read by the handlers.
pub serve : Service → Request → World → World
serve s (registers u p) w = (register s u p w).1
serve s (logs_in u p) w = (login s u p w).1
serve s (refreshes t) w = (refresh s t w).1
serve s (logs_out t) w = (logout s t w).1
serve s (creates u n) w = (create_group s u n w).1
serve s (deletes u g) w = (delete_group u g w).1
serve s (adds a g u r) w = (add_member_by_username a g u r w).1
serve s (changes a g u r) w = (update_member_role_by_username a g u r w).1
serve s (lists u) w = (list_groups u w).1
serve s (ensures u g) w = (ensure_member_role u g w).1

-- Requests one after another. Before each, time may pass and faults may be in store.
pub record Arrival : Type 0 where
  pub request : Request
  pub at : ℕ
  pub faults : List Bool

pub serve_all : Service → List Arrival → World → World
serve_all s [] w = w
serve_all s (a ∷ rest) w =
    serve_all s rest (serve s a.request (record w { now = a.at; faults = a.faults }))

module _ {P : Tables → Type 0} (k : Kept P) (s : Service) where
  pub serve-kept : (r : Request) (w : World) → P w.tables → P (serve s r w).tables
  unfolding serve list_groups
  serve-kept (registers u p) w h = ((register-kept k s u p).keep w (record { at = h })).at
  serve-kept (logs_in u p) w h = ((login-kept k s u p).keep w (record { at = h })).at
  serve-kept (refreshes t) w h = ((refresh-kept k s t).keep w (record { at = h })).at
  serve-kept (logs_out t) w h = ((logout-kept k s t).keep w (record { at = h })).at
  serve-kept (creates u n) w h = ((create_group-kept k s u n).keep w (record { at = h })).at
  serve-kept (deletes u g) w h = ((delete_group-kept k u g).keep w (record { at = h })).at
  serve-kept (adds a g u r) w h = ((add_member-kept k a g u r).keep w (record { at = h })).at
  serve-kept (changes a g u r) w h = ((change_role-kept k a g u r).keep w (record { at = h })).at
  serve-kept (lists u) w h = ((groups-kept {P = P} u).keep w (record { at = h })).at
  serve-kept (ensures u g) w h = ((ensure-kept k u g).keep w (record { at = h })).at

  pub serve_all-kept : (rs : List Arrival) (w : World) → P w.tables → P (serve_all s rs w).tables
  unfolding serve_all
  serve_all-kept [] w h = h
  serve_all-kept (a ∷ rest) w h = serve_all-kept rest _ (serve-kept a.request _ h)
