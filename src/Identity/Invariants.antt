-- ===== src/Identity/Invariants.antt =====
-- What an invariant of the tables has to satisfy for every request of the service to keep it.
use todo_1m.Prelude.{ℕ, ◌≡◌, String, false, ◌==◌}
use todo_1m.Postgres.Invariants.{Keeps, After}
use todo_1m.Identity.Tables
use todo_1m.Identity.Tables.{
  Tables, User, Group, RefreshToken, insert_user, insert_group, upsert_member, update_member_role,
  insert_token, update_revoked,
}
use todo_1m.Identity.Repository.{role_owner}

-- The statements that change rows keep `P`; so then do the service's methods. An INSERT or UPDATE of
-- a membership is asked about only in the forms in which the service sends it.
pub record Kept (P : Tables → Type 0) : Type 0 where
  pub user : (u : User) → Keeps P (insert_user u)
  pub member : (g u r : String) → (r == role_owner) ≡ false → Keeps P (upsert_member g u r)
  pub role : (g u r : String) → (r == role_owner) ≡ false → Keeps P (update_member_role g u r)
  pub deletion : (g : String) → Keeps P (Tables.delete_group g)
  pub token : (r : RefreshToken) → Keeps P (insert_token r)
  pub revocation : (id : String) (now : ℕ) → Keeps P (update_revoked id now)
  pub creation :
      (g : Group) (creator : String) (now : ℕ) (t : Tables)
      → P t
      → After
          (λ u. After P (upsert_member g.id creator role_owner u))
          (insert_group g creator now t)
