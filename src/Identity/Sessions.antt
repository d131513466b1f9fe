-- ===== src/Identity/Sessions.antt =====
-- Refresh tokens in the tables: those that can be used and those that are spent (internal/app/identity).
use todo_1m.Prelude.{
  ℕ, ◌≡◌, refl, ◌∙◌, subst, inl, inr, String, Bool, true, false, List, [], ◌∷◌, some, arith, All,
  find, any, update_where, ◌==◌, eq_iff, eq_refl, Bool-cases, if◌then◌else◌,
}
use mathlib.Core.Option.{some-injective}
use todo_1m.Postgres.Invariants.{Keeps}
use todo_1m.Identity.Tables
use todo_1m.Identity.Tables.{
  Tables, Statement, User, Group, RefreshToken, has_hash, has_token_id, has_id, has_username,
  is_live, is_none, revoke_at, insert_token, update_revoked, insert_user, insert_group,
  upsert_member, update_member_role, is_group, is_membership,
}
use todo_1m.Identity.Invariants.{Kept}

-- UNIQUE on token_hash: no two rows have one hash.
abbrev pub Distinct : List RefreshToken → Type 0
Distinct [] = Unit
Distinct (r ∷ rs) = (any (has_hash r.token_hash) rs ≡ false) × Distinct rs

pub record UniqueHashes (t : Tables) : Type 0 where
  pub distinct : Distinct t.tokens

-- The hash is taken, and no row that has it can be used.
abbrev pub IsSpentRow : String → RefreshToken → Type 0
IsSpentRow h r = has_hash h r ≡ true → is_none r.revoked_at ≡ false

pub record Spent (h : String) (t : Tables) : Type 0 where
  pub taken : any (has_hash h) t.tokens ≡ true
  pub revoked : All (IsSpentRow h) t.tokens

pub any-revoke :
    (h id : String) (now : ℕ) (rs : List RefreshToken)
    → any (has_hash h) (update_where (has_token_id id) (revoke_at now) rs) ≡ any (has_hash h) rs
unfolding any update_where
any-revoke h id now [] = refl
any-revoke h id now (r ∷ rs) = ground (arith, any-revoke h id now rs)

Distinct-revoke :
    (id : String) (now : ℕ) (rs : List RefreshToken)
    → Distinct rs
    → Distinct (update_where (has_token_id id) (revoke_at now) rs)
unfolding update_where
Distinct-revoke id now [] d = tt
Distinct-revoke id now (r ∷ rs) d =
    ground (arith, any-revoke r.token_hash id now rs, Distinct-revoke id now rs d.1)

spent-revoke :
    (h id : String) (now : ℕ) (rs : List RefreshToken)
    → All (IsSpentRow h) rs
    → All (IsSpentRow h) (update_where (has_token_id id) (revoke_at now) rs)
unfolding update_where
spent-revoke h id now [] d = tt
spent-revoke h id now (r ∷ rs) d = elim (Bool-cases (has_token_id id r)) [
  | inl hit ↦ rw hit ((λ _. refl), spent-revoke h id now rs d.1)
  | inr miss ↦ rw miss (d.0, spent-revoke h id now rs d.1)
]

spent_absent :
    (h id : String) (now : ℕ) (rs : List RefreshToken)
    → any (has_hash h) rs ≡ false
    → All (IsSpentRow h) rs
unfolding any
spent_absent h id now [] d = tt
spent_absent h id now (r ∷ rs) d = ((λ e. ground arith), spent_absent h id now rs (ground arith))

pub live-any :
    (h : String) (now : ℕ) (rs : List RefreshToken) (r : RefreshToken)
    → find (is_live h now) rs ≡ some r
    → any (has_hash h) rs ≡ true
unfolding find any
live-any h now [] r e = cc
live-any h now (x ∷ rs) r e = ground (arith, live-any h now rs r)

hash_of_live : (h : String) (now : ℕ) (x : RefreshToken) → is_live h now x ≡ true → x.token_hash ≡ h
hash_of_live h now x e = ground (arith, eq_iff x.token_hash h)

module _ (h : String) (now at : ℕ) (x : RefreshToken) (rs : List RefreshToken) where
  alone :
      any (has_hash x.token_hash) rs ≡ false
      → is_live h now x ≡ true
      → All (IsSpentRow h) (update_where (has_token_id x.token_id) (revoke_at at) rs)
  alone d live = spent_absent h x.token_id at _ (
      any-revoke h x.token_id at rs
      ∙ subst (λ k. any (has_hash k) rs ≡ false) (hash_of_live h now x live) d)

  not_it :
      (r : RefreshToken) (c : Bool)
      → any (has_hash x.token_hash) rs ≡ false
      → find (is_live h now) rs ≡ some r
      → IsSpentRow h (if c then revoke_at at x else x)
  not_it r true d e _ = refl
  not_it r false d e same = absurd (
      ground (
        arith,
        live-any h now rs r e,
        eq_iff x.token_hash h,
        d,
        subst (λ k. any (has_hash k) rs ≡ false) ((eq_iff x.token_hash h).0 same) d,
      ))

-- Revoking the row that a live token was found in leaves no live row with its hash.
pub spend :
    (h : String) (now at : ℕ) (rs : List RefreshToken) (r : RefreshToken)
    → Distinct rs
    → find (is_live h now) rs ≡ some r
    → All (IsSpentRow h) (update_where (has_token_id r.token_id) (revoke_at at) rs)
unfolding find update_where
spend h now at [] r d e = tt
spend h now at (x ∷ rs) r d e = elim (Bool-cases (is_live h now x)) [
  | inl live ↦
      subst
        (λ y. All (IsSpentRow h) (update_where (has_token_id y.token_id) (revoke_at at) (x ∷ rs)))
        (some-injective x r (found live))
        (rw (eq_refl x.token_id) ((λ _. refl), alone h now at x rs d.0 live))
  | inr dead ↦ (
    not_it h now at x rs r (has_token_id r.token_id x) d.0 (later dead),
    spend h now at rs r d.1 (later dead),
  )
]
  where
    found : is_live h now x ≡ true → some x ≡ some r
    found live = rw live at e

    later : is_live h now x ≡ false → find (is_live h now) rs ≡ some r
    later dead = rw dead at e

insert_unique : (r : RefreshToken) → Keeps UniqueHashes (insert_token r)
unfolding insert_token
insert_unique r t u = ground arith

pub unique : Kept UniqueHashes
unfolding insert_user upsert_member update_member_role Tables.delete_group insert_group
    update_revoked
unique = record {
  user = λ u t k. ground arith;
  member = λ g u r _ t k. ground arith;
  role = λ g u r _ t k. ground arith;
  deletion = λ g t k. ground arith;
  token = insert_unique;
  revocation = λ id now t k. record { distinct = Distinct-revoke id now t.tokens k.distinct };
  creation = λ g c now t k. ground arith;
}

-- A new row does not bring a taken hash back.
insert-Spent : (h : String) (r : RefreshToken) → Keeps (Spent h) (insert_token r)
unfolding insert_token any
insert-Spent h r t s = elim (Bool-cases (any (has_hash r.token_hash) t.tokens)) [
  | inl taken ↦ ground (arith, taken)
  | inr fresh ↦
      let other : (r.token_hash == h) ≡ false = ground (
        arith,
        s.taken,
        eq_iff r.token_hash h,
        λ (e : r.token_hash ≡ h). subst (λ k. any (has_hash k) t.tokens ≡ false) e fresh,
      ) in
      ground (arith, other)
]

pub spent : (h : String) → Kept (Spent h)
unfolding insert_user upsert_member update_member_role Tables.delete_group insert_group
    update_revoked
spent h = record {
  user = λ u t k. ground arith;
  member = λ g u r _ t k. ground arith;
  role = λ g u r _ t k. ground arith;
  deletion = λ g t k. ground arith;
  token = insert-Spent h;
  revocation = λ id now t k. record {
    taken = any-revoke h id now t.tokens ∙ k.taken;
    revoked = spent-revoke h id now t.tokens k.revoked;
  };
  creation = λ g c now t k. ground arith;
}
