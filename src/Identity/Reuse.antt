-- ===== src/Identity/Reuse.antt =====
-- What Refresh of internal/app/identity/service.go does with the token that it is given.
use todo_1m.Prelude.{
  ℕ, ◌≡◌, ◌≢◌, refl, ◌∙◌, String, Bool, true, false, List, [], ◌∷◌, Option, none, some, arith, All,
  find, trim_space,
}
use todo_1m.Errors.{Error, Result, ok, err, not_found}
use todo_1m.Exec.{Exec, pure, raise, ◌>>=◌, ◌>>◌}
use todo_1m.Exec.Invariants.{Holds, Holds-bind}
use todo_1m.Exec.Returns.{Returns, bind-Returns, on_error-Returns, Returns-of}
use todo_1m.Postgres.Invariants.{InTables}
use todo_1m.Postgres.Returns.{database-Returns}
use todo_1m.Identity.Tables.{
  Tables, RefreshToken, is_live, row_or_not_found, select_live_token, update_revoked,
}
use todo_1m.Identity.Repository.{
  World, find_refresh_token_by_hash, revoke_refresh_token, find_user_by_id,
}
use todo_1m.Identity.Service.{
  Service, AuthResponse, refresh, guard, instead_of_not_found, issue_session,
}
use todo_1m.Identity.Kept.{by_id-kept}
use todo_1m.Identity.Requests.{Arrival, serve_all, serve_all-kept, issue_session-kept}
use todo_1m.Identity.Sessions.{UniqueHashes, Spent, IsSpentRow, spend, spent, any-revoke, live-any}

module _ {A : Type 0} (Q : A → World → Type 0) where
  pub guard-Returns :
      (b : Bool) (e : Error) (m : Exec World A) (w : World)
      → Returns Q (m w)
      → Returns Q ((guard b e >> m) w)
  unfolding ◌>>=◌ pure raise
  guard-Returns true e m w h = h
  guard-Returns false e m w h = tt

  raised-Returns : (other e : Error) (w : World) → Returns Q (instead_of_not_found other e w)
  unfolding instead_of_not_found raise
  raised-Returns other not_found w = tt
  raised-Returns other _ w = tt

-- The row that a token was found in, at some time.
abbrev FoundIn : String → RefreshToken → Tables → Type 0
FoundIn h r t = UniqueHashes t × ((now : ℕ) × (find (is_live h now) t.tokens ≡ some r))

row-Returns :
    (h : String) (now : ℕ) (t : Tables) (o : Option RefreshToken)
    → UniqueHashes t
    → find (is_live h now) t.tokens ≡ o
    → Returns (FoundIn h) (row_or_not_found o, t)
row-Returns h now t none u e = tt
row-Returns h now t (some r) u e = (u, (now, e))

found-Returns :
    (h : String) (w : World)
    → UniqueHashes w.tables
    → Returns (λ r v. FoundIn h r v.tables) (find_refresh_token_by_hash h w)
unfolding find_refresh_token_by_hash select_live_token ◌>>=◌
found-Returns h w u =
    database-Returns (FoundIn h) (select_live_token h w.now) w
      (row-Returns h w.now w.tables _ u refl)

revoked-Returns :
    (h : String) (r : RefreshToken) (w : World)
    → FoundIn h r w.tables
    → Returns (λ _ v. Spent h v.tables) (revoke_refresh_token r.token_id w)
unfolding revoke_refresh_token update_revoked ◌>>=◌
revoked-Returns h r w f =
    database-Returns (λ _. Spent h) (update_revoked r.token_id w.now) w
      (record {
        taken =
            any-revoke h r.token_id w.now w.tables.tokens
            ∙ live-any h f.1.0 w.tables.tokens r f.1.1;
        revoked = spend h f.1.0 w.now w.tables.tokens r f.0.distinct f.1.1;
      })

module _ (s : Service) (token : String) where
  abbrev hash : String
  hash = s.sha256_hex (trim_space token)

  refresh_spends :
      (w : World) → UniqueHashes w.tables → Returns (λ _ v. Spent hash v.tables) (refresh s token w)
  unfolding refresh
  refresh_spends w u = guard-Returns _ _ _ _ w (
      bind-Returns (λ r v. FoundIn hash r v.tables) _ _ _ w
        (on_error-Returns _ _ _ w (found-Returns hash w u) (λ e v. raised-Returns _ _ e v))
        λ r v f.
          bind-Returns (λ _ v. Spent hash v.tables) _ _ _ v (revoked-Returns hash r v f)
            λ _ v p.
              Returns-of (λ v. Spent hash v.tables) _ (((rest r).keep v (record { at = p })).at))
    where
      rest :
          (r : RefreshToken)
          → Holds (InTables (Spent hash)) (find_user_by_id r.user_id >>= λ u. issue_session s u)
      rest r = Holds-bind _ _ (by_id-kept r.user_id) (λ u. issue_session-kept (spent hash) s u)

  -- A lookup of a spent token finds nothing.
  spent-find :
      (now : ℕ) (rs : List RefreshToken)
      → All (IsSpentRow hash) rs
      → find (is_live hash now) rs ≡ none
  unfolding find
  spent-find now [] h = refl
  spent-find now (r ∷ rs) h = ground (arith, h.0, spent-find now rs h.1)

  not_found-Returns :
      (w : World) → Spent hash w.tables → Returns (λ _ _. ⊥) (find_refresh_token_by_hash hash w)
  unfolding find_refresh_token_by_hash select_live_token ◌>>=◌
  not_found-Returns w p =
      database-Returns (λ _ _. ⊥) (select_live_token hash w.now) w
        (rw (spent-find w.now w.tables.tokens p.revoked) tt)

  refused : (w : World) → Spent hash w.tables → Returns (λ _ _. ⊥) (refresh s token w)
  unfolding refresh
  refused w p = guard-Returns _ _ _ _ w (
      bind-Returns (λ _ _. ⊥) _ _ _ w
        (on_error-Returns _ _ _ w (not_found-Returns w p) (λ e v. raised-Returns _ _ e v))
        (λ _ _ h. absurd h))

never : {A : Type 0} (r : Result A × World) → Returns (λ _ _. ⊥) r → (a : A) → r.0 ≢ ok a
never (ok x, w) h a e = h
never (err x, w) h a e = cc

value :
    {A : Type 0} (P : World → Type 0) (r : Result A × World) {a : A}
    → r.0 ≡ ok a
    → Returns (λ _. P) r
    → P r.1
value P (ok x, w) e h = h
value P (err x, w) e h = absurd (cc)

-- Where token hashes are unique, a refresh token that Refresh has accepted once is accepted by no later
-- Refresh, whatever requests come in between, at whatever times and with whatever database faults.
pub refresh_token_single_use :
    (s : Service) (token : String) (w : World) (response again : AuthResponse) (rs : List Arrival)
    → UniqueHashes w.tables
    → (refresh s token w).0 ≡ ok response
    → (refresh s token (serve_all s rs (refresh s token w).1)).0 ≢ ok again
refresh_token_single_use s token w response again rs u h =
    never _
      (refused s token _ (
        serve_all-kept (spent _) s rs _ (
          value (λ v. Spent (hash s token) v.tables) (refresh s token w) h
            (refresh_spends s token w u))))
      again
