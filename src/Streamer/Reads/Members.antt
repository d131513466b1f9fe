-- ===== src/Streamer/Reads/Members.antt =====
-- Who is shown the todos of a group by cmd/sse-streamer.
use todo_1m.Prelude.{
  ℕ, ◌≡◌, refl, subst, inl, inr, String, Bool, true, false, List, any, ◌==◌, trim_space, Bool-cases,
}
use todo_1m.Errors.{Result, ok, err}
use todo_1m.Postgres.Returns.{database-ok}
use todo_1m.Platform.Auth.{Codec, Manager, Claims, parse, bearer_token}
use todo_1m.Identity.Tables.{is_membership, exists_membership}
use todo_1m.Identity.Repository
use todo_1m.Identity.Repository.{is_user_in_group}
use todo_1m.ReadModel.{TodoView}
use todo_1m.DataSink
use todo_1m.Query.{list_group_todos}
use todo_1m.Query.Listing.{IsPage, Listed, list_group_todos-IsPage}
use todo_1m.Streamer.Reads.{
  Reply, todos, Stores, with_claims, claims_from_auth_header, page, limit_of, read_page, if_member,
  todos_of, get_todos,
}

-- Todos are shown to a member of the group whose token is valid, and they are a page of the group.
pub record IsShown (c : Codec) (m : Manager) (now : ℕ) (header group raw : String) (s : Stores)
    (rows : List TodoView) : Type 0 where
  pub claims : Claims
  pub token : parse c m now (bearer_token header) ≡ ok claims
  pub member : any (is_membership group claims.subject) s.identity.tables.members ≡ true
  pub rows_page : IsPage group (limit_of raw) s.read_model.tables rows

module _ (c : Codec) (m : Manager) (now : ℕ) (header group_id raw : String) (s : Stores) where
  Shows : Reply × Stores → Type 0
  Shows r =
      (rows : List TodoView)
      → r.0 ≡ todos rows
      → IsShown c m now header (trim_space group_id) raw s rows

  same_rows : (rows p q : List TodoView) → ok rows ≡ ok p → todos rows ≡ todos q → p ≡ q
  same_rows rows p q a b = cc

  page-Shows :
      (claims : Claims) (r : Result (List TodoView) × DataSink.World) (w : Stores)
      → parse c m now (bearer_token header) ≡ ok claims
      → any (is_membership (trim_space group_id) claims.subject) s.identity.tables.members ≡ true
      → Listed (trim_space group_id) (limit_of raw) s.read_model r
      → Shows (page r.0, w)
  unfolding Shows
  page-Shows claims (ok rows, v) w t h l rows' e = elim l.1 [
    | inl (p, a, is_page) ↦ record {
      claims = claims;
      token = t;
      member = h;
      rows_page =
          subst (IsPage (trim_space group_id) (limit_of raw) s.read_model.tables)
            (same_rows rows p rows' a e) is_page;
    }
    | inr (bad, why) ↦ absurd (cc)
  ]
  page-Shows claims (err x, v) w t h l rows' e = absurd (cc)

  member-Shows :
      (claims : Claims) (r : Result Bool × Repository.World)
      → parse c m now (bearer_token header) ≡ ok claims
      → (r.0 ≡ ok true
          → any (is_membership (trim_space group_id) claims.subject) s.identity.tables.members
            ≡ true)
      → Shows (if_member (read_page (trim_space group_id) (limit_of raw)) s r)
  unfolding Shows
  member-Shows claims (ok true, w) t h =
      page-Shows claims (list_group_todos (trim_space group_id) (limit_of raw) s.read_model) s t
        (h refl) (list_group_todos-IsPage (trim_space group_id) (limit_of raw) s.read_model)
  member-Shows claims (ok false, w) t h = λ rows e. absurd (cc)
  member-Shows claims (err x, w) t h = λ rows e. absurd (cc)

  is_member : (user : String) (b : Bool) → ok b ≡ ok true → b ≡ true
  is_member user b e = cc

  todos_of-Shows :
      (claims : Claims)
      → parse c m now (bearer_token header) ≡ ok claims
      → Shows (todos_of group_id raw claims s)
  unfolding Shows todos_of is_user_in_group exists_membership
  todos_of-Shows claims t = elim (Bool-cases (trim_space group_id == "")) [
    | inl blank ↦ rw blank (λ rows e. absurd (cc))
    | inr given ↦ rw given (
        member-Shows claims (is_user_in_group claims.subject (trim_space group_id) s.identity) t
          (λ h.
            is_member claims.subject _
              (database-ok (exists_membership claims.subject (trim_space group_id)) s.identity h)))
  ]

  token-Shows :
      (token : Result Claims)
      → parse c m now (bearer_token header) ≡ token
      → Shows (with_claims (todos_of group_id raw) token s)
  unfolding Shows
  token-Shows (ok claims) t = todos_of-Shows claims t
  token-Shows (err x) t = λ rows e. absurd (cc)

  get_todos-Shows : Shows (get_todos c m now header group_id raw s)
  unfolding get_todos claims_from_auth_header Shows
  get_todos-Shows = elim (Bool-cases (bearer_token header == "")) [
    | inl missing ↦ rw missing (λ rows e. absurd (cc))
    | inr given ↦ rw given (token-Shows (parse c m now (bearer_token header)) refl)
  ]

  -- GET /api/v1/todos shows todos only to a request whose token is valid and whose user is a member of the group, and
  -- what it shows is a page of that group.
  pub todos_for_members :
      (rows : List TodoView)
      → (get_todos c m now header group_id raw s).0 ≡ todos rows
      → IsShown c m now header (trim_space group_id) raw s rows
  unfolding Shows
  todos_for_members = get_todos-Shows
