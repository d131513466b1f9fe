-- ===== src/Streamer/Reads/Workspace.antt =====
-- What GET /ui/workspace of cmd/sse-streamer shows.
use todo_1m.Prelude.{
  ℕ, ◌≡◌, ◌≢◌, refl, sym, subst, ◌∙◌, ◌⊎◌, inl, inr, String, Bool, true, false, ◌||◌, List, [], ◌∷◌,
  ◌++◌, pos, find, All, ◌==◌, eq_iff, trim_space, arith, Bool-cases,
}
use todo_1m.Errors.{Result, ok, err}
use todo_1m.Platform.Auth.{Codec, Manager, Claims, parse, bearer_token}
use todo_1m.Identity.Tables.{
  GroupRow, Member, GroupMembership, is_membership, memberships_in, join_members, newest_first,
  select_groups,
}
use todo_1m.Postgres.Returns.{database-ok}
use todo_1m.Identity.Repository
use todo_1m.Identity.Repository.{list_groups_for_user}
use todo_1m.ReadModel.{ReadModel, TodoView}
use todo_1m.DataSink
use todo_1m.Query.{list_group_todos}
use todo_1m.Query.Listing.{IsPage, Listed, list_group_todos-IsPage}
use todo_1m.Streamer.Pages.{Piece, render_groups_list, render_todo_list}
use todo_1m.Streamer.Reads.{
  Reply, workspace, Stores, with_claims, claims_from_auth_header, active_role, show_workspace,
  workspace_of_groups, with_groups, workspace_of, get_workspace,
}

-- A row of `group_members`.
abbrev pub HasRole : String → String → String → List Member → Type 0
HasRole group user role [] = ⊥
HasRole group user role (m ∷ ms) =
    ((m.group_id ≡ group) × (m.user_id ≡ user) × (m.role ≡ role)) ⊎ HasRole group user role ms

-- A group that is listed for a user has a row of that user, with the role that is listed.
abbrev pub IsOwn : String → List Member → GroupMembership → Type 0
IsOwn user ms g = HasRole g.group_id user g.role ms

later-row :
    (user : String) (m : Member) (ms : List Member) (gs : List GroupMembership)
    → All (IsOwn user ms) gs
    → All (IsOwn user (m ∷ ms)) gs
later-row user m ms [] h = tt
later-row user m ms (g ∷ gs) h = (inr h.0, later-row user m ms gs h.1)

memberships_in-IsOwn :
    (g : GroupRow) (user : String) (ms : List Member)
    → All (IsOwn user ms) (memberships_in g user ms)
unfolding memberships_in
memberships_in-IsOwn g user [] = tt
memberships_in-IsOwn g user (m ∷ ms) =
    let rest = later-row user m ms _ (memberships_in-IsOwn g user ms) in
    elim (Bool-cases (is_membership g.id user m)) [
      | inl hit ↦ rw hit (inl (own_row hit), rest)
      | inr miss ↦ rw miss rest
    ]
  where
    own_row :
        is_membership g.id user m ≡ true
        → (m.group_id ≡ g.id) × (m.user_id ≡ user) × (m.role ≡ m.role)
    own_row h =
        (ground (arith, h, eq_iff m.group_id g.id), ground (arith, h, eq_iff m.user_id user), refl)

All-append :
    (P : GroupMembership → Type 0) (xs ys : List GroupMembership)
    → All P xs
    → All P ys
    → All P (xs ++ ys)
All-append P [] ys h k = k
All-append P (x ∷ xs) ys h k = (h.0, All-append P xs ys h.1 k)

join_members-IsOwn :
    (user : String) (ms : List Member) (gs : List GroupRow)
    → All (IsOwn user ms) (join_members user ms gs)
unfolding join_members
join_members-IsOwn user ms [] = tt
join_members-IsOwn user ms (g ∷ gs) =
    All-append (IsOwn user ms) _ _ (memberships_in-IsOwn g user ms) (join_members-IsOwn user ms gs)

listed-IsOwn :
    (user : String) (w : Repository.World) (gs : List GroupMembership)
    → (list_groups_for_user user w).0 ≡ ok gs
    → All (IsOwn user w.tables.members) gs
unfolding list_groups_for_user select_groups
listed-IsOwn user w gs h =
    subst (All (IsOwn user w.tables.members)) (same _ gs (database-ok (select_groups user) w h))
      (join_members-IsOwn user w.tables.members (newest_first w.tables.groups))
  where
    same : (a b : List GroupMembership) → ok a ≡ ok b → a ≡ b
    same a b e = cc

-- The role that the handler finds is that of a row.
active_role-HasRole :
    (user asked : String) (ms : List Member) (gs : List GroupMembership)
    → All (IsOwn user ms) gs
    → active_role asked gs ≢ ""
    → HasRole asked user (active_role asked gs) ms
unfolding active_role find
active_role-HasRole user asked ms [] h given = absurd (given refl)
active_role-HasRole user asked ms (g ∷ gs) h given = elim (Bool-cases (g.group_id == asked)) [
  | inl hit ↦ rw hit (subst (λ id. HasRole id user g.role ms) ((eq_iff g.group_id asked).0 hit) h.0)
  | inr miss ↦ rw miss (active_role-HasRole user asked ms gs h.1 (rw miss at given))
]

-- The todos of the page: none, or those of a group in which the user has the role.
abbrev pub Chosen :
    String → String → String → List Member → ReadModel → String → List TodoView → Type 0
Chosen user role asked ms m group rows =
    ((group ≡ "") × (rows ≡ []))
    ⊎ ((group ≡ asked) × HasRole asked user role ms × IsPage asked (pos 50) m rows)

-- The two pages, for the groups of the user and the rows of `group_members`.
pub record IsWorkspace (user asked : String) (gs : List GroupMembership) (ms : List Member)
    (m : ReadModel) (groups_page todos_page : List Piece) : Type 0 where
  pub group : String
  pub role : String
  pub rows : List TodoView
  pub groups_shown : groups_page ≡ render_groups_list gs group
  pub groups_own : All (IsOwn user ms) gs
  pub todos_shown : todos_page ≡ render_todo_list rows user role group
  pub chosen : Chosen user role asked ms m group rows

first : (a b c d : List Piece) → workspace a b ≡ workspace c d → c ≡ a
first a b c d h = cc

second : (a b c d : List Piece) → workspace a b ≡ workspace c d → d ≡ b
second a b c d h = cc

module _ (user asked : String) (gs : List GroupMembership) (ms : List Member)
    (own : All (IsOwn user ms) gs) (s : Stores) where
  Shows : Reply × Stores → Type 0
  Shows r =
      (p q : List Piece)
      → r.0 ≡ workspace p q
      → IsWorkspace user asked gs ms s.read_model.tables p q

  page_of :
      (rows : List TodoView) (r : Result (List TodoView) × DataSink.World)
      → r.0 ≡ ok rows
      → Listed asked (pos 50) s.read_model r
      → IsPage asked (pos 50) s.read_model.tables rows
  page_of rows r e l = elim l.1 [
    | inl (page, a, is_page) ↦
        subst (IsPage asked (pos 50) s.read_model.tables) (same page rows (sym a ∙ e)) is_page
    | inr (bad, why) ↦ absurd (cc (e, bad))
  ]
    where
      same : (a b : List TodoView) → ok a ≡ ok b → a ≡ b
      same a b h = cc

  todos-Shows :
      (r : Result (List TodoView) × DataSink.World)
      → active_role asked gs ≢ ""
      → Listed asked (pos 50) s.read_model r
      → Shows (show_workspace gs user (active_role asked gs) asked s r)
  unfolding Shows
  todos-Shows (ok rows, w) h l p q e = record {
    group = asked;
    role = active_role asked gs;
    rows = rows;
    groups_own = own;
    groups_shown = first _ _ _ _ e;
    todos_shown = second _ _ _ _ e;
    chosen =
        inr (refl, active_role-HasRole user asked ms gs own h, page_of rows (ok rows, w) refl l);
  }
  todos-Shows (err x, w) h l p q e = absurd (cc)

  workspace_of_groups-Shows : Shows (workspace_of_groups user asked gs s)
  unfolding Shows workspace_of_groups
  workspace_of_groups-Shows = elim (Bool-cases (active_role asked gs == "" || asked == "")) [
    | inl none_active ↦ rw none_active (λ p q e. record {
      group = "";
      role = active_role asked gs;
      rows = [];
      groups_own = own;
      groups_shown = first _ _ _ _ e;
      todos_shown = second _ _ _ _ e;
      chosen = inl (refl, refl);
    })
    | inr active ↦ rw active (
        todos-Shows (list_group_todos asked (pos 50) s.read_model)
          (has_role (active_role asked gs) _ active)
          (list_group_todos-IsPage asked (pos 50) s.read_model))
  ]
    where
      has_role : (role : String) (b : Bool) → (role == "" || b) ≡ false → role ≢ ""
      has_role role b h = λ e. ground (arith, eq_iff role "", h, e)

-- A request that is shown the workspace, with the groups of its user.
pub record IsShown (c : Codec) (m : Manager) (now : ℕ) (header asked : String) (s : Stores)
    (groups_page todos_page : List Piece) : Type 0 where
  pub claims : Claims
  pub token : parse c m now (bearer_token header) ≡ ok claims
  pub groups : List GroupMembership
  pub listed : (list_groups_for_user claims.subject s.identity).0 ≡ ok groups
  pub shown :
      IsWorkspace claims.subject asked groups s.identity.tables.members s.read_model.tables
        groups_page todos_page

module _ (c : Codec) (m : Manager) (now : ℕ) (header group_id : String) (s : Stores)
    (p q : List Piece) where
  groups-IsShown :
      (claims : Claims) (r : Result (List GroupMembership) × Repository.World)
      → parse c m now (bearer_token header) ≡ ok claims
      → (list_groups_for_user claims.subject s.identity).0 ≡ r.0
      → (with_groups (workspace_of_groups claims.subject (trim_space group_id)) s r).0
        ≡ workspace p q
      → IsShown c m now header (trim_space group_id) s p q
  unfolding Shows
  groups-IsShown claims (ok gs, w) t l e = record {
    claims = claims;
    token = t;
    groups = gs;
    listed = l;
    shown =
        workspace_of_groups-Shows claims.subject (trim_space group_id) gs s.identity.tables.members
          (listed-IsOwn claims.subject s.identity gs l) (record s { identity = w }) p q e;
  }
  groups-IsShown claims (err x, w) t l e = absurd (cc)

  token-IsShown :
      (r : Result Claims)
      → parse c m now (bearer_token header) ≡ r
      → (with_claims (workspace_of group_id) r s).0 ≡ workspace p q
      → IsShown c m now header (trim_space group_id) s p q
  unfolding workspace_of
  token-IsShown (ok claims) t e =
      groups-IsShown claims (list_groups_for_user claims.subject s.identity) t refl e
  token-IsShown (err x) t e = absurd (cc)

  -- GET /ui/workspace shows pages only to a request with a valid token: the groups of its user, each with the role that
  -- a row of group_members gives the user there, and no todos, or, where group_members has a row of the user for the group
  -- that is asked for, a page of its todos with what the role of that row may do.
  pub get_workspace-IsShown :
      (get_workspace c m now header group_id s).0 ≡ workspace p q
      → IsShown c m now header (trim_space group_id) s p q
  unfolding get_workspace claims_from_auth_header
  get_workspace-IsShown e = elim (Bool-cases (bearer_token header == "")) [
    | inl missing ↦ absurd (cc (rw missing at e))
    | inr given ↦ token-IsShown (parse c m now (bearer_token header)) refl (rw given at e)
  ]
