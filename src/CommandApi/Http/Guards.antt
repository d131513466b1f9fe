-- ===== src/CommandApi/Http/Guards.antt =====
-- Who may send a command: what `handleCreateCommand` checks before a message goes out.
use todo_1m.Prelude.{
  ℕ, suc, ◌≡◌, refl, ap, sym, ◌∙◌, ◌⊎◌, inl, inr, String, Bool, true, false, not, ◌&&◌, ◌||◌, List,
  [], ◌∷◌, some, ◌==◌, trim_space, Bool-cases, arith,
}
use todo_1m.Errors.{Result, ok, err}
use todo_1m.Exec.{resume, lift, pure, gets, ◌>>=◌}
use todo_1m.Exec.Inversion.{Result-cases}
use todo_1m.Contracts.{Json}
use todo_1m.Platform.Auth.{Claims}
use todo_1m.Postgres.Atomic.{Failed}
use todo_1m.Identity.Access.{role_in, ensure_member_role-ok}
use todo_1m.Identity.Repository
use todo_1m.Identity.Service.{can_moderate_messages, ensure_member_role}
use todo_1m.ReadModel.{TodoView}
use todo_1m.DataSink
use todo_1m.DataSink.{is_undeleted}
use todo_1m.DataSink.History.{view}
use todo_1m.Query.{get_todo_by_id}
use todo_1m.Query.Lookup.{get_todo_by_id-ok}
use todo_1m.Bus.{Message, Bus, put, publish, draw_id}
use todo_1m.CommandApi.{
  Actor, CreateTodoRequest, CommandResponse, normalize_action, check_request, accept,
}
use todo_1m.CommandApi.Http.{Response, Server}
use todo_1m.CommandApi.Http.Command.{
  role_reply, todo_reply, accept_reply, is_change, may_change, submit, check_todo, create_command,
}

-- What was published, where the method failed.
abbrev Silent : {A : Type 0} → List Message → Result A × Bus → Type 0
Silent sent r = Failed (λ b. b.published ≡ sent) r

put_then-Silent :
    {A : Type 0} (faults : List Bool) (m : Message) (b : Bus) (a : A)
    → Silent b.published (resume (put faults m b).0 (λ _. pure a) (put faults m b).1)
unfolding pure
put_then-Silent [] m b a = tt
put_then-Silent (false ∷ rest) m b a = tt
put_then-Silent (true ∷ rest) m b a = refl

module _ (j : Json) (nth_id : ℕ → String) where
  accept-Silent :
      (actor : Actor) (req : CreateTodoRequest) (b : Bus)
      → Silent b.published (accept j nth_id actor req b)
  unfolding accept ◌>>=◌ lift pure gets draw_id publish
  accept-Silent actor req b = elim (Bool-cases (trim_space req.group_id == "")) [
    | inl blank ↦ rw blank refl
    | inr given ↦
        rw given
          (elim (Result-cases (
            check_request (normalize_action req.action) (trim_space req.todo_id)
              (trim_space req.title))) [
                | inl (u, good) ↦
                    rw good (put_then-Silent b.faults _ (record b { ids = suc b.ids }) _)
                | inr (e, bad) ↦ rw bad refl
              ])
  ]

-- What the sender of a command that went out has.
pub record IsAllowed (claims : Claims) (req : CreateTodoRequest) (s : Server) : Type 0 where
  pub role : String
  pub is_member : role_in s.identity.tables claims.subject req.group_id ≡ some role
  pub may :
      is_change (normalize_action req.action) ≡ true
      → (t : TodoView) × (view req.todo_id s.todos.tables ≡ some t)
        × (is_undeleted t ≡ true)
        × ((t.group_id == trim_space req.group_id) ≡ true)
        × (may_change claims.subject role t ≡ true)

-- Nothing was published, or the sender may send and is told that the command was accepted.
abbrev pub Guarded : Claims → CreateTodoRequest → Server → Response × Server → Type 0
Guarded claims req s r =
    (r.1.bus.published ≡ s.bus.published) ⊎ ((r.0.status ≡ 202) × IsAllowed claims req s)

module _ (j : Json) (nth_id : ℕ → String) (claims : Claims) (req : CreateTodoRequest) where
  replied :
      (s v : Server) (r : Result CommandResponse × Bus)
      → v.bus.published ≡ s.bus.published
      → Silent v.bus.published r
      → IsAllowed claims req s
      → Guarded claims req s (accept_reply j nth_id claims req v r)
  replied s v (ok a, b) same quiet allowed = inr (refl, allowed)
  replied s v (err e, b) same quiet allowed = inl (quiet ∙ same)

  submitted :
      (s v : Server)
      → v.bus.published ≡ s.bus.published
      → IsAllowed claims req s
      → Guarded claims req s (submit j nth_id claims req v)
  unfolding submit
  submitted s v same allowed =
      replied s v
        (accept j nth_id (record { user_id = claims.subject; username = claims.username }) req
          v.bus)
        same
        (accept-Silent j nth_id (record { user_id = claims.subject; username = claims.username })
          req v.bus)
        allowed

  checked :
      (s : Server) (role : String) (o : Result TodoView × DataSink.World)
      → role_in s.identity.tables claims.subject req.group_id ≡ some role
      → ((t : TodoView)
          → o.0 ≡ ok t
          → (view req.todo_id s.todos.tables ≡ some t) × (is_undeleted t ≡ true))
      → (v : Server) → v.bus.published ≡ s.bus.published
      → Guarded claims req s (todo_reply j nth_id claims req role v o)
  checked s role (err e, w) is found v same = inl same
  checked s role (ok t, w) is found v same =
      elim (Bool-cases (t.group_id == trim_space req.group_id)) [
        | inr foreign ↦ rw foreign (inl same)
        | inl own ↦
            elim (Bool-cases
              (not (can_moderate_messages role) && not (t.created_by_user_id == claims.subject))) [
                | inl denied ↦ rw (own, denied) (inl same)
                | inr passed ↦
                    rw (own, passed)
                      (submitted s (record v { todos = w }) same
                        (record {
                          role = role;
                          is_member = is;
                          may = λ _.
                              (t, (found t refl).0, (found t refl).1, own, may_pass _ _ passed);
                        }))
              ]
      ]
    where
      may_pass : (a b : Bool) → (not a && not b) ≡ false → (a || b) ≡ true
      may_pass a b h = ground arith

  with_role :
      (s v : Server) (role : String)
      → role_in s.identity.tables claims.subject req.group_id ≡ some role
      → v.bus.published ≡ s.bus.published
      → v.todos ≡ s.todos
      → Guarded claims req s (check_todo j nth_id claims req role v)
  unfolding check_todo
  with_role s v role is same store = elim (Bool-cases (is_change (normalize_action req.action))) [
    | inl change ↦ rw change (
        checked s role (get_todo_by_id req.todo_id v.todos) is
          (λ t h.
            get_todo_by_id-ok req.todo_id s.todos
              (ap (λ w. (get_todo_by_id req.todo_id w).0) (sym store) ∙ h))
          v same)
    | inr new ↦ rw new (
        submitted s v same
          (record { role = role; is_member = is; may = λ h. absurd (cc (new, h)) }))
  ]

  asked :
      (s : Server) (r : Result String × Repository.World)
      → ((role : String)
          → r.0 ≡ ok role
          → role_in s.identity.tables claims.subject req.group_id ≡ some role)
      → Guarded claims req s (role_reply j nth_id claims req s r)
  asked s (err e, w) is = inl refl
  asked s (ok role, w) is = with_role s (record s { identity = w }) role (is role refl) refl refl

  -- A request for a command publishes nothing, or it is answered 202 and its sender is a member of the group
  -- and, to change a todo, the todo is live in that group and its creator is the sender, or the role of the
  -- sender may moderate.
  pub create_command_guarded :
      (s : Server) → Guarded claims req s (create_command j nth_id claims req s)
  unfolding create_command
  create_command_guarded s =
      asked s (ensure_member_role claims.subject req.group_id s.identity)
        (λ role h. ensure_member_role-ok claims.subject req.group_id s.identity h)
