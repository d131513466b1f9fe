-- ===== src/Streamer/Pages/Controls.antt =====
-- The buttons that `renderTodoList` of cmd/sse-streamer/main.go offers, and what `handleCreateCommand` of
-- internal/app/commandapi/http.go does with what they send.
use todo_1m.Prelude.{
  ℕ, ◌≡◌, refl, sym, ◌∙◌, String, Bool, true, false, not, ◌&&◌, ◌||◌, List, [], ◌∷◌, ◌++◌, any,
  if◌then◌else◌, ◌==◌, eq_iff, trim_space, arith, Bool-cases, inl, inr,
}
use todo_1m.Errors.{ok}
use todo_1m.Contracts.{Json}
use todo_1m.Platform.Auth.{Claims}
use todo_1m.Identity.Repository.{role_owner, role_admin}
use todo_1m.Identity.Service.{can_moderate_messages}
use todo_1m.ReadModel.{TodoView}
use todo_1m.DataSink
use todo_1m.CommandApi.{CreateTodoRequest}
use todo_1m.CommandApi.Http.{Server, status_text}
use todo_1m.CommandApi.Http.Command.{submit, todo_reply}
use todo_1m.Streamer.Pages.{Piece, raw, shown, can_edit, todo_row, save_click, delete_click}

abbrev pub is_piece : Piece → Piece → Bool
is_piece (raw s) (raw t) = s == t
is_piece (raw s) (shown t) = false
is_piece (shown s) (raw t) = false
is_piece (shown s) (shown t) = s == t

-- A page has the button.
abbrev pub offers : Piece → List Piece → Bool
offers button page = any (is_piece button) page

offers-append :
    (b : Piece) (ps qs : List Piece) → offers b (ps ++ qs) ≡ (offers b ps || offers b qs)
unfolding any
offers-append b [] qs = refl
offers-append b (p ∷ ps) qs = ground (arith, offers-append b ps qs)

save-todo_row :
    (user role : String) (t : TodoView)
    → offers save_click (todo_row user role t) ≡ can_edit user role t
unfolding todo_row any
save-todo_row user role t = elim (Bool-cases (can_edit user role t)) [
  | inl may ↦ rw may refl
  | inr may_not ↦ rw may_not refl
]

delete-todo_row :
    (user role : String) (t : TodoView)
    → offers delete_click (todo_row user role t) ≡ can_edit user role t
unfolding todo_row any
delete-todo_row user role t = elim (Bool-cases (can_edit user role t)) [
  | inl may ↦ rw may refl
  | inr may_not ↦ rw may_not refl
]

module _ (j : Json) (nth_id : ℕ → String) (claims : Claims) (req : CreateTodoRequest)
    (role : String) (s : Server) (t : TodoView) (w : DataSink.World) where
  -- Where a todo is in the group of a request, its row shows the buttons Save and Delete to a user with a role exactly
  -- if handleCreateCommand goes on to submit a change of the todo by that user with that role; else it answers 403.
  pub todo_reply-offers :
      t.group_id ≡ trim_space req.group_id
      → (offers save_click (todo_row claims.subject role t)
          ≡ offers delete_click (todo_row claims.subject role t))
        × (todo_reply j nth_id claims req role s (ok t, w) ≡ (
            if offers save_click (todo_row claims.subject role t)
            then submit j nth_id claims req (record s { todos = w })
            else (
              status_text 403 "insufficient permissions for this action",
              record s { todos = w },
            )))
  unfolding can_edit can_moderate_messages
  todo_reply-offers e = (
    save-todo_row claims.subject role t ∙ sym (delete-todo_row claims.subject role t),
    rw (save-todo_row claims.subject role t, same_group e)
        (decided (role == role_owner) (role == role_admin)
          (t.created_by_user_id == claims.subject)),
  )
    where
      same_group :
          t.group_id ≡ trim_space req.group_id → (t.group_id == trim_space req.group_id) ≡ true
      same_group q = (eq_iff t.group_id (trim_space req.group_id)).1 q

      decided :
          (a b c : Bool)
          → (if not (a || b) && not c
              then (
                status_text 403 "insufficient permissions for this action",
                record s { todos = w },
              )
              else submit j nth_id claims req (record s { todos = w }))
            ≡ (if a || b || c then submit j nth_id claims req (record s { todos = w }) else (
              status_text 403 "insufficient permissions for this action",
              record s { todos = w },
            ))
      decided true b c = refl
      decided false true c = refl
      decided false false true = refl
      decided false false false = refl
