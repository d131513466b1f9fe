-- ===== src/Streamer/Pages.antt =====
-- `renderGroupsList`, `renderTodoList` and `renderEventsContainer` of cmd/sse-streamer/main.go, with html.EscapeString. A
-- page is the list of what is written to the builder, one piece after the other.
pub mod Controls
pub mod Markup
use Prim.Native.String
use todo_1m.Prelude.{
  Char, String, Bool, not, ◌&&◌, ◌||◌, List, [], ◌∷◌, ◌++◌, code, eqb, if◌then◌else◌, ◌==◌,
  trim_space,
}
use todo_1m.Identity.Tables.{GroupMembership}
use todo_1m.Identity.Repository.{role_owner, role_admin}
use todo_1m.ReadModel.{TodoView}

-- What is written as it stands, and what html.EscapeString has changed.
pub data Piece : Type 0 where
  raw : String → Piece
  shown : String → Piece

-- html.EscapeString, in front of a text that is escaped.
abbrev pub escaped_char : Char → String → String
escaped_char c rest =
    if eqb (code c) b'&'
    then String.◌++◌ "&amp;" rest
    else if eqb (code c) 39
    then String.◌++◌ "&#39;" rest
    else if eqb (code c) b'<'
    then String.◌++◌ "&lt;" rest
    else if eqb (code c) b'>'
    then String.◌++◌ "&gt;" rest
    else if eqb (code c) b'"'
    then String.◌++◌ "&#34;" rest
    else String.◌∷◌ c rest

unfoldable pub escape_string : String → String
escape_string String.[] = String.[]
escape_string (String.◌∷◌ c s) = escaped_char c (escape_string s)

unfoldable pub text_of : Piece → String
unfolding escape_string
text_of (raw s) = s
text_of (shown s) = escape_string s

unfoldable pub written : List Piece → String
unfolding text_of
written [] = ""
written (p ∷ ps) = String.◌++◌ (text_of p) (written ps)

abbrev pub groups_open : Piece
groups_open =
    raw
      "<ul id=\"groups-list\" class=\"list bg-base-200/60 rounded-box border border-base-300/40 p-2 max-h-64 overflow-auto\" data-on-load=\"window.location.pathname === '/app' && $access_token && (() => { const connectButtons = Array.from(document.querySelectorAll('#groups-list button[data-connect-btn=\\'1\\'][data-group-id][data-group-name]')); if (connectButtons.length === 0) { const groupsListText = (document.getElementById('groups-list')?.textContent || '').toLowerCase(); if (groupsListText.includes('no groups yet')) { @setAll('', {include: /^(active_group_id|active_group_role|connected_group_id|connected_group_name)$/}); } return; } const byID = new Map(connectButtons.map((btn) => [btn.dataset.groupId || '', btn])); let targetID = $connected_group_id; if (!targetID || !byID.has(targetID)) { targetID = byID.has($active_group_id) ? $active_group_id : (connectButtons[0].dataset.groupId || ''); } if (!targetID) { return; } const targetButton = byID.get(targetID); if (!targetButton) { return; } @setAll(targetID, {include: /^active_group_id$/}); @setAll(targetButton.dataset.groupRole || '', {include: /^active_group_role$/}); @setAll(targetID, {include: /^connected_group_id$/}); @setAll(targetButton.dataset.groupName || '', {include: /^connected_group_name$/}); })()\">"

abbrev pub name_of_group : GroupMembership → String
name_of_group g =
    let name = trim_space g.group_name in if name == "" then "Untitled group" else name

abbrev pub name_class_of : String → GroupMembership → String
name_class_of active_group_id g =
    String.◌++◌
      "block w-full min-w-0 rounded-lg px-3 py-2 text-left leading-tight text-base-content"
      (if g.group_id == active_group_id then " bg-base-300/50" else "")

abbrev pub group_head : String → String → GroupMembership → List Piece
group_head name name_class g =
    raw "<li class=\"list-row items-center\">"
    ∷ raw "<div class=\"list-col-grow min-w-0\">"
    ∷ raw "<label class=\""
    ∷ shown name_class
    ∷ raw "\">"
    ∷ raw "<span class=\"block truncate\">"
    ∷ shown name
    ∷ raw "</span><span class=\"text-xs text-base-content/70\">"
    ∷ shown g.role
    ∷ raw "</span></label>"
    ∷ raw "</div>"
    ∷ raw
        "<button class=\"btn btn-sm btn-secondary btn-outline w-24\" data-connect-btn=\"1\" data-group-id=\""
    ∷ shown g.group_id
    ∷ raw "\" data-group-name=\""
    ∷ shown name
    ∷ raw "\" data-group-role=\""
    ∷ shown g.role
    ∷ raw
        "\" data-on:click=\"@setAll(evt.currentTarget.dataset.groupId, {include: /^active_group_id$/}); @setAll(evt.currentTarget.dataset.groupRole, {include: /^active_group_role$/}); @setAll(evt.currentTarget.dataset.groupId, {include: /^connected_group_id$/}); @setAll(evt.currentTarget.dataset.groupName, {include: /^connected_group_name$/}); @get('/ui/workspace?group_id=' + evt.currentTarget.dataset.groupId, {headers: {Authorization: 'Bearer ' + $access_token}, filterSignals: {include: /^$/}})\">Connect</button>"
    ∷ []

abbrev pub delete_group_button : GroupMembership → List Piece
delete_group_button g =
    raw
      "<button class=\"btn btn-sm btn-error btn-outline w-24\" data-indicator:delete_group_busy data-attr:disabled=\"$delete_group_busy\" data-group-id=\""
    ∷ shown g.group_id
    ∷ raw
        "\" data-on:click=\"evt.stopPropagation(); @setAll(true, {include: /^groups_dirty$/}); @setAll((evt.currentTarget.dataset.groupId === $active_group_id) ? '' : $active_group_id, {include: /^active_group_id$/}); @setAll((evt.currentTarget.dataset.groupId === $active_group_id) ? '' : $active_group_role, {include: /^active_group_role$/}); @setAll((evt.currentTarget.dataset.groupId === $connected_group_id) ? '' : $connected_group_id, {include: /^connected_group_id$/}); @setAll((evt.currentTarget.dataset.groupId === $connected_group_id) ? '' : $connected_group_name, {include: /^connected_group_name$/}); evt.currentTarget.dataset.groupId === $connected_group_id && @get('/events/disconnect', {headers: {Authorization: 'Bearer ' + $access_token}, filterSignals: {include: /^$/}}); @delete($api_base + '/api/v1/groups/' + evt.currentTarget.dataset.groupId, {headers: {Authorization: 'Bearer ' + $access_token}, filterSignals: {include: /^$/}})\">Delete</button>"
    ∷ []

abbrev pub no_delete_group_button : List Piece
no_delete_group_button =
    raw "<span class=\"btn btn-sm btn-ghost w-24 invisible\" aria-hidden=\"true\">Delete</span>"
    ∷ []

unfoldable pub group_row : String → GroupMembership → List Piece
group_row active_group_id g =
    group_head (name_of_group g) (name_class_of active_group_id g) g
    ++ ((if g.role == role_owner then delete_group_button g else no_delete_group_button)
        ++ (raw "</li>" ∷ []))

unfoldable pub group_rows : String → List GroupMembership → List Piece
unfolding group_row
group_rows active_group_id [] = []
group_rows active_group_id (g ∷ gs) = group_row active_group_id g ++ group_rows active_group_id gs

abbrev pub no_groups : Piece
no_groups =
    raw
      "<li class=\"list-row text-sm text-base-content/60\">No groups yet. Create one to start collaborating.</li></ul>"

-- `renderGroupsList`
unfoldable pub render_groups_list : List GroupMembership → String → List Piece
unfolding group_rows
render_groups_list [] active_group_id = groups_open ∷ no_groups ∷ []
render_groups_list (g ∷ gs) active_group_id =
    groups_open ∷ (group_rows active_group_id (g ∷ gs) ++ (raw "</ul>" ∷ []))

abbrev pub meta_of : TodoView → String
meta_of t = String.◌++◌ (String.◌++◌ "Created by " (trim_space t.created_by_username)) (
    if not (trim_space t.updated_by_username == "")
      && not (t.updated_by_username == t.created_by_username)
    then String.◌++◌ " • Updated by " (trim_space t.updated_by_username)
    else "")

abbrev pub input_id : TodoView → String
input_id t = String.◌++◌ "todo-edit-" t.todo_id

unfoldable pub can_edit : String → String → TodoView → Bool
can_edit actor_user_id role t =
    (role == role_owner) || (role == role_admin) || (t.created_by_user_id == actor_user_id)

abbrev pub todo_head : TodoView → List Piece
todo_head t =
    raw
      "<div class=\"card bg-base-100 border border-base-300/60 shadow\"><div class=\"card-body p-4 gap-3\">"
    ∷ raw "<div class=\"flex flex-col gap-3 lg:flex-row lg:items-start lg:justify-between\">"
    ∷ raw "<div><div class=\"font-semibold text-base-content text-base\">"
    ∷ shown t.title
    ∷ raw "</div><div class=\"text-xs text-base-content/70 mt-1\">"
    ∷ shown (meta_of t)
    ∷ raw "</div></div>"
    ∷ []

abbrev pub save_click : Piece
save_click =
    raw
      "\" data-on:click=\"@post($api_base + '/api/v1/command', {headers: {Authorization: 'Bearer ' + $access_token}, payload: {action: 'update-todo', title: document.getElementById(evt.currentTarget.dataset.inputId).value, group_id: $active_group_id, todo_id: evt.currentTarget.dataset.todoId}, filterSignals: {include: /^$/}})\">Save</button>"

abbrev pub delete_click : Piece
delete_click =
    raw
      "\" data-on:click=\"@post($api_base + '/api/v1/command', {headers: {Authorization: 'Bearer ' + $access_token}, payload: {action: 'delete-todo', title: '', group_id: $active_group_id, todo_id: evt.currentTarget.dataset.todoId}, filterSignals: {include: /^$/}})\">Delete</button>"

abbrev pub edit_controls : TodoView → List Piece
edit_controls t =
    raw
      "<div class=\"grid w-full gap-2 sm:grid-cols-[minmax(0,1fr)_auto_auto] sm:items-center lg:max-w-[28rem]\">"
    ∷ raw "<input id=\""
    ∷ shown (input_id t)
    ∷ raw "\" class=\"input input-bordered input-sm w-full min-w-0\" type=\"text\" value=\""
    ∷ shown t.title
    ∷ raw "\"/>"
    ∷ raw "<button class=\"btn btn-sm btn-outline\" data-todo-id=\""
    ∷ shown t.todo_id
    ∷ raw "\" data-input-id=\""
    ∷ shown (input_id t)
    ∷ save_click
    ∷ raw "<button class=\"btn btn-sm btn-error btn-outline\" data-todo-id=\""
    ∷ shown t.todo_id
    ∷ delete_click
    ∷ raw "</div>"
    ∷ []

abbrev pub read_only : List Piece
read_only = raw "<span class=\"badge badge-ghost badge-sm\">read-only</span>" ∷ []

unfoldable pub todo_row : String → String → TodoView → List Piece
unfolding can_edit
todo_row actor_user_id role t =
    todo_head t
    ++ ((if can_edit actor_user_id role t then edit_controls t else read_only)
        ++ (raw "</div></div></div>" ∷ []))

unfoldable pub todo_rows : String → String → List TodoView → List Piece
unfolding todo_row
todo_rows actor_user_id role [] = []
todo_rows actor_user_id role (t ∷ ts) =
    todo_row actor_user_id role t ++ todo_rows actor_user_id role ts

abbrev pub todos_open : String → List Piece
todos_open active_group_id =
    raw "<div id=\"todos\" data-group-id=\""
    ∷ shown (trim_space active_group_id)
    ∷ raw "\" class=\"space-y-3\">"
    ∷ []

abbrev pub no_group_chosen : Piece
no_group_chosen =
    raw
      "<div class=\"text-sm text-base-content/60 px-2 py-3\">Select or connect a group to view todos.</div></div>"

abbrev pub no_todos : Piece
no_todos =
    raw
      "<div class=\"text-sm text-base-content/60 px-2 py-3\">No todos in this group yet.</div></div>"

abbrev pub listed_todos : String → String → List TodoView → List Piece
listed_todos actor_user_id role [] = no_todos ∷ []
listed_todos actor_user_id role (t ∷ ts) =
    todo_rows actor_user_id role (t ∷ ts) ++ (raw "</div>" ∷ [])

-- `renderTodoList`
unfoldable pub render_todo_list : List TodoView → String → String → String → List Piece
unfolding todo_rows
render_todo_list todos actor_user_id role active_group_id =
    todos_open active_group_id
    ++ (if trim_space active_group_id == ""
        then no_group_chosen ∷ []
        else listed_todos actor_user_id role todos)

-- `renderEventsContainer`
unfoldable pub render_events_container : String → List Piece
render_events_container active_group_id =
    raw "<div id=\"events\" data-group-id=\""
    ∷ shown (trim_space active_group_id)
    ∷ raw "\" class=\"space-y-3 max-h-[24rem] overflow-auto pr-1\"></div>"
    ∷ []
