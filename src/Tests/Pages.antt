-- ===== src/Tests/Pages.antt =====
-- The theorems on pages and events at concrete inputs.
use Prim.Native.String
use todo_1m.Prelude.{
  ◌≡◌, refl, String, true, false, [], ◌∷◌, Option, some, find, select, split, trim_space,
  equal_fold, All, if◌then◌else◌, ◌==◌,
}
use todo_1m.Prelude.Splits.{lacks}
use todo_1m.Errors.{Result, ok, err}
use todo_1m.Postgres.{database}
use todo_1m.Platform.Auth.{Claims, sign, parse, bearer_token}
use todo_1m.Identity.Tables.{GroupMembership, select_groups}
use todo_1m.Identity.Repository.{list_groups_for_user}
use todo_1m.ReadModel.{TodoView}
use todo_1m.Query.{list_group_todos, select_group_todos, latest_first, page_limit}
use todo_1m.CommandApi.Http.{status_text}
use todo_1m.CommandApi.Http.Command.{submit, todo_reply}
use todo_1m.Streamer.Groups.{GroupStreamMessage}
use todo_1m.Streamer.Pages.{
  can_edit, todo_row, written, save_click, delete_click, render_groups_list, render_todo_list,
  render_events_container,
}
use todo_1m.Streamer.Pages.Controls.{offers, todo_reply-offers}
use todo_1m.Streamer.Pages.Markup.{markup, written_adds_no_markup}
use todo_1m.Streamer.Events.{
  Connections, send_patch, initial_patches, message_patches, token_of, get_events,
}
use todo_1m.Streamer.Events.Frames.{IsFrame, HasNoReturn, sse_lines, patches-IsFrame}
use todo_1m.Streamer.Events.Replacing.{IsReplaced, get_events-IsReplaced}
use todo_1m.Streamer.Reads.{Stores, workspace, get_workspace}
use todo_1m.Streamer.Reads.Workspace.{IsShown, get_workspace-IsShown}
use todo_1m.Streamer.Users.{UserStreamLease}
use todo_1m.Tests.Codecs.{plain}
use todo_1m.Tests.Codecs.Messages.{dotted}
use todo_1m.Tests.Data.{secret, nuid, todo, claims, request, server, first}

todo_reply-offers_example :
    (offers save_click (todo_row claims.subject "member" todo)
      ≡ offers delete_click (todo_row claims.subject "member" todo))
    × (todo_reply dotted nuid claims request "member" server (ok todo, server.todos) ≡ (
        if offers save_click (todo_row claims.subject "member" todo)
        then submit dotted nuid claims request (record server { todos = server.todos })
        else (
          status_text 403 "insufficient permissions for this action",
          record server { todos = server.todos },
        )))
unfolding trim_space
todo_reply-offers_example =
    todo_reply-offers dotted nuid claims request "member" server todo server.todos refl

-- A title that is a tag.
abbrev tagged : TodoView
tagged = record todo { title = "<script>alert('x')</script>" }

abbrev home : GroupMembership
home = record { group_id = "g1"; group_name = "home"; role = "owner" }

abbrev quoted : GroupMembership
quoted = record { group_id = "g\"2"; group_name = "<b>"; role = "owner" }

written_adds_no_markup_example :
    (markup (written (render_todo_list (todo ∷ []) "u2" "owner" "g1"))
      ≡ markup (written (render_todo_list (tagged ∷ []) "u2" "admin" "g2")))
    × (markup (written (render_groups_list (home ∷ []) "g1"))
        ≡ markup (written (render_groups_list (quoted ∷ []) "g2")))
unfolding can_edit trim_space
written_adds_no_markup_example =
    written_adds_no_markup (todo ∷ []) (tagged ∷ []) "u2" "owner" "g1" "u2" "admin" "g2" (home ∷ [])
      (quoted ∷ []) refl refl refl refl

abbrev item : String → String → Option String
item title subtitle = some (String.◌++◌ title "\n")

abbrev created : GroupStreamMessage
created = record { event = some first.event; seq = 1; todos = some (tagged ∷ []) }

no_return_first : All HasNoReturn (initial_patches item "g1" "u2" "owner" (ok (tagged ∷ [])))
unfolding initial_patches lacks can_edit trim_space written render_todo_list render_events_container
no_return_first = (refl, (refl, (refl, (refl, tt))))

no_return_later : All HasNoReturn (message_patches item "g1" "u2" "owner" created)
unfolding message_patches lacks can_edit trim_space written render_todo_list
no_return_later = (refl, (refl, tt))

patches-IsFrame_example :
    All IsFrame (initial_patches item "g1" "u2" "owner" (ok (tagged ∷ [])))
    × All IsFrame (message_patches item "g1" "u2" "owner" created)
unfolding lacks
patches-IsFrame_example =
    patches-IsFrame item "g1" "u2" "owner" (ok (tagged ∷ [])) created refl refl no_return_first
      no_return_later

-- A CR in a title ends a line of the event.
split_by_return :
    sse_lines (send_patch (record { selector = "#todos"; mode = "outer"; content = "a\rb" }))
    ≡ "event: datastar-patch-elements" ∷ "data: selector #todos" ∷ "data: mode outer"
      ∷ "data: elements a" ∷ "b" ∷ "" ∷ "" ∷ []
unfolding sse_lines send_patch split
split_by_return = refl

abbrev text_of : Result String → String
text_of (ok s) = s
text_of (err e) = ""

abbrev authorization : String
authorization = String.◌++◌ "Bearer " (text_of (sign plain secret 100_000_000_000 "u1" "ann"))

abbrev old_tab : UserStreamLease
old_tab = record { user_id = "u1"; id = "1" }

abbrev connections : Connections
connections = record { identity = server.identity; registry = old_tab ∷ []; cancelled = [] }

abbrev bearer : Claims
bearer = record claims { exp = 1000 }

has_token : (token_of authorization "" == "") ≡ false
unfolding sign token_of bearer_token trim_space equal_fold
has_token = refl

valid : parse plain secret 200_000_000_000 (token_of authorization "") ≡ ok bearer
unfolding sign parse token_of bearer_token trim_space split equal_fold
valid = refl

get_events-IsReplaced_example :
    IsReplaced bearer.subject "2" connections
      (get_events plain secret 200_000_000_000 authorization "" "2" "" true connections)
get_events-IsReplaced_example =
    get_events-IsReplaced plain secret 200_000_000_000 authorization "" "2" "" true connections
      bearer has_token valid

abbrev stores : Stores
stores = record { identity = server.identity; read_model = server.todos }

shown :
    (get_workspace plain secret 200_000_000_000 authorization " g1" stores).0
    ≡ workspace
        (render_groups_list (home ∷ []) "g1")
        (render_todo_list (todo ∷ []) "u1" "owner" "g1")
unfolding get_workspace sign parse bearer_token trim_space split list_groups_for_user select_groups
    database list_group_todos select_group_todos latest_first page_limit find select equal_fold
shown = refl

get_workspace-IsShown_example :
    IsShown plain secret 200_000_000_000 authorization
      (trim_space " g1")
      stores
      (render_groups_list (home ∷ []) "g1")
      (render_todo_list (todo ∷ []) "u1" "owner" "g1")
get_workspace-IsShown_example =
    get_workspace-IsShown plain secret 200_000_000_000 authorization " g1" stores
      (render_groups_list (home ∷ []) "g1") (render_todo_list (todo ∷ []) "u1" "owner" "g1") shown
