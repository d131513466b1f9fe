-- ===== src/Tests/Reads.antt =====
-- The theorem on who is shown todos, at a member's request.
use Prim.Native.String
use todo_1m.Prelude.{◌≡◌, refl, String, [], ◌∷◌, any, select, split, trim_space, equal_fold, atoi}
use todo_1m.Errors.{Result, ok, err}
use todo_1m.Postgres.{database}
use todo_1m.Platform.Auth.{sign, parse, bearer_token}
use todo_1m.Identity.Tables.{exists_membership}
use todo_1m.Identity.Repository.{is_user_in_group}
use todo_1m.Query.{list_group_todos, select_group_todos, latest_first, page_limit}
use todo_1m.Streamer.Reads.{Stores, get_todos, todos}
use todo_1m.Streamer.Reads.Members.{IsShown, todos_for_members}
use todo_1m.Tests.Codecs.{plain}
use todo_1m.Tests.Data.{secret, server, todo}

abbrev text_of : Result String → String
text_of (ok s) = s
text_of (err e) = ""

abbrev authorization : String
authorization = String.◌++◌ "Bearer " (text_of (sign plain secret 100_000_000_000 "u1" "ann"))

abbrev stores : Stores
stores = record { identity = server.identity; read_model = server.todos }

shown :
    (get_todos plain secret 200_000_000_000 authorization " g1" "10" stores).0 ≡ todos (todo ∷ [])
unfolding get_todos sign parse bearer_token trim_space split is_user_in_group exists_membership
    database list_group_todos select_group_todos latest_first page_limit any select equal_fold atoi
shown = refl

todos_for_members_example :
    IsShown plain secret 200_000_000_000 authorization (trim_space " g1") "10" stores (todo ∷ [])
todos_for_members_example =
    todos_for_members plain secret 200_000_000_000 authorization " g1" "10" stores (todo ∷ []) shown
