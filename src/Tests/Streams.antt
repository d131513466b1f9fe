-- ===== src/Tests/Streams.antt =====
-- The theorem on the streams of a user, where one stream has taken the place of another.
use todo_1m.Prelude.{◌≡◌, refl, inl, [], any, find, select}
use todo_1m.Streamer.Users.{
  UserStreamLease, State, connect, cancel_one, replace, connects, cancels, Reachable, start, next,
}
use todo_1m.Streamer.Users.Single.{GoesOn, single_stream}

abbrev old_tab : UserStreamLease
old_tab = record { user_id = "u1"; id = "1700000000" }

abbrev new_tab : UserStreamLease
new_tab = record { user_id = "u1"; id = "1700000001" }

abbrev switched : State
switched = cancel_one old_tab (
    connect new_tab
      (connect old_tab (record { registry = []; running = []; done = []; pending = [] })))

switched-Reachable : Reachable switched
unfolding connect replace any find
switched-Reachable =
    next (next (next start (connects old_tab _ refl)) (connects new_tab _ refl))
      (cancels old_tab _ refl)

new_tab-GoesOn : GoesOn switched new_tab
unfolding connect cancel_one replace any find select
new_tab-GoesOn = record { runs = inl refl; not_done = refl; not_pending = refl }

single_stream_example : new_tab.id ≡ new_tab.id
single_stream_example =
    single_stream switched new_tab new_tab switched-Reachable new_tab-GoesOn new_tab-GoesOn refl
