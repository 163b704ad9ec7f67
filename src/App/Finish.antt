-- ===== src/App/Finish.antt =====
-- What `App::run` does once its loop is left, and how long it waits for the goodbyes (src/app.rs, src/server.rs).
use mtack.Base.{ℕ, suc, Bool, List, [], ◌∷◌, ◌++◌, Option, none, some, if◌then◌else◌}
use mtack.Vt100.{Vt100}
use mtack.Server.{Client, Outbox, exit_client, is_finished}
use mtack.App.State.{App}
use mtack.App.Loop.{ServerEvent, attach, quit_request}

abbrev exit_of : Option Client → List Outbox
exit_of none = []
exit_of (some c) = exit_client c ∷ []

-- The clients that attached as the loop was left.
abbrev pub late_exits : List ServerEvent → List Outbox
late_exits [] = []
late_exits (attach c cols rows ∷ events) = exit_client c ∷ late_exits events
late_exits (quit_request ∷ events) = late_exits events

-- The goodbyes that are to be delivered: `waiting` are the requests left in the channel.
unfoldable pub finish : {vt : Vt100} → List ServerEvent → App vt → List Outbox
finish waiting app = (app.goodbyes ++ exit_of app.client) ++ late_exits waiting

-- The clients that are cut off: none if the goodbyes are through in time, and else those that are not.
unfoldable pub flush_goodbyes : Bool → List Outbox → ℕ
flush_goodbyes timed_out [] = 0
flush_goodbyes timed_out (o ∷ os) =
    let rest = flush_goodbyes timed_out os in
    if timed_out then (if is_finished o then rest else suc rest) else rest
