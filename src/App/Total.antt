-- ===== src/App/Total.antt =====
-- No event makes the App panic (src/app.rs), and the selected process is always there.
pub mod Searches
pub mod Rows
pub mod Selected
use mtack.Base.{
  ℕ, zero, suc, ◌+◌, ◌-◌, ◌%◌, ◌≤◌, ◌≡◌, refl, ap, ◌∙◌, subst, sym, Bool, false, ◌||◌, List, [],
  ◌∷◌, Text, Bytes, get_elem?, modify, map, length-modify, length-map, take, drop, length-take, min,
  if◌then◌else◌, u16, leb,
}
use mtack.Vt100.{Vt100}
use mtack.Process.Types.{Process}
use mtack.Process.Ops as Process
use mtack.Server.{Drawn, sent, busy, disconnected, unreachable}
use mtack.Server as Server
use mtack.Ui.Tabs.{index_from, tab_index_at_col, Tab, tab_width, visible_range, left_cost}
use mtack.App.State.{App, set_size, resize_processes, begin_quit, reset_view, drop_client}
use mtack.App.State as State
use mtack.App.Search.{search_navigate}
use mtack.App.Search as Search
use mtack.App.Loop.{
  ServerEvent, attach, quit_request, Event, pty_output, process_exited, handle_server_event,
  handle_app_event, after_draw,
}
