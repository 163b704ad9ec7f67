-- ===== src/Tests/Screens.antt =====
-- Keys, tabs and the App on concrete inputs (src/input.rs, src/ui/, src/app.rs).
use mtack.Base.{
  ℕ, ◌+◌, ◌<◌, ◌≡◌, ◌⊎◌, refl, true, false, List, [], ◌∷◌, some, arith, length, All, map, ◌==◌, ◌-◌,
  get_elem?,
}
use mtack.Base.Utf8.{codes}
use mtack.Key.{KeyEvent, char, enter, key_event, mouse_event, wheel_up}
use mtack.Input.{normal, search_mode, quitting}
use mtack.Protocol.{event}
use mtack.Terminal.Defs.{
  MatchSpan, Terminal, scrollback, size, is_scrolled_back, scroll_to_row, total_rows, scroll_up,
}
use mtack.Process.Types.{Process, success, running, stopped, spawned, is_stopped}
use mtack.Process.Ops.{sync_paused}
use mtack.Server.{new_client}
use mtack.Ui.Tabs.{Tab, sum, indicator, tab_width, visible_range}
use mtack.Ui.Tabs.Range.{Covers, Fits, IsMaximal, visible_range-IsBest}
use mtack.Ui.Help.{help_height_shows}
use mtack.Ui.Viewport.{Rect}
use mtack.Ui.Frame.{Layout, viewport_area}
use mtack.Ui.Frame.Size.{resize_processes-viewport_area}
use mtack.App.State.{resize_processes, App, World, Env, empty_search, selected_process, begin_quit}
use mtack.App.Search.{visible_center}
use mtack.App.Loop.{
  client_msg, process_exited, attach, handle_app_event, handle_client_msg, handle_crossterm_event,
  handle_server_event, step, is_done,
}
use mtack.Tests.Lowering.{expand}
use mtack.App.Quit.{StaysQuitting, step-StaysQuitting}
use mtack.App.Shutdown.{
  IsWinding, live_count, Restarted, begin_quit-IsWinding, exit-is_done, begin_quit-restart,
}
use mtack.App.View.{IsUnpaused, IsFresh, SaysGoodbye, attach_lem, handle_client_msg-paused}
use mtack.App.Navigate.{visible_center-scroll_to_row}
use mtack.Tests.Machine.{vt, laws}
use mtack.Tests.Terminals.{shown, printed, lower}
use mtack.Tests.Streams.{terminput}
use mtack.Tests.Processes.{web, stopping_web}

abbrev control_c : KeyEvent
control_c = record {
  code = char b'c';
  modifiers = record { shift = false; control = true; others = 0 };
  extra = 0;
}

-- Five tabs of ten columns each, the fourth selected, in a bar of thirty columns.
abbrev tab_widths : List ℕ
tab_widths = 10 ∷ 10 ∷ 10 ∷ 10 ∷ 10 ∷ []

visible_range-IsBest_example :
    let range = visible_range tab_widths 3 30 in
    Covers tab_widths 3 range
    × Fits tab_widths 30 (omega arith) 3 range
    × IsMaximal tab_widths 30 (omega arith) range
visible_range-IsBest_example = visible_range-IsBest tab_widths 30 (omega arith) 3 (omega arith)

abbrev pub tabs : List Tab
tabs =
    record { name = codes "web"; state = running }
    ∷ record { name = codes "db"; state = stopped }
    ∷ record { name = codes "worker"; state = running }
    ∷ []

pub tabs_small : sum (map (tab_width length) tabs) + 4 < 65536
unfolding tab_width indicator
tabs_small = omega arith

abbrev world : World
world = record { terminput = terminput; to_lowercase = lower; width = length }

abbrev env : Env
env = record { now = 9000; spawn = λ id. spawned (some (50 + id)); frame = 1 ∷ [] }

-- One process runs, another is stopping.
abbrev app : App vt
app = record {
  processes = web ∷ stopping_web false ∷ [];
  selected = 0;
  mode = normal;
  show_help = true;
  terminal_cols = 80;
  terminal_rows = 24;
  should_quit = false;
  dirty = false;
  search = record empty_search { query = codes "two" };
  focused = false;
  client = some (new_client 80 24);
  goodbyes = [];
}

abbrev quitting_app : App vt
quitting_app = record app {
  mode = quitting;
  processes = record web { lifecycle = is_stopped } ∷ stopping_web false ∷ [];
}

abbrev restarting_app : App vt
restarting_app = record app { processes = web ∷ stopping_web true ∷ [] }

step-StaysQuitting_example :
    StaysQuitting (step world env (client_msg (some (event (key_event control_c)))) quitting_app)
step-StaysQuitting_example =
    step-StaysQuitting world env (client_msg (some (event (key_event control_c)))) quitting_app refl

abbrev enter_key : KeyEvent
enter_key = record {
  code = enter;
  modifiers = record { shift = false; control = false; others = 0 };
  extra = 0;
}

-- A search is about to be accepted.
abbrev searching_app : App vt
searching_app = record app { mode = search_mode }

-- The case conversion makes some texts longer, but none on the screen.
abbrev expanding : World
expanding = record world { to_lowercase = expand }

begin_quit-IsWinding_example :
    All IsWinding (begin_quit app).processes
    × ((is_done (begin_quit app) ≡ true) ⊎ ((begin_quit app).mode ≡ quitting))
begin_quit-IsWinding_example = begin_quit-IsWinding app (refl, (refl, tt))

exit-is_done_example :
    let after = handle_app_event env (process_exited 1 success) quitting_app in
    All IsWinding after.processes
    × (live_count after.processes + 1 ≡ live_count quitting_app.processes)
    × (is_done after ≡ (live_count after.processes == 0))
exit-is_done_example =
    exit-is_done env quitting_app 1 (stopping_web false) success refl refl (refl, (refl, tt)) refl
      refl

begin_quit-restart_example : Restarted env 1 success (begin_quit restarting_app)
begin_quit-restart_example =
    begin_quit-restart env restarting_app 1 (stopping_web true) success (some 51) refl refl refl
      refl

attach_lem_example :
    let attached = handle_server_event (attach (new_client 100 30) 100 30) app in
    (attached.client ≡ some (new_client 100 30))
    × (attached.terminal_cols ≡ 100)
    × (attached.terminal_rows ≡ 30)
    × (attached.dirty ≡ true)
    × IsFresh attached
    × All IsUnpaused attached.processes
    × SaysGoodbye (some (new_client 80 24)) attached.goodbyes
attach_lem_example = attach_lem laws (new_client 100 30) 100 30 app

abbrev two_matches : List MatchSpan
two_matches = record { row = 1; col = 0; len = 3 } ∷ record { row = 4; col = 0; len = 3 } ∷ []

-- With three rows, the row below the one that was scrolled to.
abbrev odd : Terminal vt
odd = record shown { parser = record printed { size = (3, 8) } }

visible_center-scroll_to_row_example :
    let t' = scroll_to_row 2 odd in visible_center (total_rows t').0 (scrollback t') (size t').0 ≡ 3
visible_center-scroll_to_row_example =
    visible_center-scroll_to_row laws odd 2 refl refl (omega arith) (omega arith)

abbrev scrolled_app : App vt
scrolled_app = record app {
  processes =
      record web {
        terminal = record shown { parser = record printed { above = 0; below = 3 } };
        paused = true;
      }
      ∷ stopping_web false
      ∷ [];
  dirty = true;
}

scrolled : handle_client_msg world env (event (mouse_event wheel_up 5 5)) app ≡ some scrolled_app
unfolding handle_client_msg handle_crossterm_event scroll_up sync_paused
scrolled = refl

handle_client_msg-paused_example :
    (p : Process vt) × (selected_process scrolled_app ≡ some p)
    × (p.paused ≡ is_scrolled_back p.terminal)
handle_client_msg-paused_example =
    handle_client_msg-paused world env (mouse_event wheel_up 5 5) app scrolled_app scrolled

-- A layout that gives the last rows to the bottom, and what is left of the others to the middle.
abbrev rows_of : Layout
rows_of = record {
  thirds = λ b area. (
    record area { height = 1 },
    record area { y = area.y + 1; height = area.height - (1 + b) },
    record area { y = area.y + (area.height - b); height = b },
  );
  halves = λ area. (
    record area { height = area.height - 1 },
    record area { y = area.y + (area.height - 1); height = 1 },
  );
}

abbrev screen_area : Rect
screen_area = record { x = 0; y = 0; width = 80; height = 24 }

resize_processes-viewport_area_example :
    (q : Process vt) × (get_elem? (resize_processes app).processes 1 ≡ some q)
    × (size q.terminal ≡ (
      (viewport_area rows_of app screen_area).height,
      (viewport_area rows_of app screen_area).width,
    ))
resize_processes-viewport_area_example =
    resize_processes-viewport_area (λ rows cols p r c. refl) {layout = rows_of}
      record { thirds-middle = λ b area room. (refl, refl) } app screen_area 1 (stopping_web false)
      refl refl (omega arith) (omega (arith, (help_height_shows 80).2)) refl
