-- ===== src/App/State.antt =====
-- The state of the App, and what it does to all processes at once (src/app.rs). An index out of
-- range is a panic: such a function gives an `Option`.
use mtack.Base.{
  ℕ, suc, ◌+◌, ◌-◌, Bool, true, false, not, is_empty, ◌&&◌, List, [], ◌∷◌, ◌++◌, Option, none, some,
  Text, Bytes, ltb, if◌then◌else◌, length, get_elem?, modify, map, all, any,
}
use mtack.Vt100.{Vt100}
use mtack.Protocol.{Terminput}
use mtack.Input.{Mode, normal, quitting}
use mtack.Terminal.Defs.{Terminal, MatchSpan, VisibleMatchSpan}
use mtack.Terminal.Defs as Terminal
use mtack.Process.Types.{Process, Spawned, running, stopping}
use mtack.Process.Ops as Process
use mtack.Process.Ops.{state}
use mtack.Config.Types.{Config, ProcConfig, scrollback_of}
use mtack.Server.{Client, Outbox, detach_client, is_finished}
use mtack.Ui.Help.{help_height}

pub record SearchState : Type 0 where
  pub query : Text
  pub last_query : Text
  pub matches : List MatchSpan
  pub current : Option ℕ

-- What the App takes from outside: the conversions of terminput, the case conversion of texts and
-- their width.
pub record World : Type 1 where
  pub terminput : Terminput
  pub to_lowercase : Text → Text
  pub width : Text → ℕ

-- What the outside answers during one event: the time, what comes of spawning a process, and the
-- bytes that ratatui renders for a frame.
pub record Env : Type 0 where
  pub now : ℕ
  pub spawn : ℕ → Spawned
  pub frame : Bytes

-- `goodbyes` are the outboxes of detached clients.
pub record App (vt : Vt100) : Type 0 where
  pub processes : List (Process vt)
  pub selected : ℕ
  pub mode : Mode
  pub show_help : Bool
  pub terminal_cols : ℕ
  pub terminal_rows : ℕ
  pub should_quit : Bool
  pub dirty : Bool
  pub search : SearchState
  pub focused : Bool
  pub client : Option Client
  pub goodbyes : List Outbox

abbrev pub empty_search : SearchState
empty_search = record { query = []; last_query = []; matches = []; current = none }

abbrev pub no_matches : SearchState → Bool
no_matches s = not (is_empty s.query) && is_empty s.matches

abbrev pub match_count : SearchState → ℕ
match_count s = length s.matches

-- The last query is kept.
abbrev pub clear : SearchState → SearchState
clear s = record s { query = []; matches = []; current = none }

new_processes : (vt : Vt100) → Config → ℕ → List ProcConfig → List (Process vt)
unfolding Process.new
new_processes vt config id [] = []
new_processes vt config id (c ∷ cs) =
    Process.new vt id c 24 80 (scrollback_of c config.scrollback) config.shutdown_timeout
    ∷ new_processes vt config (suc id) cs

unfoldable pub new : (vt : Vt100) → Config → App vt
unfolding new_processes
new vt config = record {
  processes = new_processes vt config 0 config.procs;
  selected = 0;
  mode = normal;
  show_help = false;
  terminal_cols = 80;
  terminal_rows = 24;
  should_quit = false;
  dirty = true;
  search = empty_search;
  focused = true;
  client = none;
  goodbyes = [];
}

abbrev unless_quitting : Mode → Mode
unless_quitting quitting = quitting
unless_quitting m = normal

-- Goodbyes that are through are forgotten.
unfoldable pub unfinished : List Outbox → List Outbox
unfinished [] = []
unfinished (o ∷ os) = let rest = unfinished os in if is_finished o then rest else o ∷ rest

module _ {vt : Vt100} where
  -- `self.processes[self.selected]`, read and changed.
  abbrev pub selected_process : App vt → Option (Process vt)
  selected_process app = get_elem? app.processes app.selected

  abbrev pub update_selected : (Process vt → Process vt) → App vt → Option (App vt)
  update_selected f app =
      if ltb app.selected (length app.processes)
      then some (record app { processes = modify app.selected f app.processes })
      else none

  abbrev pub on_terminal : (Terminal vt → Terminal vt) → Process vt → Process vt
  on_terminal f p = record p { terminal = f p.terminal }

  abbrev pub is_live : Process vt → Bool
  is_live p = elim (state p) [ running ↦ true | stopping ↦ true | _ ↦ false ]

  unfoldable pub has_running_processes : App vt → Bool
  has_running_processes app = any is_live app.processes

  unfoldable pub all_stopped : App vt → Bool
  all_stopped app = all (λ p. not (is_live p)) app.processes

  abbrev pub viewport_rows : App vt → ℕ
  viewport_rows app =
      app.terminal_rows - (1 + (if app.show_help then help_height app.terminal_cols else 1))

  unfoldable pub resize_processes : App vt → App vt
  resize_processes app = record app {
    processes = map (Process.resize (viewport_rows app) app.terminal_cols) app.processes;
  }

  unfoldable pub set_size : ℕ → ℕ → App vt → App vt
  unfolding resize_processes
  set_size cols rows app =
      resize_processes (record app { terminal_cols = cols; terminal_rows = rows })

  abbrev pub to_bottom : Process vt → Process vt
  to_bottom p = Process.sync_paused (on_terminal Terminal.scroll_to_bottom p)

  unfoldable pub reset_view : App vt → App vt
  reset_view app = record app {
    mode = unless_quitting app.mode;
    show_help = false;
    search = clear app.search;
    focused = true;
    processes = map to_bottom app.processes;
  }

  unfoldable pub take_client : Option Client → App vt → App vt
  unfolding unfinished
  take_client none app = app
  take_client (some c) app = record app {
    client = none;
    goodbyes = unfinished app.goodbyes ++ (detach_client c ∷ []);
  }

  unfoldable pub detach : App vt → App vt
  unfolding take_client reset_view
  detach app = reset_view (take_client app.client app)

  unfoldable pub drop_client : App vt → App vt
  unfolding reset_view
  drop_client app = reset_view (record app { client = none })

  unfoldable pub begin_quit : App vt → App vt
  unfolding all_stopped resize_processes
  begin_quit app =
      let closing = record app { mode = quitting; show_help = false; dirty = true } in
      let resized = resize_processes closing in
      if all_stopped app
      then record app { should_quit = true }
      else record resized { processes = map Process.stop resized.processes }
