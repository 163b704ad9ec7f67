-- ===== src/App/Loop.antt =====
-- The events of the App's loop (src/app.rs): the tick of the render interval, connections, client
-- messages, process events and signals. The environment chooses their order.
use mtack.Base.{
  ℕ, Bool, true, false, not, ◌&&◌, ◌||◌, Option, none, some, Bytes, ltb, ◌==◌, if◌then◌else◌,
  modify, map, is_empty, is_some,
}
use mtack.Base.Panic.{◌>>=◌}
use mtack.Vt100.{Vt100}
use mtack.Key.{
  wheel_up, wheel_down, left_down, other_mouse, CtEvent, key_event, mouse_event, focus_gained,
  focus_lost, resize_event, other_event,
}
use mtack.Protocol.{ClientMsg, event, resize}
use mtack.Input.{Mode, normal, focused, search_mode, quitting, resolve}
use mtack.Terminal.Defs as Terminal
use mtack.Terminal.Search.{find_visible_matches}
use mtack.Process.Types.{Process, ProcessStatus, restart_yes, restart_no, Spawned}
use mtack.Process.Ops as Process
use mtack.Process.Ops.{state}
use mtack.Ui.Tabs.{Tab, tab_index_at_col}
use mtack.Server.{
  Client, Drawn, sent, busy, disconnected, unreachable, output_queue_size, capacity, resize_client,
}
use mtack.Server as Server
use mtack.App.State.{
  App, World, Env, selected_process, update_selected, on_terminal, resize_processes, set_size,
  all_stopped, detach, drop_client, begin_quit,
}
use mtack.App.Actions.{handle_action, select}

abbrev pub mouse_scroll_lines : ℕ
mouse_scroll_lines = 3

pub data Event : Type 0 where
  pty_output : ℕ → Bytes → Event
  process_exited : ℕ → ProcessStatus → Event

pub data ServerEvent : Type 0 where
  attach : Client → ℕ → ℕ → ServerEvent
  quit_request : ServerEvent

pub data LoopEvent : Type 0 where
  tick sigterm sighup : LoopEvent
  server_event : ServerEvent → LoopEvent
  client_msg : Option ClientMsg → LoopEvent
  app_event : Event → LoopEvent

abbrev pub unfocused : Mode → Mode
unfocused focused = normal
unfocused m = m

abbrev pub is_search : Mode → Bool
is_search search_mode = true
is_search _ = false

abbrev pub is_quitting : Mode → Bool
is_quitting quitting = true
is_quitting _ = false

resize_attached : ℕ → ℕ → Option Client → Option Client
resize_attached cols rows none = none
resize_attached cols rows (some c) = some (resize_client cols rows c)

module _ {vt : Vt100} where
  abbrev pub tab_of : Process vt → Tab
  tab_of p = record { name = p.config.name; state = state p }

  -- A click with the left button on the first row.
  unfoldable pub click : World → ℕ → App vt → App vt
  click world column app =
      elim (tab_index_at_col world.width (map tab_of app.processes) app.selected app.terminal_cols
        column) [
          | none ↦ app
          | some i ↦ let chosen = select i app in record chosen { mode = unfocused app.mode }
        ]

  unfoldable pub handle_crossterm_event : World → Env → CtEvent → App vt → Option (App vt)
  unfolding click
  handle_crossterm_event world env (key_event key) app = do
    p ← selected_process app
    elim (resolve key app.mode p.config.unfocus_key) [
      | none ↦ some app
      | some action ↦ handle_action world env action app
    ]
  handle_crossterm_event world env (mouse_event wheel_up column row) app =
      update_selected (on_terminal (Terminal.scroll_up mouse_scroll_lines)) app
  handle_crossterm_event world env (mouse_event wheel_down column row) app =
      update_selected (on_terminal (Terminal.scroll_down mouse_scroll_lines)) app
  handle_crossterm_event world env (mouse_event left_down column row) app =
      some (if row == 0 then click world column app else app)
  handle_crossterm_event world env (mouse_event (other_mouse n) column row) app = some app
  handle_crossterm_event world env focus_gained app = some (record app { focused = true })
  handle_crossterm_event world env focus_lost app = some (record app { focused = false })
  handle_crossterm_event world env (resize_event cols rows) app = some app
  handle_crossterm_event world env (other_event n) app = some app

  abbrev mark_dirty : App vt → App vt
  mark_dirty app = record app { dirty = true }

  unfoldable pub handle_client_msg : World → Env → ClientMsg → App vt → Option (App vt)
  unfolding resize_attached
  handle_client_msg world env (event e) app = do
    handled ← handle_crossterm_event world env e app
    synced ← update_selected Process.sync_paused handled
    some (mark_dirty synced)
  handle_client_msg world env (resize cols rows) app = some (
      mark_dirty
        (set_size cols rows (record app { client = resize_attached cols rows app.client })))

  attach_client : Client → ℕ → ℕ → App vt → App vt
  attach_client client cols rows app =
      let sized = set_size cols rows (detach app) in
      record sized { client = some client; dirty = true }

  unfoldable pub handle_server_event : ServerEvent → App vt → App vt
  unfolding attach_client
  handle_server_event (attach client cols rows) app = attach_client client cols rows app
  handle_server_event quit_request app = begin_quit app

  -- A process whose exit says so is started again at once.
  unfoldable pub exit_and_restart : ℕ → Spawned → ProcessStatus → Process vt → Process vt
  exit_and_restart now outcome status p = elim (Process.handle_exit p status now).1 [
    | restart_yes ↦ Process.start (Process.handle_exit p status now).0 now outcome
    | restart_no ↦ (Process.handle_exit p status now).0
  ]

  -- An unknown id is ignored (`get_mut`).
  unfoldable pub handle_app_event : Env → Event → App vt → App vt
  handle_app_event env (pty_output id bytes) app = record app {
    processes = modify id (λ p. Process.handle_output p bytes) app.processes;
  }
  handle_app_event env (process_exited id status) app = record app {
    processes = modify id (exit_and_restart env.now (env.spawn id) status) app.processes;
  }

  abbrev needs_render : Event → App vt → Bool
  needs_render (pty_output id bytes) app = id == app.selected
  needs_render (process_exited id status) app = true

  -- The search for the matches to highlight, which fills the terminal's cache.
  unfoldable pub highlight : World → App vt → Option (App vt)
  highlight world app =
      if not (is_empty app.search.query) && not (is_search app.mode)
      then (selected_process app >>= λ p.
          find_visible_matches world.to_lowercase p.terminal app.search.query >>= λ r.
          some (record app {
            processes = modify app.selected (λ q. record q { terminal = r.1 }) app.processes;
          }))
      else some app

  -- `none` is the panic of the branch that the code marks as unreachable.
  unfoldable pub after_draw : Client × Drawn → App vt → Option (App vt)
  after_draw (c, sent) app = some (record app { client = some c; dirty = false })
  after_draw (c, busy) app = some (record app { client = some c })
  after_draw (c, disconnected) app = some (drop_client app)
  after_draw (c, unreachable) app = none

  unfoldable pub draw_client : World → Bytes → Option Client → App vt → Option (App vt)
  unfolding highlight after_draw
  draw_client world frame none app = some app
  draw_client world frame (some c) app =
      if ltb (capacity c.outbox) output_queue_size
      then some app
      else (highlight world app >>= λ shown. after_draw (Server.draw frame c) shown)

  unfoldable pub draw : World → Env → App vt → Option (App vt)
  unfolding draw_client
  draw world env app = draw_client world env.frame app.client app

  unfoldable pub attached_msg :
      World → Env → Option Client → Option ClientMsg → App vt → Option (App vt)
  attached_msg world env none msg app = some app
  attached_msg world env (some c) none app = some (drop_client app)
  attached_msg world env (some c) (some msg) app = handle_client_msg world env msg app

  -- One event of the loop. A tick draws only if something is dirty and a client is attached, and a
  -- client message comes from an attached client only.
  unfoldable pub step : World → Env → LoopEvent → App vt → Option (App vt)
  unfolding attached_msg
  step world env tick app = if app.dirty && is_some app.client then draw world env app else some app
  step world env sigterm app = some (begin_quit app)
  step world env sighup app = some (begin_quit app)
  step world env (server_event e) app = some (handle_server_event e app)
  step world env (client_msg msg) app = attached_msg world env app.client msg app
  step world env (app_event e) app =
      let handled = handle_app_event env e app in
      some (record handled { dirty = app.dirty || needs_render e app })

  -- The loop is left.
  unfoldable pub is_done : App vt → Bool
  is_done app = app.should_quit || (is_quitting app.mode && all_stopped app)

  abbrev autostart : Env → Process vt → Process vt
  autostart env p = if p.config.autostart then Process.start p env.now (env.spawn p.id) else p

  -- What `run` does ahead of the loop.
  unfoldable pub startup : Env → App vt → App vt
  startup env app =
      let resized = resize_processes app in
      record resized { processes = map (autostart env) resized.processes }
