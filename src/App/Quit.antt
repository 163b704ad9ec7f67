-- ===== src/App/Quit.antt =====
-- How the App quits (src/app.rs): from `begin_quit` to the end of the loop.
use mtack.Base.{◌≡◌, Option, none, some, arith}
use mtack.Base.Panic.{◌>>=◌}
use mtack.Vt100.{Vt100}
use mtack.Key.{
  KeyEvent, CtEvent, key_event, mouse_event, wheel_up, wheel_down, left_down, other_mouse,
  focus_gained, focus_lost, resize_event, other_event,
}
use mtack.Protocol.{ClientMsg, event, resize}
use mtack.Input.{Action, quitting, resolve, force_quit}
use mtack.Input.Resolve.{resolve-Allows, Allows}
use mtack.Process.Types.{Process}
use mtack.App.State.{
  App, World, Env, selected_process, begin_quit, reset_view, drop_client, set_size, detach,
}
use mtack.App.Actions.{handle_action}
use mtack.App.Loop.{
  LoopEvent, tick, sigterm, sighup, server_event, client_msg, app_event, attach, quit_request,
  pty_output, process_exited, handle_crossterm_event, handle_client_msg, handle_server_event,
  handle_app_event, draw, step,
}

-- Of the outcome of a step: it is a panic, or the mode is still `quitting`.
abbrev pub StaysQuitting : {vt : Vt100} → Option (App vt) → Type 0
StaysQuitting none = Unit {0}
StaysQuitting (some app) = app.mode ≡ quitting

module _ {vt : Vt100} (world : World) (env : Env) where
  key-StaysQuitting :
      (action : Option Action) (app : App vt)
      → app.mode ≡ quitting
      → Allows app.mode action
      → StaysQuitting (elim action [ none ↦ some app | some a ↦ handle_action world env a app ])
  unfolding handle_action begin_quit
  key-StaysQuitting none app e h = e
  key-StaysQuitting (some force_quit) app e h = ground arith
  key-StaysQuitting (some a) app e h = ground arith

  pressed-StaysQuitting :
      (selected : Option (Process vt)) (key : KeyEvent) (app : App vt)
      → app.mode ≡ quitting
      → StaysQuitting (
          selected >>= λ p. elim (resolve key app.mode p.config.unfocus_key) [
            | none ↦ some app
            | some a ↦ handle_action world env a app
          ])
  pressed-StaysQuitting none key app q = tt
  pressed-StaysQuitting (some p) key app q =
      key-StaysQuitting (resolve key app.mode p.config.unfocus_key) app q
        (resolve-Allows key app.mode p.config.unfocus_key)

  crossterm-StaysQuitting :
      (e : CtEvent) (app : App vt)
      → app.mode ≡ quitting
      → StaysQuitting (handle_crossterm_event world env e app)
  unfolding handle_crossterm_event
  crossterm-StaysQuitting (key_event key) app q =
      pressed-StaysQuitting (selected_process app) key app q
  crossterm-StaysQuitting (mouse_event wheel_up c r) app q = ground arith
  crossterm-StaysQuitting (mouse_event wheel_down c r) app q = ground arith
  crossterm-StaysQuitting (mouse_event left_down c r) app q = ground arith
  crossterm-StaysQuitting (mouse_event (other_mouse n) c r) app q = ground arith
  crossterm-StaysQuitting focus_gained app q = ground arith
  crossterm-StaysQuitting focus_lost app q = ground arith
  crossterm-StaysQuitting (resize_event c r) app q = ground arith
  crossterm-StaysQuitting (other_event n) app q = ground arith

  client-StaysQuitting :
      (msg : ClientMsg) (app : App vt)
      → app.mode ≡ quitting
      → StaysQuitting (handle_client_msg world env msg app)
  unfolding handle_client_msg set_size
  client-StaysQuitting (event e) app q = ground (arith, crossterm-StaysQuitting e app q)
  client-StaysQuitting (resize cols rows) app q = ground arith

  draw-StaysQuitting : (app : App vt) → app.mode ≡ quitting → StaysQuitting (draw world env app)
  unfolding draw reset_view drop_client
  draw-StaysQuitting app q = ground arith

  -- Quitting is never taken back: whatever happens while the program is quitting, a key, a click, a
  -- new client, a detach, a drawing, output, exits or signals, it is quitting afterwards, unless the
  -- step panics.
  pub step-StaysQuitting :
      (e : LoopEvent) (app : App vt) → app.mode ≡ quitting → StaysQuitting (step world env e app)
  unfolding step begin_quit handle_server_event handle_app_event reset_view set_size detach
      drop_client
  step-StaysQuitting tick app q = ground (arith, draw-StaysQuitting app q)
  step-StaysQuitting sigterm app q = ground arith
  step-StaysQuitting sighup app q = ground arith
  step-StaysQuitting (server_event (attach c cols rows)) app q = ground arith
  step-StaysQuitting (server_event quit_request) app q = ground arith
  step-StaysQuitting (client_msg none) app q = ground arith
  step-StaysQuitting (client_msg (some msg)) app q = ground (arith, client-StaysQuitting msg app q)
  step-StaysQuitting (app_event (pty_output id bytes)) app q = ground arith
  step-StaysQuitting (app_event (process_exited id status)) app q = ground arith
