-- ===== src/App/Actions.antt =====
-- What the App does on an action (src/app.rs).
use mtack.Base.{
  ℕ, ◌+◌, ◌-◌, ◌%◌, Bool, true, false, not, [], ◌∷◌, ◌++◌, Option, none, some, Text, Bytes, ltb,
  if◌then◌else◌, length, is_empty,
}
use mtack.Base.Panic.{◌>>=◌}
use mtack.Base.Results.{Result, ok, err}
use mtack.Vt100.{Vt100}
use mtack.Key.{KeyEvent, key_event}
use mtack.Protocol.{Terminput}
use mtack.Input.{
  normal, focused, search_mode, confirm_quit, quitting, ScrollAmount, line, full_page, Action,
  select_tab, next_tab, prev_tab, focus, unfocus, start_process, stop_process, restart_process,
  scroll_up, scroll_down, scroll_to_top, scroll_to_bottom, enter_search, search_accept,
  search_cancel, search_input, search_backspace, search_fill_placeholder, search_next, search_prev,
  toggle_help, detach, quit, force_quit, cancel_quit, forward_key,
}
use mtack.Terminal.Defs as Terminal
use mtack.Process.Types.{Process, running, State, restart_yes, restart_no, Spawned}
use mtack.Process.Ops as Process
use mtack.Process.Ops.{state}
use mtack.App.State as State
use mtack.App.State.{
  App, World, Env, clear, selected_process, update_selected, on_terminal, resize_processes,
  has_running_processes, begin_quit,
}
use mtack.App.Search.{forward, backward, fill_placeholder, search_navigate}
use mtack.App.Search as Search

-- The last character is dropped (`String::pop`).
pop : Text → Text
pop [] = []
pop (c ∷ []) = []
pop (c ∷ d ∷ cs) = c ∷ pop (d ∷ cs)

bytes_or_none : {E : Type 0} → Result E Bytes → Bytes
bytes_or_none (ok bytes) = bytes
bytes_or_none (err e) = []

-- A key that cannot be converted or encoded gives no bytes.
unfoldable pub key_event_to_bytes : Terminput → KeyEvent → Bytes
unfolding bytes_or_none
key_event_to_bytes t key = elim (t.to_terminput (key_event key)) [
  | none ↦ []
  | some e ↦ bytes_or_none (t.encode 64 e)
]

abbrev pub is_running_state : State → Bool
is_running_state running = true
is_running_state _ = false

module _ {vt : Vt100} where
  abbrev pub scroll_lines : ScrollAmount → Process vt → ℕ
  scroll_lines line p = 1
  scroll_lines full_page p = (Terminal.size p.terminal).0

  -- The selected process is started again if the restart says so.
  unfoldable pub restart_now : ℕ → Spawned → Process vt → Process vt
  restart_now now outcome p = elim (Process.restart p).1 [
    | restart_yes ↦ Process.start (Process.restart p).0 now outcome
    | restart_no ↦ (Process.restart p).0
  ]

  -- The new index goes with a cleared search.
  abbrev pub select : ℕ → App vt → App vt
  select i app = record app { selected = i; search = clear app.search }

  abbrev quit_action : App vt → App vt
  quit_action app =
      let asking = record app { mode = confirm_quit } in
      elim app.mode [
        | confirm_quit ↦ begin_quit app
        | _ ↦ if has_running_processes app then asking else begin_quit app
      ]

  abbrev force_quit_action : App vt → App vt
  force_quit_action app = elim app.mode [
    | quitting ↦ record app { should_quit = true }
    | _ ↦ begin_quit app
  ]

  unfoldable pub handle_action : World → Env → Action → App vt → Option (App vt)
  unfolding pop restart_now
  handle_action world env (select_tab i) app =
      some (if ltb i (length app.processes) then select i app else app)
  handle_action world env next_tab app = some (
      if is_empty app.processes
      then app
      else select ((app.selected + 1) % length app.processes) app)
  handle_action world env prev_tab app = some (
      if is_empty app.processes
      then app
      else select ((app.selected + length app.processes - 1) % length app.processes) app)
  handle_action world env focus app = do
    p ← selected_process app
    some (if is_running_state (state p) then record app { mode = focused } else app)
  handle_action world env unfocus app = some (record app { mode = normal })
  handle_action world env start_process app =
      update_selected (λ p. Process.start p env.now (env.spawn app.selected)) app
  handle_action world env stop_process app = update_selected Process.stop app
  handle_action world env restart_process app =
      update_selected (restart_now env.now (env.spawn app.selected)) app
  handle_action world env (scroll_up amount) app =
      update_selected (λ p. on_terminal (Terminal.scroll_up (scroll_lines amount p)) p) app
  handle_action world env (scroll_down amount) app =
      update_selected (λ p. on_terminal (Terminal.scroll_down (scroll_lines amount p)) p) app
  handle_action world env enter_search app =
      some (record app { mode = search_mode; search = clear app.search })
  handle_action world env (search_input c) app =
      some (record app { search = record (app.search) { query = app.search.query ++ (c ∷ []) } })
  handle_action world env search_backspace app =
      some (record app { search = record (app.search) { query = pop app.search.query } })
  handle_action world env search_fill_placeholder app =
      some (record app { search = fill_placeholder app.search })
  handle_action world env search_accept app = Search.search_accept world.to_lowercase app
  handle_action world env search_cancel app =
      update_selected (on_terminal Terminal.scroll_to_bottom)
        (record app { search = clear app.search; mode = normal })
  handle_action world env search_next app = search_navigate forward app
  handle_action world env search_prev app = search_navigate backward app
  handle_action world env toggle_help app =
      some (resize_processes (record app { show_help = not app.show_help }))
  handle_action world env scroll_to_top app =
      update_selected (on_terminal Terminal.scroll_to_top) app
  handle_action world env scroll_to_bottom app =
      update_selected (on_terminal Terminal.scroll_to_bottom) app
  handle_action world env quit app = some (quit_action app)
  handle_action world env force_quit app = some (force_quit_action app)
  handle_action world env detach app = some (State.detach app)
  handle_action world env cancel_quit app = some (record app { mode = normal })
  handle_action world env (forward_key key) app =
      update_selected (λ p. Process.write p (key_event_to_bytes world.terminput key)) app
