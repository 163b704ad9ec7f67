-- ===== src/Process/Ops.antt =====
-- The operations of a process (src/process.rs). The outcome of a spawn and the time are arguments.
use mtack.Base.{
  ℕ, ◌-◌, Bool, true, false, not, ◌&&◌, List, [], ◌∷◌, ◌++◌, Option, none, some, Text, Bytes, ltb,
  if◌then◌else◌, length, is_some,
}
use mtack.Base.Utf8.{codes}
use mtack.Vt100.{Vt100}
use mtack.Terminal.Defs.{Terminal}
use mtack.Terminal.Defs as Terminal
use mtack.Config.Types.{ProcConfig}
use mtack.Process.Types.{
  State, ProcessStatus, success, failed_with, signal, ShouldRestart, restart_yes, restart_no, Sent,
  queued, full, closed, Effect, sigterm, kill_after, Spawned, spawned, spawn_error,
  crash_loop_threshold, input_queue_size, InputChannel, Running, Lifecycle, is_stopped, is_running,
  is_stopping, is_failed, Process, state_of,
}

unfoldable pub new : (vt : Vt100) → ℕ → ProcConfig → ℕ → ℕ → ℕ → ℕ → Process vt
unfolding Terminal.new
new vt id config rows cols scrollback shutdown_timeout = record {
  id = id;
  terminal = Terminal.new vt rows cols scrollback;
  lifecycle = is_stopped;
  config = config;
  shutdown_timeout = shutdown_timeout;
  paused = false;
  last_start_time = none;
  dropping_input = false;
  effects = [];
}

capacity : InputChannel → ℕ
capacity c = input_queue_size - length c.messages

unfoldable pub try_send : Bytes → InputChannel → InputChannel × Sent
unfolding capacity
try_send bytes c =
    if c.is_closed
    then (c, closed)
    else if ltb 0 (capacity c)
    then (record c { messages = c.messages ++ (bytes ∷ []) }, queued)
    else (c, full)

abbrev is_full : Sent → Bool
is_full full = true
is_full _ = false

pub dropped_label : Text
dropped_label = codes "input dropped: process isn't reading fast enough"

pub failed_label : Text → Text → Text
failed_label program e = codes "failed to start " ++ (program ++ (codes ": " ++ e))

abbrev term_effects : Option ℕ → List Effect
term_effects none = []
term_effects (some pid) = sigterm pid ∷ []

abbrev mark_restart : Lifecycle → Lifecycle
mark_restart (is_stopping pending) = is_stopping true
mark_restart l = l

abbrev resize_lifecycle : ℕ → ℕ → Lifecycle → Lifecycle
resize_lifecycle rows cols (is_running r) = is_running (record r { size = (rows, cols) })
resize_lifecycle rows cols l = l

abbrev by_exit : ProcessStatus → Bool
by_exit success = true
by_exit (failed_with code) = true
by_exit signal = false

abbrev exit_lifecycle : ProcessStatus → Lifecycle
exit_lifecycle success = is_stopped
exit_lifecycle (failed_with code) = is_failed
exit_lifecycle signal = is_failed

-- The writer task takes the oldest message.
abbrev take_message : InputChannel → InputChannel
take_message c = record c { messages = elim c.messages [ [] ↦ [] | m ∷ ms ↦ ms ] }

module _ {vt : Vt100} where
  abbrev pub state : Process vt → State
  state p = state_of p.lifecycle

  unfoldable pub sync_paused : Process vt → Process vt
  sync_paused p = record p { paused = Terminal.is_scrolled_back p.terminal }

  abbrev fresh_running : Process vt → Option ℕ → Lifecycle
  fresh_running p pid = is_running (record {
    input = record { messages = []; is_closed = false };
    size = Terminal.size p.terminal;
    pid = pid;
  })

  finish_start : Process vt → ℕ → Spawned → Process vt
  unfolding sync_paused
  finish_start p now (spawned pid) = sync_paused (record p {
    lifecycle = fresh_running p pid;
    dropping_input = false;
    last_start_time = some now;
  })
  finish_start p now (spawn_error e) = record p {
    terminal = Terminal.inject_banner (failed_label p.config.program e) p.terminal;
    lifecycle = is_failed;
  }

  start_banner : Process vt → Process vt
  start_banner p =
      if is_some p.last_start_time
      then record p { terminal = Terminal.inject_banner (codes "restarted") p.terminal }
      else p

  start_from : Lifecycle → Process vt → ℕ → Spawned → Process vt
  unfolding finish_start start_banner
  start_from (is_running r) p now outcome = p
  start_from _ p now outcome = finish_start (start_banner p) now outcome

  -- The clock and the outcome of the spawn are the arguments.
  unfoldable pub start : Process vt → ℕ → Spawned → Process vt
  unfolding start_from
  start p now outcome = start_from p.lifecycle p now outcome

  stop_from : Lifecycle → Process vt → Process vt
  stop_from (is_running r) p = record p {
    paused = false;
    lifecycle = is_stopping false;
    effects = kill_after p.shutdown_timeout r.pid ∷ (term_effects r.pid ++ p.effects);
  }
  stop_from _ p = p

  unfoldable pub stop : Process vt → Process vt
  unfolding stop_from
  stop p = stop_from p.lifecycle p

  restart_from : Lifecycle → Process vt → Process vt × ShouldRestart
  unfolding stop
  restart_from is_stopped p = (p, restart_yes)
  restart_from is_failed p = (p, restart_yes)
  restart_from (is_running r) p =
      let q = stop p in (record q { lifecycle = mark_restart q.lifecycle }, restart_no)
  restart_from (is_stopping pending) p =
      (record p { lifecycle = mark_restart p.lifecycle }, restart_no)

  unfoldable pub restart : Process vt → Process vt × ShouldRestart
  unfolding restart_from
  restart p = restart_from p.lifecycle p

  write_running : Running → Process vt → Bytes → Process vt
  unfolding try_send
  write_running r p bytes =
      let (input, sent) = try_send bytes r.input in
      let q = record p { lifecycle = is_running (record r { input = input }) } in
      if p.dropping_input && ltb (capacity r.input) input_queue_size
      then p
      else (record (if is_full sent && not p.dropping_input
          then record q { terminal = Terminal.inject_banner dropped_label q.terminal }
          else q) { dropping_input = is_full sent })

  write_from : Lifecycle → Process vt → Bytes → Process vt
  unfolding write_running
  write_from (is_running r) p bytes = write_running r p bytes
  write_from _ p bytes = p

  unfoldable pub write : Process vt → Bytes → Process vt
  unfolding write_from
  write p bytes = write_from p.lifecycle p bytes

  unfoldable pub resize : ℕ → ℕ → Process vt → Process vt
  resize rows cols p = record p {
    terminal = Terminal.resize rows cols p.terminal;
    lifecycle = resize_lifecycle rows cols p.lifecycle;
  }

  unfoldable pub handle_output : Process vt → Bytes → Process vt
  handle_output p bytes = record p { terminal = Terminal.process bytes p.terminal }

  -- `last_start_time.elapsed()`, which is 0 for a time that has not come yet.
  abbrev too_fast : Process vt → ℕ → Bool
  too_fast p now = elim p.last_start_time [
    | none ↦ false
    | some t ↦ ltb (now - t) crash_loop_threshold
  ]

  -- The end of `handle_exit`, behind its early return.
  exit_with : Bool → Bool → Process vt → ProcessStatus → ℕ → Process vt × ShouldRestart
  exit_with was_stopping pending_restart p status now =
      let q = record p { lifecycle = if was_stopping then is_stopped else exit_lifecycle status } in
      if pending_restart
      then (q, restart_yes)
      else if not was_stopping && p.config.autorestart && not (too_fast p now) && by_exit status
      then (q, restart_yes)
      else (q, restart_no)

  exit_from : Lifecycle → Process vt → ProcessStatus → ℕ → Process vt × ShouldRestart
  unfolding exit_with
  exit_from is_stopped p status now = (p, restart_no)
  exit_from is_failed p status now = (p, restart_no)
  exit_from (is_running r) p status now = exit_with false false p status now
  exit_from (is_stopping pending) p status now = exit_with true pending p status now

  unfoldable pub handle_exit : Process vt → ProcessStatus → ℕ → Process vt × ShouldRestart
  unfolding exit_from
  handle_exit p status now = exit_from p.lifecycle p status now

  -- `Drop`: the watcher is let go, and a running process is told to end.
  drop_from : Lifecycle → Process vt → Process vt
  drop_from (is_running r) p = record p {
    paused = false;
    lifecycle = is_stopped;
    effects = term_effects r.pid ++ p.effects;
  }
  drop_from _ p = record p { paused = false; lifecycle = is_stopped }

  unfoldable pub drop : Process vt → Process vt
  unfolding drop_from
  drop p = drop_from p.lifecycle p

  take_from : Lifecycle → Process vt → Process vt
  take_from (is_running r) p = record p {
    lifecycle = is_running (record r { input = take_message r.input });
  }
  take_from _ p = p

  unfoldable pub writer_takes : Process vt → Process vt
  unfolding take_from
  writer_takes p = take_from p.lifecycle p
