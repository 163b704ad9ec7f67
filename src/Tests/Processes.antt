-- ===== src/Tests/Processes.antt =====
-- Processes on concrete inputs (src/process.rs).
use mtack.Base.{
  All, length, ◌≤◌, ◌≡◌, ◌≢◌, ◌↔◌, refl, Bool, true, false, List, [], ◌∷◌, ◌++◌, none, some, arith,
}
use mtack.Base.Utf8.{codes}
use mtack.Input.{esc_key}
use mtack.Config.Types.{ProcConfig}
use mtack.Process.Types.{
  running, stopping, failed_with, signal, restart_yes, spawned, Running, is_running, is_stopping,
  Process,
}
use mtack.Process.Ops.{start, handle_exit, state, write, writer_takes}
use mtack.Process.Transitions.{
  Op, starts, exits, drops, stops, restarts, apply, next_state, op_effects, apply-next_state,
  apply-effects,
}
use mtack.Process.Exits.{SettledAt, handle_exit_running}
use mtack.Process.Exits.Lost.{Spares, apply_all, start_while_stopping}
use mtack.Process.InputQueue.{
  InputOp, key, taken, accepted, keys, Prefix, StaysBehind, accepted-Prefix,
}
use mtack.Process.Writer.{
  closes, changes, Writer, WriterEvent, queues, receives, writes, took, interrupted, writer_run,
}
use mtack.Process.Writer.Order.{EndsLast, in_order, queued, writer_run-in_order}
use mtack.Process.Watcher as Watching
use mtack.Process.Watcher.{
  Watcher, reading, looks, reads, by_signal, watcher_run, watcher_run-paused,
}
use mtack.Tests.Machine.{vt}
use mtack.Tests.Terminals.{shown}

abbrev pub server_config : ProcConfig
server_config = record {
  name = codes "web";
  autostart = true;
  autorestart = true;
  program = codes "serve";
  args = [];
  cwd = none;
  env = [];
  scrollback = none;
  unfocus_key = esc_key;
}

abbrev running_child : Running
running_child = record {
  input = record { messages = (97 ∷ []) ∷ []; is_closed = false };
  size = (2, 8);
  pid = some 42;
}

-- A process that started at the time 5000.
abbrev pub web : Process vt
web = record {
  id = 0;
  terminal = shown;
  lifecycle = is_running running_child;
  config = server_config;
  shutdown_timeout = 3000;
  paused = true;
  last_start_time = some 5000;
  dropping_input = false;
  effects = [];
}

abbrev pub stopping_web : Bool → Process vt
stopping_web pending = record web { lifecycle = is_stopping pending }

apply-next_state_example : state (apply web restarts) ≡ next_state (state web) restarts
apply-next_state_example = apply-next_state web restarts

apply-effects_example : (apply web stops).effects ≡ op_effects web.lifecycle 3000 stops ++ []
apply-effects_example = apply-effects web stops

handle_exit_running_example :
    ((handle_exit web (failed_with 1) 7000).1 ≡ restart_yes)
    ↔ ((true ≡ true) × (failed_with 1 ≢ signal) × SettledAt (some 5000) 7000)
handle_exit_running_example = handle_exit_running web running_child (failed_with 1) 7000 refl

-- Afterwards the process is started again, stopped and dropped.
abbrev later_ops : List Op
later_ops = starts 8000 (spawned (some 44)) ∷ stops ∷ exits signal 8500 ∷ drops ∷ []

start_while_stopping_example :
    let q = start (stopping_web false) 7000 (spawned (some 43)) in
    let q' = (handle_exit q signal 7500).0 in
    (state q ≡ running)
    × (state q' ≢ running)
    × (state q' ≢ stopping)
    × All (Spares 43) (apply_all q' later_ops).effects
start_while_stopping_example =
    start_while_stopping (stopping_web false) false 43 signal 7000 7500 later_ops refl tt
      ((λ e. ground (arith, e)), (tt, (tt, (tt, tt))))

abbrev typed : List InputOp
typed = key (98 ∷ []) ∷ taken ∷ key (99 ∷ []) ∷ []

typed-StaysBehind : StaysBehind web typed
unfolding write writer_takes
typed-StaysBehind = ground arith

accepted-Prefix_example : Prefix (accepted web typed) (keys typed)
accepted-Prefix_example = accepted-Prefix web typed refl typed-StaysBehind

abbrev idle : Writer
idle = record {
  queue = (97 ∷ 98 ∷ 99 ∷ []) ∷ [];
  pending = [];
  written = [];
  wanted = none;
  size = none;
  is_closed = false;
  has_returned = false;
}

-- The first message takes two writes, one of them after an interruption; the second is pending as the
-- process is stopped and the task returns.
abbrev writer_events : List WriterEvent
writer_events =
    receives
    ∷ queues (100 ∷ [])
    ∷ writes (took 2)
    ∷ writes interrupted
    ∷ writes (took 1)
    ∷ receives
    ∷ closes
    ∷ queues (101 ∷ [])
    ∷ changes
    ∷ []

writer_run-in_order_example :
    (in_order (writer_run idle writer_events) ≡ in_order idle ++ queued false writer_events)
    × EndsLast (writer_run idle writer_events)
writer_run-in_order_example = writer_run-in_order idle writer_events tt (λ e. ground (arith, e))

-- The App pauses the task while it waits for output; one chunk still comes, the next does not.
abbrev watched : Watcher
watched = record { id = 0; paused = true; stage = reading; events = [] }

watcher_run-paused_example :
    length
      (watcher_run watched
        (reads (1 ∷ []) ∷ looks ∷ reads (2 ∷ []) ∷ Watching.exits by_signal ∷ [])).events
    ≤ 1
watcher_run-paused_example =
    watcher_run-paused watched
      (reads (1 ∷ []) ∷ looks ∷ reads (2 ∷ []) ∷ Watching.exits by_signal ∷ []) refl
      (tt, (tt, (tt, (tt, tt))))
