-- ===== src/Process/Transitions.antt =====
-- The lifecycle as a state machine (src/process.rs): which operation moves it where, and what it
-- asks of the operating system on the way.
use mtack.Base.{ℕ, ◌≡◌, refl, List, [], ◌∷◌, ◌++◌, Option, none, some, Bytes, arith}
use mtack.Vt100.{Vt100}
use mtack.Process.Types.{
  State, stopped, running, stopping, failed, ProcessStatus, success, failed_with, signal, Effect,
  sigterm, kill_after, Spawned, spawned, spawn_error, Lifecycle, is_stopped, is_running,
  is_stopping, is_failed, Process, state_of,
}
use mtack.Process.Ops.{
  start, stop, restart, write, resize, handle_output, handle_exit, writer_takes, sync_paused, state,
  drop,
}

pub data Op : Type 0 where
  starts : ℕ → Spawned → Op
  stops restarts syncs takes drops : Op
  writes outputs : Bytes → Op
  resizes : ℕ → ℕ → Op
  exits : ProcessStatus → ℕ → Op

module _ {vt : Vt100} where
  -- One operation on the process.
  abbrev pub apply : Process vt → Op → Process vt
  apply p (starts now outcome) = start p now outcome
  apply p stops = stop p
  apply p restarts = (restart p).0
  apply p syncs = sync_paused p
  apply p takes = writer_takes p
  apply p drops = drop p
  apply p (writes bytes) = write p bytes
  apply p (outputs bytes) = handle_output p bytes
  apply p (resizes rows cols) = resize rows cols p
  apply p (exits status now) = (handle_exit p status now).0

-- The diagram: the state after an operation. All that is not named stays where it is.
abbrev pub next_state : State → Op → State
next_state running (starts now outcome) = running
next_state _ (starts now (spawned pid)) = running
next_state _ (starts now (spawn_error e)) = failed
next_state running stops = stopping
next_state running restarts = stopping
next_state running (exits success now) = stopped
next_state running (exits (failed_with code) now) = failed
next_state running (exits signal now) = failed
next_state stopping (exits status now) = stopped
next_state s drops = stopped
next_state s op = s

abbrev pub stop_effects : ℕ → Option ℕ → List Effect
stop_effects timeout none = kill_after timeout none ∷ []
stop_effects timeout (some pid) = kill_after timeout (some pid) ∷ sigterm pid ∷ []

abbrev pub drop_effects : Option ℕ → List Effect
drop_effects none = []
drop_effects (some pid) = sigterm pid ∷ []

-- What an operation asks of the operating system, the latest first: a stop of a running process,
-- also the one in a restart, is SIGTERM to the group and the timer for SIGKILL; the drop of a
-- running process is SIGTERM to the group; nothing else is anything.
abbrev pub op_effects : Lifecycle → ℕ → Op → List Effect
op_effects (is_running r) timeout stops = stop_effects timeout r.pid
op_effects (is_running r) timeout restarts = stop_effects timeout r.pid
op_effects (is_running r) timeout drops = drop_effects r.pid
op_effects l timeout op = []

module _ {vt : Vt100} where
  next_from :
      (l : Lifecycle) (p : Process vt) (op : Op)
      → p.lifecycle ≡ l
      → state (apply p op) ≡ next_state (state_of l) op
  unfolding start stop restart sync_paused writer_takes write handle_output resize handle_exit drop
  next_from is_stopped p op e = ground arith
  next_from (is_running r) p op e = ground arith
  next_from (is_stopping b) p op e = ground arith
  next_from is_failed p op e = ground arith

  -- Every operation, in every state, moves the process as the diagram `next_state` says.
  pub apply-next_state : (p : Process vt) (op : Op) → state (apply p op) ≡ next_state (state p) op
  apply-next_state p op = next_from p.lifecycle p op refl

  effects_from :
      (l : Lifecycle) (p : Process vt) (op : Op)
      → p.lifecycle ≡ l
      → (apply p op).effects ≡ op_effects l p.shutdown_timeout op ++ p.effects
  unfolding start stop restart sync_paused writer_takes write handle_output resize handle_exit drop
  effects_from is_stopped p op e = ground arith
  effects_from (is_running r) p op e = ground arith
  effects_from (is_stopping b) p op e = ground arith
  effects_from is_failed p op e = ground arith

  -- The signals and kill timers of every operation, the drop included: SIGTERM to the group and a kill
  -- timer for a stop or restart of a running process, SIGTERM to the group for its drop, and none for
  -- any other operation or state, each operation's in front of the earlier ones. Of a process without
  -- a pid there is only the timer.
  pub apply-effects :
      (p : Process vt) (op : Op)
      → (apply p op).effects ≡ op_effects p.lifecycle p.shutdown_timeout op ++ p.effects
  apply-effects p op = effects_from p.lifecycle p op refl

  -- The configuration, the identity and the timeout stay for good.
  pub apply-constants :
      (p : Process vt) (op : Op)
      → ((apply p op).id ≡ p.id)
        × ((apply p op).config ≡ p.config)
        × ((apply p op).shutdown_timeout ≡ p.shutdown_timeout)
  unfolding start stop restart sync_paused writer_takes write handle_output resize handle_exit drop
  apply-constants p op = ground arith
