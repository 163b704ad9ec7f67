-- ===== src/Process/Types.antt =====
-- The state of a process and what its operations answer (src/process.rs, src/event.rs).
use mtack.Base.{ℕ, ◌*◌, Bool, List, Option, Text, Bytes}
use mtack.Vt100.{Vt100}
use mtack.Terminal.Defs.{Terminal}
use mtack.Config.Types.{ProcConfig}

pub data State : Type 0 where
  stopped running stopping failed : State

pub data ProcessStatus : Type 0 where
  success : ProcessStatus
  failed_with : ℕ → ProcessStatus
  signal : ProcessStatus

pub data ShouldRestart : Type 0 where
  restart_yes restart_no : ShouldRestart

-- What came of `try_send`.
pub data Sent : Type 0 where
  queued full closed : Sent

-- What the process asks of the operating system: SIGTERM to a process group, and the timer that
-- sends SIGKILL to it unless the watcher has ended in time.
pub data Effect : Type 0 where
  sigterm : ℕ → Effect
  kill_after : ℕ → Option ℕ → Effect

-- The outcome of `spawn`: the pid, if the child still has one, or the error's text.
pub data Spawned : Type 0 where
  spawned : Option ℕ → Spawned
  spawn_error : Text → Spawned

abbrev pub crash_loop_threshold : ℕ
crash_loop_threshold = 1000

abbrev pub input_queue_size : ℕ
input_queue_size = 64 * 1024

-- The queue of pending input, oldest first; `is_closed` once the writer task has ended.
pub record InputChannel : Type 0 where
  pub messages : List Bytes
  pub is_closed : Bool

pub record Running : Type 0 where
  pub input : InputChannel
  pub size : ℕ × ℕ
  pub pid : Option ℕ

pub data Lifecycle : Type 0 where
  is_stopped : Lifecycle
  is_running : Running → Lifecycle
  is_stopping : Bool → Lifecycle
  is_failed : Lifecycle

-- `paused` is the value last sent to the watcher, `effects` what was asked of the operating system,
-- the latest first.
pub record Process (vt : Vt100) : Type 0 where
  pub id : ℕ
  pub terminal : Terminal vt
  pub lifecycle : Lifecycle
  pub config : ProcConfig
  pub shutdown_timeout : ℕ
  pub paused : Bool
  pub last_start_time : Option ℕ
  pub dropping_input : Bool
  pub effects : List Effect

abbrev pub state_of : Lifecycle → State
state_of is_stopped = stopped
state_of (is_running r) = running
state_of (is_stopping pending) = stopping
state_of is_failed = failed
