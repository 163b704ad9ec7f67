-- ===== src/Process/Watcher.antt =====
-- The task that reads the PTY and waits for the child (`spawn_watcher` in src/process.rs). What the PTY and the child
-- give, and when the App pauses the task, are events from outside.
use mtack.Base.{
  ℕ, zero, suc, ◌+◌, ◌≤◌, ◌≡◌, refl, Bool, true, List, [], ◌∷◌, ◌++◌, Bytes, if◌then◌else◌, length,
  length-append, arith, All,
}
use mtack.Process.Types.{ProcessStatus, success, failed_with, signal}
use mtack.App.Loop.{Event, pty_output, process_exited}

-- What `wait` gives for the child: an exit code, the end by a signal, or an error.
pub data Waited : Type 0 where
  code : ℕ → Waited
  by_signal wait_fails : Waited

unfoldable pub status_of : Waited → ProcessStatus
status_of (code zero) = success
status_of (code (suc n)) = failed_with (suc n)
status_of by_signal = signal
status_of wait_fails = signal

-- The task is about to look whether it is paused, waits for output, or waits for the child.
pub data WatcherStage : Type 0 where
  looking reading waiting ended : WatcherStage

-- `events` is what it has sent to the App.
pub record Watcher : Type 0 where
  pub id : ℕ
  pub paused : Bool
  pub stage : WatcherStage
  pub events : List Event

-- The App pauses the task, the task looks, output comes, the output ends or fails, the child ends, or the App is gone.
pub data WatcherInput : Type 0 where
  pauses : Bool → WatcherInput
  looks : WatcherInput
  reads : Bytes → WatcherInput
  read_ends : WatcherInput
  exits : Waited → WatcherInput
  app_gone : WatcherInput

abbrev send : Event → WatcherStage → Watcher → Watcher
send event next w = record w { stage = next; events = w.events ++ (event ∷ []) }

unfoldable pub watcher_at : WatcherStage → Watcher → WatcherInput → Watcher
unfolding status_of
watcher_at stage w (pauses b) = record w { paused = b }
watcher_at looking w looks = if w.paused then w else record w { stage = reading }
watcher_at looking w app_gone = record w { stage = ended }
watcher_at reading w (reads data_read) = send (pty_output w.id data_read) looking w
watcher_at reading w read_ends = record w { stage = waiting }
watcher_at reading w app_gone = record w { stage = ended }
watcher_at waiting w (exits waited) = send (process_exited w.id (status_of waited)) ended w
watcher_at stage w input = w

unfoldable pub watcher_step : Watcher → WatcherInput → Watcher
unfolding watcher_at
watcher_step w input = watcher_at w.stage w input

abbrev pub watcher_run : Watcher → List WatcherInput → Watcher
watcher_run w [] = w
watcher_run w (input ∷ inputs) = watcher_run (watcher_step w input) inputs

-- The App does not take back the pause.
abbrev pub StaysPaused : List WatcherInput → Type 0
StaysPaused inputs = All (λ input. elim input [ pauses b ↦ b ≡ true | _ ↦ Unit {0} ]) inputs

-- What a paused task may still send.
abbrev left_of : WatcherStage → ℕ
left_of looking = 0
left_of reading = 1
left_of waiting = 1
left_of ended = 0

abbrev KeepsPaused : WatcherInput → Type 0
KeepsPaused input = elim input [ pauses b ↦ b ≡ true | _ ↦ Unit {0} ]

watcher_at-paused :
    (stage : WatcherStage) (w : Watcher) (input : WatcherInput)
    → w.paused ≡ true
    → w.stage ≡ stage
    → KeepsPaused input
    → ((watcher_at stage w input).paused ≡ true)
      × (length (watcher_at stage w input).events + left_of (watcher_at stage w input).stage
          ≤ length w.events + left_of stage)
unfolding watcher_at
watcher_at-paused looking w (pauses b) p e k = (k, ground (arith, e))
watcher_at-paused looking w looks p e k = (ground (arith, p, e), ground (arith, p, e))
watcher_at-paused looking w (reads chunk) p e k = (p, ground (arith, e))
watcher_at-paused looking w read_ends p e k = (p, ground (arith, e))
watcher_at-paused looking w (exits waited) p e k = (p, ground (arith, e))
watcher_at-paused looking w app_gone p e k = (p, ground (arith, e))
watcher_at-paused reading w (pauses b) p e k = (k, ground (arith, e))
watcher_at-paused reading w looks p e k = (p, ground (arith, e))
watcher_at-paused reading w (reads chunk) p e k =
    (p, omega (arith, length-append w.events (pty_output w.id chunk ∷ [])))
watcher_at-paused reading w read_ends p e k = (p, ground (arith, e))
watcher_at-paused reading w (exits waited) p e k = (p, ground (arith, e))
watcher_at-paused reading w app_gone p e k = (p, ground (arith, e))
watcher_at-paused waiting w (pauses b) p e k = (k, ground (arith, e))
watcher_at-paused waiting w looks p e k = (p, ground (arith, e))
watcher_at-paused waiting w (reads chunk) p e k = (p, ground (arith, e))
watcher_at-paused waiting w read_ends p e k = (p, ground (arith, e))
watcher_at-paused waiting w (exits waited) p e k =
    (p, omega (arith, length-append w.events (process_exited w.id (status_of waited) ∷ [])))
watcher_at-paused waiting w app_gone p e k = (p, ground (arith, e))
watcher_at-paused ended w (pauses b) p e k = (k, ground (arith, e))
watcher_at-paused ended w looks p e k = (p, ground (arith, e))
watcher_at-paused ended w (reads chunk) p e k = (p, ground (arith, e))
watcher_at-paused ended w read_ends p e k = (p, ground (arith, e))
watcher_at-paused ended w (exits waited) p e k = (p, ground (arith, e))
watcher_at-paused ended w app_gone p e k = (p, ground (arith, e))

watcher_run-left :
    (w : Watcher) (inputs : List WatcherInput)
    → w.paused ≡ true
    → StaysPaused inputs
    → length (watcher_run w inputs).events + left_of (watcher_run w inputs).stage
      ≤ length w.events + left_of w.stage
unfolding watcher_step
watcher_run-left w [] p k = omega arith
watcher_run-left w (input ∷ inputs) p (k, ks) =
    let (still, less) = watcher_at-paused w.stage w input p refl k in
    omega (arith, watcher_run-left (watcher_step w input) inputs still ks, less)

left_of-le : (stage : WatcherStage) → left_of stage ≤ 1
left_of-le stage = ground arith

-- From when the App pauses the task, and as long as it does not take that back, the task sends at most one more
-- event, whatever comes from the terminal and the child.
pub watcher_run-paused :
    (w : Watcher) (inputs : List WatcherInput)
    → w.paused ≡ true
    → StaysPaused inputs
    → length (watcher_run w inputs).events ≤ length w.events + 1
watcher_run-paused w inputs p k = omega (arith, watcher_run-left w inputs p k, left_of-le w.stage)
