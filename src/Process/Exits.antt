-- ===== src/Process/Exits.antt =====
-- What happens when a child exits (src/process.rs): restarts and crash loops.
pub mod Lost
use mtack.Base.{ℕ, ◌-◌, ◌≤◌, ◌≡◌, ◌≢◌, ◌↔◌, Bool, true, Option, none, some, arith}
use mtack.Vt100.{Vt100}
use mtack.Process.Types.{
  running, stopping, ProcessStatus, signal, restart_yes, restart_no, spawned, Running, is_stopped,
  is_running, is_stopping, Process, crash_loop_threshold,
}
use mtack.Process.Ops.{start, stop, restart, handle_exit, state}

-- Of a start time: it does not stand less than a second before `now`.
abbrev pub SettledAt : Option ℕ → ℕ → Type 0
SettledAt none now = Unit {0}
SettledAt (some t) now = crash_loop_threshold ≤ now - t

module _ {vt : Vt100} where
  -- An exit restarts a running process exactly if it is configured to, has run for a second or more,
  -- and was not killed by a signal.
  pub handle_exit_running :
      (p : Process vt) (r : Running) (status : ProcessStatus) (now : ℕ)
      → p.lifecycle ≡ is_running r
      → ((handle_exit p status now).1 ≡ restart_yes)
        ↔ ((p.config.autorestart ≡ true) × (status ≢ signal) × SettledAt p.last_start_time now)
  unfolding handle_exit
  handle_exit_running p r status now e = (λ h. ground arith, λ h. ground arith)

  -- A restart that was asked for of a running process comes about when the old child exits, whatever
  -- its status, its age and the configuration; and from then on it is no longer pending.
  pub restart-handle_exit :
      (p : Process vt) (r : Running) (status : ProcessStatus) (now : ℕ)
      → p.lifecycle ≡ is_running r
      → let q = handle_exit (restart p).0 status now in
        ((restart p).1 ≡ restart_no) × (q.1 ≡ restart_yes) × (q.0.lifecycle ≡ is_stopped)
  unfolding handle_exit restart
  restart-handle_exit p r status now e = ground arith

  -- A running process that was stopped stays stopped: its exit leads to no restart, and further
  -- exits to nothing at all.
  pub stop-handle_exit :
      (p : Process vt) (r : Running) (status again : ProcessStatus) (now later : ℕ)
      → p.lifecycle ≡ is_running r
      → let q = handle_exit (stop p) status now in
        (q.0.lifecycle ≡ is_stopped)
        × (q.1 ≡ restart_no)
        × (handle_exit q.0 again later ≡ (q.0, restart_no))
  unfolding handle_exit stop
  stop-handle_exit p r status again now later e = ground arith
