-- ===== src/App/Shutdown.antt =====
-- How the processes end while the App quits (src/app.rs).
use mtack.Base.{
  ℕ, zero, suc, ◌+◌, ◌≡◌, refl, Bool, true, false, not, List, [], ◌∷◌, Option, some, arith, modify,
  map, all, All, if◌then◌else◌, get_elem?, get_elem?-map, get_elem?-modify, all-get_elem?, All-map,
  subst, All-modify, ◌==◌, if-cases, get_elem?-All, ◌⊎◌, inl, inr, sym,
}
use mtack.Vt100.{Vt100}
use mtack.Input.{quitting}
use mtack.Process.Types.{
  Process, ProcessStatus, Spawned, spawned, Lifecycle, is_stopped, is_running, is_stopping,
  is_failed, running,
}
use mtack.Process.Ops.{state}
use mtack.Process.Ops as Process
use mtack.App.State.{viewport_rows, App, Env, is_live, begin_quit, all_stopped, resize_processes}
use mtack.App.Loop.{process_exited, handle_app_event, exit_and_restart, is_done}

-- A process that is running no more and will not be started again by its exit.
abbrev pub winding : Lifecycle → Bool
winding is_stopped = true
winding is_failed = true
winding (is_running r) = false
winding (is_stopping pending) = not pending

abbrev pub IsWinding : {vt : Vt100} → Process vt → Type 0
IsWinding p = winding p.lifecycle ≡ true

-- No restart is pending.
abbrev pub no_restart : Lifecycle → Bool
no_restart (is_stopping pending) = not pending
no_restart _ = true

abbrev pub HasNoRestart : {vt : Vt100} → Process vt → Type 0
HasNoRestart p = no_restart p.lifecycle ≡ true

module _ {vt : Vt100} where
  -- The number of processes that are not at their end yet.
  abbrev pub live_count : List (Process vt) → ℕ
  live_count [] = 0
  live_count (p ∷ ps) = (if is_live p then 1 else 0) + live_count ps

  resize-HasNoRestart :
      (rows cols : ℕ) (p : Process vt) → HasNoRestart p → HasNoRestart (Process.resize rows cols p)
  unfolding Process.resize
  resize-HasNoRestart rows cols p h = ground arith

  stop-IsWinding : (p : Process vt) → HasNoRestart p → IsWinding (Process.stop p)
  unfolding Process.stop
  stop-IsWinding p h = ground arith

  stopped-IsWinding :
      (ps : List (Process vt)) → all (λ p. not (is_live p)) ps ≡ true → All IsWinding ps
  stopped-IsWinding [] h = tt
  stopped-IsWinding (p ∷ ps) h = (ground arith, stopped-IsWinding ps (ground arith))

  -- Beginning to quit with no restart pending leaves no process running, nor one that its exit would
  -- start again; and then the loop is left at once, or the mode is `quitting`.
  pub begin_quit-IsWinding :
      (app : App vt)
      → All HasNoRestart app.processes
      → All IsWinding (begin_quit app).processes
        × ((is_done (begin_quit app) ≡ true) ⊎ ((begin_quit app).mode ≡ quitting))
  unfolding begin_quit is_done all_stopped resize_processes
  begin_quit-IsWinding app h =
      if-cases
        (λ (a : App vt). All IsWinding a.processes × ((is_done a ≡ true) ⊎ (a.mode ≡ quitting)))
        (all_stopped app) _ _ (λ e. (stopped-IsWinding app.processes e, inl refl))
        (λ e. (
          All-map HasNoRestart IsWinding Process.stop _ stop-IsWinding (
              All-map HasNoRestart HasNoRestart (Process.resize _ _) app.processes
                (resize-HasNoRestart _ _) h),
          inr refl,
        ))

  exit-IsWinding :
      (p : Process vt) (now : ℕ) (outcome : Spawned) (status : ProcessStatus)
      → IsWinding p
      → (IsWinding (exit_and_restart now outcome status p))
        × (is_live (exit_and_restart now outcome status p) ≡ false)
  unfolding exit_and_restart Process.handle_exit
  exit-IsWinding p now outcome status h = ground arith

  modify-live_count :
      (i : ℕ) (f : Process vt → Process vt) (ps : List (Process vt)) (p : Process vt)
      → get_elem? ps i ≡ some p
      → is_live p ≡ true
      → is_live (f p) ≡ false
      → live_count (modify i f ps) + 1 ≡ live_count ps
  modify-live_count i f [] p h l e = cc
  modify-live_count zero f (q ∷ qs) p h l e = ground arith
  modify-live_count (suc i) f (q ∷ qs) p h l e = ground (arith, modify-live_count i f qs p h l e)

  all_stopped-live_count :
      (ps : List (Process vt)) → all (λ p. not (is_live p)) ps ≡ (live_count ps == 0)
  all_stopped-live_count [] = refl
  all_stopped-live_count (p ∷ ps) = ground (arith, all_stopped-live_count ps)

  -- While the program quits, with no forced quit, and every process is at its end or on its way to
  -- it, the exit of a live process takes it off the count of live ones, starts no process, and the
  -- loop is left after it exactly if none is live any more.
  pub exit-is_done :
      (env : Env) (app : App vt) (id : ℕ) (p : Process vt) (status : ProcessStatus)
      → app.mode ≡ quitting
      → app.should_quit ≡ false
      → All IsWinding app.processes
      → get_elem? app.processes id ≡ some p
      → is_live p ≡ true
      → let after = handle_app_event env (process_exited id status) app in
        All IsWinding after.processes
        × (live_count after.processes + 1 ≡ live_count app.processes)
        × (is_done after ≡ (live_count after.processes == 0))
  unfolding handle_app_event is_done all_stopped
  exit-is_done env app id p status q s w h l = (
    All-modify IsWinding id _ app.processes
        (λ r v. (exit-IsWinding r env.now (env.spawn id) status v).0) w,
    modify-live_count id _ app.processes p h l
        (exit-IsWinding p env.now (env.spawn id) status
          (get_elem?-All IsWinding app.processes id p w h)).1,
    ground (
      arith,
      all_stopped-live_count
          (modify id (exit_and_restart env.now (env.spawn id) status) app.processes),
    ),
  )

  stopping-live :
      (p : Process vt) (rows cols : ℕ)
      → p.lifecycle ≡ is_stopping true
      → (Process.stop (Process.resize rows cols p)).lifecycle ≡ is_stopping true
  unfolding Process.stop Process.resize
  stopping-live p rows cols l = ground arith

  exit-running :
      (p : Process vt) (now : ℕ) (outcome : Spawned) (pid : Option ℕ) (status : ProcessStatus)
      → p.lifecycle ≡ is_stopping true
      → outcome ≡ spawned pid
      → state (exit_and_restart now outcome status p) ≡ running
  unfolding exit_and_restart Process.handle_exit Process.start
  exit-running p now outcome pid status l o = ground arith

  running-is_done :
      (app : App vt) (id : ℕ) (q : Process vt)
      → app.mode ≡ quitting
      → app.should_quit ≡ false
      → get_elem? app.processes id ≡ some q
      → state q ≡ running
      → is_done app ≡ false
  unfolding is_done all_stopped
  running-is_done app id q m s h r =
      ground (arith, all-get_elem? (λ x. not (is_live x)) app.processes id q h (ground arith))

  -- After the exit of the process `id`, it runs and the App goes on quitting.
  abbrev pub Restarted : Env → ℕ → ProcessStatus → App vt → Type 0
  Restarted env id status app =
      let after = handle_app_event env (process_exited id status) app in
      (after.mode ≡ quitting)
      × ((q : Process vt) × (get_elem? after.processes id ≡ some q) × (state q ≡ running))
      × (is_done after ≡ false)

  abbrev closing_rows : App vt → ℕ
  closing_rows app = viewport_rows (record app { show_help = false })

  abbrev closing : App vt → App vt
  closing app = record app {
    mode = quitting;
    show_help = false;
    dirty = true;
    processes =
        map Process.stop (map (Process.resize (closing_rows app) app.terminal_cols) app.processes);
  }

  begin_quit-live : (app : App vt) → all_stopped app ≡ false → begin_quit app ≡ closing app
  unfolding begin_quit resize_processes
  begin_quit-live app e = ground arith

  -- The bug: a process whose restart is pending as the quit begins, with no forced quit, is started
  -- again by its exit while the program quits, if it can be spawned. That leaves it running, and the
  -- loop goes on.
  pub begin_quit-restart :
      (env : Env) (app : App vt) (id : ℕ) (p : Process vt) (status : ProcessStatus) (pid : Option ℕ)
      → app.should_quit ≡ false
      → get_elem? app.processes id ≡ some p
      → p.lifecycle ≡ is_stopping true
      → env.spawn id ≡ spawned pid
      → Restarted env id status (begin_quit app)
  unfolding handle_app_event is_done all_stopped begin_quit
  begin_quit-restart env app id p status pid s h l o =
      let resize = Process.resize (closing_rows app) app.terminal_cols in
      let exit = exit_and_restart env.now (env.spawn id) status in
      let closed =
        get_elem?-map (map resize app.processes) id Process.stop _
          (get_elem?-map app.processes id resize p h) in
      let found = get_elem?-modify (closing app).processes id exit _ closed in
      let runs =
        exit-running (Process.stop (resize p)) env.now (env.spawn id) pid status
          (stopping-live p _ _ l) o in
      let live = all-get_elem? (λ q. not (is_live q)) app.processes id p h (ground arith) in
      subst (Restarted env id status) (sym (begin_quit-live app live)) (
        refl,
        (_, found, runs),
        running-is_done (handle_app_event env (process_exited id status) (closing app)) id _ refl s
            found runs,
      )
