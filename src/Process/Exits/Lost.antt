-- ===== src/Process/Exits/Lost.antt =====
-- A start that comes while the process is still stopping (src/process.rs, `start` and `handle_exit`).
use mtack.Base.{
  ℕ, ◌≡◌, ◌≢◌, refl, Bool, List, [], ◌∷◌, ◌++◌, Option, none, some, All, arith, subst, sym, ap,
}
use mtack.Vt100.{Vt100}
use mtack.Process.Types.{
  running, stopping, ProcessStatus, Effect, sigterm, kill_after, spawned, Lifecycle, is_stopped,
  is_running, is_stopping, is_failed, Process,
}
use mtack.Process.Ops.{
  start, stop, restart, write, resize, handle_output, handle_exit, writer_takes, sync_paused, state,
  drop,
}
use mtack.Process.Transitions.{
  Op, starts, stops, restarts, drops, syncs, takes, writes, outputs, resizes, exits, apply,
  op_effects, stop_effects, drop_effects, apply-effects,
}

-- An effect that does not concern a pid: neither a signal to its group nor a timer that will send one.
abbrev pub Spares : ℕ → Effect → Type 0
Spares pid (sigterm other) = other ≢ pid
Spares pid (kill_after timeout other) = other ≢ some pid

-- No start gives the pid of a child that is still there.
abbrev pub IsFresh : ℕ → Op → Type 0
IsFresh pid (starts now (spawned other)) = other ≢ some pid
IsFresh pid _ = Unit {0}

abbrev IsForgotten : ℕ → Lifecycle → Type 0
IsForgotten pid (is_running r) = r.pid ≢ some pid
IsForgotten pid _ = Unit {0}

All-join : {A : Type 0} (P : A → Type 0) (xs ys : List A) → All P xs → All P ys → All P (xs ++ ys)
All-join P [] ys ps qs = qs
All-join P (x ∷ xs) ys (p, ps) qs = (p, All-join P xs ys ps qs)

stop_effects-Spares :
    (pid timeout : ℕ) (o : Option ℕ) → o ≢ some pid → All (Spares pid) (stop_effects timeout o)
stop_effects-Spares pid timeout none ne = (ne, tt)
stop_effects-Spares pid timeout (some other) ne = (ne, ((λ e. ne (ap some e)), tt))

drop_effects-Spares : (pid : ℕ) (o : Option ℕ) → o ≢ some pid → All (Spares pid) (drop_effects o)
drop_effects-Spares pid none ne = tt
drop_effects-Spares pid (some other) ne = ((λ e. ne (ap some e)), tt)

op_effects-Spares :
    (pid timeout : ℕ) (l : Lifecycle) (op : Op)
    → IsForgotten pid l
    → All (Spares pid) (op_effects l timeout op)
op_effects-Spares pid timeout (is_running r) stops f = stop_effects-Spares pid timeout r.pid f
op_effects-Spares pid timeout (is_running r) restarts f = stop_effects-Spares pid timeout r.pid f
op_effects-Spares pid timeout (is_running r) drops f = drop_effects-Spares pid r.pid f
op_effects-Spares pid timeout (is_running r) (starts now outcome) f = tt
op_effects-Spares pid timeout (is_running r) syncs f = tt
op_effects-Spares pid timeout (is_running r) takes f = tt
op_effects-Spares pid timeout (is_running r) (writes bytes) f = tt
op_effects-Spares pid timeout (is_running r) (outputs bytes) f = tt
op_effects-Spares pid timeout (is_running r) (resizes rows cols) f = tt
op_effects-Spares pid timeout (is_running r) (exits status now) f = tt
op_effects-Spares pid timeout is_stopped op f = tt
op_effects-Spares pid timeout (is_stopping b) op f = tt
op_effects-Spares pid timeout is_failed op f = tt

module _ {vt : Vt100} where
  apply-IsForgotten :
      (pid : ℕ) (l : Lifecycle) (p : Process vt) (op : Op)
      → p.lifecycle ≡ l
      → IsForgotten pid l
      → IsFresh pid op
      → IsForgotten pid (apply p op).lifecycle
  unfolding start stop restart sync_paused writer_takes write handle_output resize handle_exit drop
  apply-IsForgotten pid is_stopped p op e f g = ground (arith, e, f, g)
  apply-IsForgotten pid (is_running r) p op e f g = ground (arith, e, f, g)
  apply-IsForgotten pid (is_stopping b) p op e f g = ground (arith, e, f, g)
  apply-IsForgotten pid is_failed p op e f g = ground (arith, e, f, g)

  abbrev pub apply_all : Process vt → List Op → Process vt
  apply_all p [] = p
  apply_all p (op ∷ ops) = apply_all (apply p op) ops

  apply_all-Spares :
      (pid : ℕ) (p : Process vt) (ops : List Op)
      → IsForgotten pid p.lifecycle
      → All (IsFresh pid) ops
      → All (Spares pid) p.effects
      → All (Spares pid) (apply_all p ops).effects
  apply_all-Spares pid p [] f g h = h
  apply_all-Spares pid p (op ∷ ops) f (g, gs) h =
      apply_all-Spares pid (apply p op) ops (apply-IsForgotten pid p.lifecycle p op refl f g) gs (
        subst (All (Spares pid)) (sym (apply-effects p op)) (
          All-join (Spares pid) _ p.effects
            (op_effects-Spares pid p.shutdown_timeout p.lifecycle op f) h))

  ends :
      (p : Process vt) (pending : Bool) (pid : ℕ) (status : ProcessStatus) (now later : ℕ)
      → p.lifecycle ≡ is_stopping pending
      → let q = start p now (spawned (some pid)) in
        let q' = (handle_exit q status later).0 in
        (state q ≡ running)
        × (state q' ≢ running)
        × (state q' ≢ stopping)
        × IsForgotten pid q'.lifecycle
        × (q'.effects ≡ p.effects)
  unfolding handle_exit start
  ends p pending pid status now later e = ground arith

  -- A start while the process is still stopping loses a child. The new child counts as running, until the
  -- exit of the old one is taken for its exit: then the process is neither running nor stopping, and whatever operations
  -- follow, the drop included, no signal and no kill timer concerns the new child's pid, if none did before and no
  -- later start gives this pid again.
  pub start_while_stopping :
      (p : Process vt) (pending : Bool) (pid : ℕ) (status : ProcessStatus) (now later : ℕ)
      (ops : List Op)
      → p.lifecycle ≡ is_stopping pending
      → All (Spares pid) p.effects
      → All (IsFresh pid) ops
      → let q = start p now (spawned (some pid)) in
        let q' = (handle_exit q status later).0 in
        (state q ≡ running)
        × (state q' ≢ running)
        × (state q' ≢ stopping)
        × All (Spares pid) (apply_all q' ops).effects
  start_while_stopping p pending pid status now later ops e spared fresh =
      let q' = (handle_exit (start p now (spawned (some pid))) status later).0 in
      let ended = ends p pending pid status now later e in
      (
        ended.0,
        ended.1,
        ended.2,
        apply_all-Spares pid q' ops ended.3 fresh (subst (All (Spares pid)) (sym ended.4) spared),
      )
