-- ===== src/Server/Socket/Alone.antt =====
-- A server that starts while nobody else does (src/server.rs, `bind`).
use mtack.Base.{ℕ, ◌≡◌, refl, sym, ap, subst, [], ◌∷◌, none, some, Text}
use mtack.Server.Socket.{
  Stage, starting, locked, truncated, written, unlinked, listening, Files, binds, set_stage,
  try_lock, bind_socket, bind_from, bind, run,
}
use mtack.Server.Socket.Service.{stage-set_stage}

module _ (config : Text) (server : ℕ) where
  next_bind :
      (files : Files) (stage : Stage)
      → files.stage server ≡ stage
      → bind config server files ≡ bind_from config server files stage
  unfolding bind
  next_bind files stage e = ap (bind_from config server files) e

  -- To go on from a state that a step leads to.
  onward :
      (P : Files → Type 0) (files : Files) (stage : Stage)
      → files.stage server ≡ stage
      → P (bind_from config server files stage)
      → P (bind config server files)
  onward P files stage e p = subst P (sym (next_bind files stage e)) p

  abbrev Listens : Files → Type 0
  Listens files = files.stage server ≡ listening

  unlinked-Listens :
      (files : Files)
      → files.stage server ≡ unlinked
      → files.socket ≡ none
      → Listens (bind config server files)
  unfolding bind_from bind_socket
  unlinked-Listens files e s = onward Listens files unlinked e (
      subst (λ o. Listens (bind_socket server files o)) (sym s)
        (stage-set_stage server listening (record files { socket = some server })))

  written-Listens :
      (files : Files)
      → files.stage server ≡ written
      → Listens (bind config server (bind config server files))
  unfolding bind_from set_stage
  written-Listens files e =
      let after = record files { socket = none } in
      onward (λ f. Listens (bind config server f)) files written e
        (unlinked-Listens (set_stage server unlinked after) (stage-set_stage server unlinked after)
          refl)

  truncated-Listens :
      (files : Files)
      → files.stage server ≡ truncated
      → Listens (bind config server (bind config server (bind config server files)))
  unfolding bind_from
  truncated-Listens files e =
      let after = record files { lock_text = config } in
      onward (λ f. Listens (bind config server (bind config server f))) files truncated e
        (written-Listens (set_stage server written after) (stage-set_stage server written after))

  locked-Listens :
      (files : Files)
      → files.stage server ≡ locked
      → Listens
          (bind config server (bind config server (bind config server (bind config server files))))
  unfolding bind_from
  locked-Listens files e =
      let after = record files { lock_text = [] } in
      onward (λ f. Listens (bind config server (bind config server (bind config server f)))) files
        locked e
        (truncated-Listens (set_stage server truncated after)
          (stage-set_stage server truncated after))

  -- A server that starts while the lock is free gets to listen by its next five steps if no other server comes between,
  -- whatever files were left.
  pub bind-listens :
      (files : Files)
      → files.stage server ≡ starting
      → files.lock_holder ≡ none
      → (run config files
            (binds server ∷ binds server ∷ binds server ∷ binds server ∷ binds server ∷ [])).stage
          server
        ≡ listening
  unfolding bind_from try_lock
  bind-listens files e h =
      let after = record files { lock_holder = some server } in
      onward
        (λ f.
          Listens
            (bind config server (bind config server (bind config server (bind config server f)))))
        files starting e
        (subst
          (λ o. Listens (
            bind config server (
              bind config server
                (bind config server (bind config server (try_lock server files o))))))
          (sym h)
          (locked-Listens (set_stage server locked after) (stage-set_stage server locked after)))
