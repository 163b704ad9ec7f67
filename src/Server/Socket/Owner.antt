-- ===== src/Server/Socket/Owner.antt =====
-- The owner of a configuration: at most one server listens, and its socket stays (src/server.rs, `bind`).
use mtack.Base.{
  ℕ, ◌≡◌, ◌≢◌, refl, subst, false, List, [], ◌∷◌, Option, none, some, Text, ◌==◌, if-cases, arith,
}
use mtack.Server.Socket.{
  Stage, starting, locked, truncated, written, unlinked, listening, removed, already_running,
  failed, gone, Files, Event, binds, drops, dies, set_stage, released, release, try_lock,
  bind_socket, bind_from, bind, drop_from, drop_guard, die, step, run, idle,
}

-- What a server at a stage relies on: the lock, from when it has it to when it drops it, and then the text and the
-- socket file.
abbrev pub Owns : Text → Files → ℕ → Stage → Type 0
Owns config files server locked = files.lock_holder ≡ some server
Owns config files server truncated = files.lock_holder ≡ some server
Owns config files server written = (files.lock_holder ≡ some server) × (files.lock_text ≡ config)
Owns config files server unlinked =
    (files.lock_holder ≡ some server) × (files.lock_text ≡ config) × (files.socket ≡ none)
Owns config files server listening =
    (files.lock_holder ≡ some server) × (files.lock_text ≡ config) × (files.socket ≡ some server)
Owns config files server removed = files.lock_holder ≡ some server
Owns config files server _ = Unit

-- Every server has what it relies on.
abbrev pub IsConsistent : Text → Files → Type 0
IsConsistent config files = (server : ℕ) → Owns config files server (files.stage server)

-- A server that does not hold the lock relies on nothing.
Owns-other :
    (config : Text) (before after : Files) (server : ℕ) (stage : Stage)
    → before.lock_holder ≢ some server
    → Owns config before server stage
    → Owns config after server stage
Owns-other config before after server starting n o = tt
Owns-other config before after server locked n o = absurd (n o)
Owns-other config before after server truncated n o = absurd (n o)
Owns-other config before after server written n (o, t) = absurd (n o)
Owns-other config before after server unlinked n (o, t, k) = absurd (n o)
Owns-other config before after server listening n (o, t, k) = absurd (n o)
Owns-other config before after server removed n o = absurd (n o)
Owns-other config before after server already_running n o = tt
Owns-other config before after server failed n o = tt
Owns-other config before after server gone n o = tt

other-ne :
    (holder : Option ℕ) (server other : ℕ)
    → holder ≡ some server
    → (other == server) ≡ false
    → holder ≢ some other
other-ne holder server other h e k = ground (arith, h, e, k)

set_stage-IsConsistent :
    (config : Text) (server : ℕ) (to : Stage) (files : Files)
    → Owns config files server to
    → ((other : ℕ) → (other == server) ≡ false → Owns config files other (files.stage other))
    → IsConsistent config (set_stage server to files)
unfolding set_stage
set_stage-IsConsistent config server to files own others other =
    if-cases (Owns config (set_stage server to files) other) (other == server) to
      (files.stage other)
      (λ e.
        let same : server ≡ other = ground (arith, e) in
        subst (λ s. Owns config files s to) same own)
      (λ e. others other e)

released-other :
    (holder : Option ℕ) (server other : ℕ)
    → (other == server) ≡ false
    → holder ≡ some other
    → released server holder ≡ some other
unfolding released
released-other none server other n e = cc
released-other (some holder) server other n e = ground (arith, n, e)

Owns-release :
    (config : Text) (files : Files) (server other : ℕ) (stage : Stage)
    → (other == server) ≡ false
    → Owns config files other stage
    → Owns config (release server files) other stage
unfolding release
Owns-release config files server other starting n o = tt
Owns-release config files server other locked n o =
    released-other files.lock_holder server other n o
Owns-release config files server other truncated n o =
    released-other files.lock_holder server other n o
Owns-release config files server other written n (o, t) =
    (released-other files.lock_holder server other n o, t)
Owns-release config files server other unlinked n (o, t, k) =
    (released-other files.lock_holder server other n o, t, k)
Owns-release config files server other listening n (o, t, k) =
    (released-other files.lock_holder server other n o, t, k)
Owns-release config files server other removed n o =
    released-other files.lock_holder server other n o
Owns-release config files server other already_running n o = tt
Owns-release config files server other failed n o = tt
Owns-release config files server other gone n o = tt

module _ (config : Text) (files : Files) (consistent : IsConsistent config files) where
  -- A step of the holder of the lock, or of any server while nobody holds it, takes nothing from another one.
  others_kept :
      (server : ℕ) (after : Files)
      → ((other : ℕ) → (other == server) ≡ false → files.lock_holder ≢ some other)
      → ((other : ℕ) → (other == server) ≡ false → Owns config after other (files.stage other))
  others_kept server after n other e =
      Owns-other config files after other (files.stage other) (n other e) (consistent other)

  try_lock-IsConsistent :
      (server : ℕ) (holder : Option ℕ)
      → files.lock_holder ≡ holder
      → IsConsistent config (try_lock server files holder)
  unfolding try_lock
  try_lock-IsConsistent server none e =
      set_stage-IsConsistent config server locked (record files { lock_holder = some server }) refl
        (others_kept server (record files { lock_holder = some server }) λ other n h. cc)
  try_lock-IsConsistent server (some holder) e =
      set_stage-IsConsistent config server already_running files tt (λ other n. consistent other)

  bind_socket-IsConsistent :
      (server : ℕ) (socket : Option ℕ)
      → files.socket ≡ socket
      → Owns config files server unlinked
      → IsConsistent config (bind_socket server files socket)
  unfolding bind_socket
  bind_socket-IsConsistent server none e (own, text, free) =
      set_stage-IsConsistent config server listening (record files { socket = some server })
        (own, text, refl)
        (others_kept server (record files { socket = some server })
          λ other n. other-ne files.lock_holder server other own n)
  bind_socket-IsConsistent server (some other) e (own, text, free) = cc

  bind_from-IsConsistent :
      (server : ℕ) (stage : Stage)
      → files.stage server ≡ stage
      → IsConsistent config (bind_from config server files stage)
  unfolding bind_from
  bind_from-IsConsistent server starting e = try_lock-IsConsistent server files.lock_holder refl
  bind_from-IsConsistent server locked e =
      let own : Owns config files server locked =
        subst (Owns config files server) e (consistent server) in
      set_stage-IsConsistent config server truncated (record files { lock_text = [] }) own
        (others_kept server (record files { lock_text = [] })
          λ other n. other-ne files.lock_holder server other own n)
  bind_from-IsConsistent server truncated e =
      let own : Owns config files server truncated =
        subst (Owns config files server) e (consistent server) in
      set_stage-IsConsistent config server written (record files { lock_text = config }) (own, refl)
        (others_kept server (record files { lock_text = config })
          λ other n. other-ne files.lock_holder server other own n)
  bind_from-IsConsistent server written e =
      let (own, text) : Owns config files server written =
        subst (Owns config files server) e (consistent server) in
      set_stage-IsConsistent config server unlinked (record files { socket = none })
        (own, text, refl)
        (others_kept server (record files { socket = none })
          λ other n. other-ne files.lock_holder server other own n)
  bind_from-IsConsistent server unlinked e =
      bind_socket-IsConsistent server files.socket refl
        (subst (Owns config files server) e (consistent server))
  bind_from-IsConsistent server listening e = consistent
  bind_from-IsConsistent server removed e = consistent
  bind_from-IsConsistent server already_running e = consistent
  bind_from-IsConsistent server failed e = consistent
  bind_from-IsConsistent server gone e = consistent

  die-IsConsistent : (server : ℕ) → IsConsistent config (die server files)
  unfolding die release
  die-IsConsistent server =
      set_stage-IsConsistent config server gone (release server files) tt
        (λ other n. Owns-release config files server other (files.stage other) n (consistent other))

  drop_from-IsConsistent :
      (server : ℕ) (stage : Stage)
      → files.stage server ≡ stage
      → IsConsistent config (drop_from server files stage)
  unfolding drop_from release
  drop_from-IsConsistent server listening e =
      let (own, text, bound) : Owns config files server listening =
        subst (Owns config files server) e (consistent server) in
      set_stage-IsConsistent config server removed (record files { socket = none }) own
        (others_kept server (record files { socket = none })
          λ other n. other-ne files.lock_holder server other own n)
  drop_from-IsConsistent server removed e =
      set_stage-IsConsistent config server gone (release server files) tt
        (λ other n. Owns-release config files server other (files.stage other) n (consistent other))
  drop_from-IsConsistent server starting e = consistent
  drop_from-IsConsistent server locked e = consistent
  drop_from-IsConsistent server truncated e = consistent
  drop_from-IsConsistent server written e = consistent
  drop_from-IsConsistent server unlinked e = consistent
  drop_from-IsConsistent server already_running e = consistent
  drop_from-IsConsistent server failed e = consistent
  drop_from-IsConsistent server gone e = consistent

step-IsConsistent :
    (config : Text) (files : Files) (event : Event)
    → IsConsistent config files
    → IsConsistent config (step config files event)
unfolding bind drop_guard
step-IsConsistent config files (binds server) c =
    bind_from-IsConsistent config files c server (files.stage server) refl
step-IsConsistent config files (drops server) c =
    drop_from-IsConsistent config files c server (files.stage server) refl
step-IsConsistent config files (dies server) c = die-IsConsistent config files c server

pub run-IsConsistent :
    (config : Text) (files : Files) (events : List Event)
    → IsConsistent config files
    → IsConsistent config (run config files events)
run-IsConsistent config files [] c = c
run-IsConsistent config files (event ∷ events) c =
    run-IsConsistent config (step config files event) events
      (step-IsConsistent config files event c)

pub idle-IsConsistent :
    (config lock_text : Text) (socket : Option ℕ) → IsConsistent config (idle lock_text socket)
idle-IsConsistent config lock_text socket server = tt

-- Whatever steps any number of servers take, in any order, some of which may die at any point, a server that listens holds the
-- lock, the lock file names its configuration, and the socket file is its own. They start with the lock
-- free and with any leftover files.
pub run-owner :
    (config lock_text : Text) (socket : Option ℕ) (events : List Event) (server : ℕ)
    → let files = run config (idle lock_text socket) events in
      files.stage server ≡ listening
      → (files.lock_holder ≡ some server)
        × (files.lock_text ≡ config)
        × (files.socket ≡ some server)
run-owner config lock_text socket events server h =
    let files = run config (idle lock_text socket) events in
    subst (Owns config files server) h (
      run-IsConsistent config (idle lock_text socket) events
        (idle-IsConsistent config lock_text socket) server)

-- Of any number of servers for a configuration, however their steps interleave and whichever of them die, at most
-- one listens. They start with the lock free and with any leftover files.
pub run-only_one :
    (config lock_text : Text) (socket : Option ℕ) (events : List Event) (first second : ℕ)
    → (run config (idle lock_text socket) events).stage first ≡ listening
    → (run config (idle lock_text socket) events).stage second ≡ listening
    → first ≡ second
run-only_one config lock_text socket events first second h k =
    let (a, at, as') = run-owner config lock_text socket events first h in
    let (b, bt, bs) = run-owner config lock_text socket events second k in ground (arith, a, b)
