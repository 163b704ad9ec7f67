-- ===== src/Server/Socket/Service.antt =====
-- The files of a configuration as one service: a server takes it, opens it, closes it and leaves it (src/server.rs,
-- `bind` and `SocketGuard`).
use mtack.Base.{
  ℕ, ◌≡◌, refl, sym, ap, ◌∙◌, subst, Bool, true, false, List, [], Option, none, some, Text, ◌==◌,
  if◌then◌else◌, if-cases, arith, Bool-cases, inl, inr,
}
use mtack.Server.Socket.{
  Stage, starting, locked, truncated, written, unlinked, listening, removed, already_running,
  failed, gone, Files, Event, binds, drops, dies, set_stage, released, release, try_lock,
  bind_socket, bind_from, bind, drop_from, drop_guard, die, step, run, idle,
}
use mtack.Server.Socket.Owner.{Owns, IsConsistent, run-IsConsistent, idle-IsConsistent}

pub data Service : Type 0 where
  free : Service
  held serving : ℕ → Service

-- Only the server that holds the service opens it, and no server takes it from another.
pub data Transition : Service → Service → Type 0 where
  stays : {s : Service} → Transition s s
  takes : {server : ℕ} → Transition free (held server)
  opens : {server : ℕ} → Transition (held server) (serving server)
  closes : {server : ℕ} → Transition (serving server) (held server)
  leaves : {server : ℕ} → Transition (held server) free
  crashes : {server : ℕ} → Transition (serving server) free

abbrev is_listening : Stage → Bool
is_listening stage = elim stage [ listening ↦ true | _ ↦ false ]

abbrev service_at : ℕ → Stage → Service
service_at holder stage = if is_listening stage then serving holder else held holder

abbrev service_of : Option ℕ → (ℕ → Stage) → Service
service_of none stage = free
service_of (some holder) stage = service_at holder (stage holder)

-- What the files are: the lock's holder, and whether it listens.
abbrev pub service : Files → Service
service files = service_of files.lock_holder files.stage

between : (a b c d : Service) → a ≡ b → d ≡ c → Transition b c → Transition a d
between a b c d e k t = subst (λ x. Transition x d) (sym e) (subst (Transition b) (sym k) t)

same : (a b : Service) → a ≡ b → Transition a b
same a b e = subst (Transition a) e stays

-- The stage of a server as it is set.
pub stage-set_stage :
    (server : ℕ) (to : Stage) (files : Files) → (set_stage server to files).stage server ≡ to
unfolding set_stage
stage-set_stage server to files = ground arith

-- A server that listens neither before nor after changes nothing.
service_at-set_stage :
    (holder server : ℕ) (to from : Stage) (files : Files)
    → files.stage server ≡ from
    → is_listening from ≡ false
    → is_listening to ≡ false
    → service_at holder (files.stage holder)
      ≡ service_at holder ((set_stage server to files).stage holder)
unfolding set_stage
service_at-set_stage holder server to from files e f t =
    if-cases (λ s. service_at holder (files.stage holder) ≡ service_at holder s) (holder == server)
      to (files.stage holder)
      (λ k.
        let h : server ≡ holder = ground (arith, k) in
        let at : files.stage holder ≡ from = subst (λ s. files.stage s ≡ from) h e in
        ground (arith, at, f, t))
      (λ k. refl)

service_of-set_stage :
    (holder : Option ℕ) (server : ℕ) (to from : Stage) (files : Files)
    → files.stage server ≡ from
    → is_listening from ≡ false
    → is_listening to ≡ false
    → service_of holder files.stage ≡ service_of holder (set_stage server to files).stage
service_of-set_stage none server to from files e f t = refl
service_of-set_stage (some holder) server to from files e f t =
    service_at-set_stage holder server to from files e f t

-- What the service of a holder is.
service-holder :
    (files : Files) (server : ℕ) (stage : Stage)
    → files.lock_holder ≡ some server
    → files.stage server ≡ stage
    → service files ≡ service_at server stage
service-holder files server stage h e =
    ap (λ o. service_of o files.stage) h ∙ ap (service_at server) e

module _ (config : Text) (files : Files) (consistent : IsConsistent config files) (server : ℕ) where
  try_lock-Transition :
      (holder : Option ℕ)
      → files.lock_holder ≡ holder
      → files.stage server ≡ starting
      → Transition (service files) (service (try_lock server files holder))
  unfolding try_lock set_stage
  try_lock-Transition none h e =
      between (service files) free (held server) (service (try_lock server files none))
        (ap (λ o. service_of o files.stage) h)
        (ap (service_at server)
          (stage-set_stage server locked (record files { lock_holder = some server })))
        takes
  try_lock-Transition (some holder) h e =
      same (service files) (service (try_lock server files (some holder)))
        (service_of-set_stage files.lock_holder server already_running starting files e refl refl)

  bind_socket-Transition :
      (socket : Option ℕ)
      → files.socket ≡ socket
      → files.stage server ≡ unlinked
      → Owns config files server unlinked
      → Transition (service files) (service (bind_socket server files socket))
  unfolding bind_socket set_stage
  bind_socket-Transition none s e (own, text, none_there) =
      let after = record files { socket = some server } in
      between (service files) (held server) (serving server)
        (service (bind_socket server files none)) (service-holder files server unlinked own e)
        (service-holder (set_stage server listening after) server listening own
          (stage-set_stage server listening after))
        opens
  bind_socket-Transition (some other) s e (own, text, none_there) = cc

  quiet :
      (to from : Stage) (text : Text) (socket : Option ℕ)
      → files.stage server ≡ from
      → is_listening from ≡ false
      → is_listening to ≡ false
      → Transition
          (service files)
          (service (set_stage server to (record files { lock_text = text; socket = socket })))
  unfolding set_stage
  quiet to from text socket e f t =
      same (service files)
        (service (set_stage server to (record files { lock_text = text; socket = socket })))
        (service_of-set_stage files.lock_holder server to from files e f t)

  bind_from-Transition :
      (stage : Stage)
      → files.stage server ≡ stage
      → Transition (service files) (service (bind_from config server files stage))
  unfolding bind_from
  bind_from-Transition starting e = try_lock-Transition files.lock_holder refl e
  bind_from-Transition locked e = quiet truncated locked [] files.socket e refl refl
  bind_from-Transition truncated e = quiet written truncated config files.socket e refl refl
  bind_from-Transition written e = quiet unlinked written files.lock_text none e refl refl
  bind_from-Transition unlinked e =
      bind_socket-Transition files.socket refl e
        (subst (Owns config files server) e (consistent server))
  bind_from-Transition listening e = stays
  bind_from-Transition removed e = stays
  bind_from-Transition already_running e = stays
  bind_from-Transition failed e = stays
  bind_from-Transition gone e = stays

  die-from :
      (holder : Option ℕ)
      → files.lock_holder ≡ holder
      → Transition (service files) (service (die server files))
  unfolding die release released set_stage
  die-from none h = same (service files) (service (die server files)) (ground (arith, h))
  die-from (some holder) h = elim (Bool-cases (holder == server)) [
    | inl k ↦ elim (Bool-cases (is_listening (files.stage holder))) [
      | inl l ↦
          between (service files) (serving holder) free (service (die server files))
            (ground (arith, h, l)) (ground (arith, h, k)) crashes
      | inr l ↦
          between (service files) (held holder) free (service (die server files))
            (ground (arith, h, l)) (ground (arith, h, k)) leaves
    ]
    | inr k ↦ same (service files) (service (die server files)) (ground (arith, h, k))
  ]

  drop_from-Transition :
      (stage : Stage)
      → files.stage server ≡ stage
      → Transition (service files) (service (drop_from server files stage))
  unfolding drop_from release released set_stage
  drop_from-Transition listening e =
      let (own, text, bound) : Owns config files server listening =
        subst (Owns config files server) e (consistent server) in
      let after = record files { socket = none } in
      between (service files) (serving server) (held server)
        (service (set_stage server removed after)) (service-holder files server listening own e)
        (service-holder (set_stage server removed after) server removed own
          (stage-set_stage server removed after))
        closes
  drop_from-Transition removed e =
      let own : Owns config files server removed =
        subst (Owns config files server) e (consistent server) in
      between (service files) (held server) free
        (service (set_stage server gone (release server files)))
        (service-holder files server removed own e) (ground (arith, own)) leaves
  drop_from-Transition starting e = stays
  drop_from-Transition locked e = stays
  drop_from-Transition truncated e = stays
  drop_from-Transition written e = stays
  drop_from-Transition unlinked e = stays
  drop_from-Transition already_running e = stays
  drop_from-Transition failed e = stays
  drop_from-Transition gone e = stays

step-Transition :
    (config : Text) (files : Files) (event : Event)
    → IsConsistent config files
    → Transition (service files) (service (step config files event))
unfolding bind drop_guard
step-Transition config files (binds server) c =
    bind_from-Transition config files c server (files.stage server) refl
step-Transition config files (drops server) c =
    drop_from-Transition config files c server (files.stage server) refl
step-Transition config files (dies server) c = die-from config files c server files.lock_holder refl

-- The servers implement the service: after any steps of any servers, begun with the lock free and any leftover files, each further
-- step of a server either leaves the service as it is or is one of its transitions. In particular the service goes from
-- one server to another only through the state in which nobody holds it.
pub run-Transition :
    (config lock_text : Text) (socket : Option ℕ) (events : List Event) (event : Event)
    → let files = run config (idle lock_text socket) events in
      Transition (service files) (service (step config files event))
run-Transition config lock_text socket events event =
    step-Transition config (run config (idle lock_text socket) events) event (
      run-IsConsistent config (idle lock_text socket) events
        (idle-IsConsistent config lock_text socket))
