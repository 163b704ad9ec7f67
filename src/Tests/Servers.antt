-- ===== src/Tests/Servers.antt =====
-- Servers for one configuration on concrete runs (src/server.rs).
use mtack.Base.{ℕ, ◌≡◌, refl, List, [], ◌∷◌, none, some, Text}
use mtack.Base.Utf8.{codes}
use mtack.Server.Socket.{
  Event, binds, drops, dies, run, idle, listening, bind, drop_guard, die, set_stage, release,
  released,
}
use mtack.Server.Socket.Owner.{run-owner, run-only_one}
use mtack.Server.Socket.Service.{Transition, service, run-Transition}
use mtack.Server.Socket.Alone.{bind-listens}

abbrev config : Text
config = codes "/w/mtack.kdl"

-- Server 1 dies while it listens, and leaves its socket; servers 2 and 3 start at once, and 3 gets the lock.
abbrev events : List Event
events =
    binds 1
    ∷ binds 1
    ∷ binds 1
    ∷ binds 1
    ∷ binds 1
    ∷ dies 1
    ∷ binds 3
    ∷ binds 2
    ∷ binds 3
    ∷ binds 3
    ∷ binds 2
    ∷ binds 3
    ∷ binds 3
    ∷ []

listens : (run config (idle [] none) events).stage 3 ≡ listening
unfolding bind die set_stage release released
listens = refl

run-owner_example :
    let files = run config (idle [] none) events in
    (files.lock_holder ≡ some 3) × (files.lock_text ≡ config) × (files.socket ≡ some 3)
run-owner_example = run-owner config [] none events 3 listens

run-only_one_example : ◌≡◌ {A = ℕ} 3 3
run-only_one_example = run-only_one config [] none events 3 3 listens listens

run-Transition_example :
    let files = run config (idle [] none) events in
    Transition (service files) (service (drop_guard 3 files))
run-Transition_example = run-Transition config [] none events (drops 3)

bind-listens_example :
    (run config (idle [] (some 9)) (binds 4 ∷ binds 4 ∷ binds 4 ∷ binds 4 ∷ binds 4 ∷ [])).stage 4
    ≡ listening
bind-listens_example = bind-listens config 4 (idle [] (some 9)) refl refl
