-- ===== src/Server/Socket.antt =====
-- Which server owns a configuration (src/server.rs, `bind` and `SocketGuard`). Servers are numbers; each of their
-- system calls is one step, so that any number of them may start, stop and die in between.
pub mod Owner
pub mod Service
pub mod Alone
use mtack.Base.{ℕ, Bool, List, [], ◌∷◌, Option, none, some, Text, ◌==◌, if◌then◌else◌}

-- How far a server is: before its lock, with it held and then with the file's text removed, the text written and a
-- leftover socket removed; listening; with its socket removed. The last three do not hold the lock.
pub data Stage : Type 0 where
  starting locked truncated written unlinked listening removed : Stage
  already_running failed gone : Stage

-- The files of one configuration. The operating system keeps at most one holder of the lock. `socket` is
-- the server that bound the socket file, if there is that file, also if the server is gone.
pub record Files : Type 0 where
  pub lock_holder : Option ℕ
  pub lock_text : Text
  pub socket : Option ℕ
  pub stage : ℕ → Stage

unfoldable pub set_stage : ℕ → Stage → Files → Files
set_stage server to files = record files {
  stage = λ other. if other == server then to else files.stage other;
}

-- What closing its lock file does, or its end: a lock that it holds is free.
unfoldable pub released : ℕ → Option ℕ → Option ℕ
released server none = none
released server (some holder) = if holder == server then none else some holder

unfoldable pub release : ℕ → Files → Files
release server files = record files { lock_holder = released server files.lock_holder }

try_lock : ℕ → Files → Option ℕ → Files
try_lock server files none = set_stage server locked (record files { lock_holder = some server })
try_lock server files (some holder) = set_stage server already_running files

-- A bind fails where the file is there; the error drops the lock.
bind_socket : ℕ → Files → Option ℕ → Files
bind_socket server files none = set_stage server listening (record files { socket = some server })
bind_socket server files (some other) = set_stage server failed (release server files)

-- The next step of `bind`; `config` is the path that it writes.
bind_from : Text → ℕ → Files → Stage → Files
unfolding try_lock bind_socket
bind_from config server files starting = try_lock server files files.lock_holder
bind_from config server files locked = set_stage server truncated (record files { lock_text = [] })
bind_from config server files truncated =
    set_stage server written (record files { lock_text = config })
bind_from config server files written = set_stage server unlinked (record files { socket = none })
bind_from config server files unlinked = bind_socket server files files.socket
bind_from config server files _ = files

unfoldable pub bind : Text → ℕ → Files → Files
unfolding bind_from
bind config server files = bind_from config server files (files.stage server)

-- The drop of the guard: it removes the socket file, then the lock is released.
drop_from : ℕ → Files → Stage → Files
drop_from server files listening = set_stage server removed (record files { socket = none })
drop_from server files removed = set_stage server gone (release server files)
drop_from server files _ = files

unfoldable pub drop_guard : ℕ → Files → Files
unfolding drop_from
drop_guard server files = drop_from server files (files.stage server)

-- A server that dies, or that gives up on an error, leaves its files as they are.
unfoldable pub die : ℕ → Files → Files
die server files = set_stage server gone (release server files)

pub data Event : Type 0 where
  binds drops dies : ℕ → Event

abbrev pub step : Text → Files → Event → Files
step config files (binds server) = bind config server files
step config files (drops server) = drop_guard server files
step config files (dies server) = die server files

abbrev pub run : Text → Files → List Event → Files
run config files [] = files
run config files (event ∷ events) = run config (step config files event) events

-- Nobody has started; the files are as earlier servers left them.
abbrev pub idle : Text → Option ℕ → Files
idle lock_text socket = record {
  lock_holder = none;
  lock_text = lock_text;
  socket = socket;
  stage = λ server. starting;
}
