-- ===== src/Process.antt =====
-- One process (src/process.rs): its lifecycle, the input queue, and what it tells the operating
-- system. Spawning and the clock answer from outside. The two tasks that move the bytes of the
-- PTY are seen as events: a message taken from the input queue, an output, an exit.
pub mod Types
pub mod Ops
pub mod Transitions
pub mod Exits
pub mod InputQueue
pub mod Writer
pub mod Watcher
