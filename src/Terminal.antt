-- ===== src/Terminal.antt =====
-- A process's terminal (src/terminal.rs): the vt100 parser, the scrollback position, and the search
-- with its caches. A function that can panic gives an `Option`.
pub mod Defs
pub mod Search
pub mod Scroll
pub mod Matches
