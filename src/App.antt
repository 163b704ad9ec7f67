-- ===== src/App.antt =====
-- The App: its state, its search, its actions and its event loop (src/app.rs).
pub mod State
pub mod Search
pub mod Actions
pub mod Loop
pub mod Quit
pub mod Shutdown
pub mod View
pub mod Navigate
pub mod Finish
pub mod Total
