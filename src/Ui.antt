-- ===== src/Ui.antt =====
-- The user interface (src/ui): tabs, key hints, the help panel and the status bar.
pub mod Style
pub mod Tabs
pub mod Hints
pub mod Help
pub mod Width
pub mod Status
pub mod Frame
pub mod Viewport
