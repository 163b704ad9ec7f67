-- ===== src/Tests.antt =====
-- Concrete inputs for the theorems: a terminal that keeps the laws of vt100, and runs of the parts.
mod Machine
mod Terminals
mod Streams
mod Processes
mod Lowering
mod Screens
mod Configs
mod Bars
mod Servers
mod Sessions
mod Commands
mod Panels
