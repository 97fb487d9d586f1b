-- ===== src/Examples.antt =====
-- Tests, and the theorems at concrete inputs.
mod Frames
mod Commands
mod Runs
mod Reader
mod Eep
mod Tcp
