-- ===== src/Upt/Machine.antt =====
-- The class Upt of upt.cpp as a state machine on its I/O thread: the command queue, the writer, the
-- timers, and the handlers posted to the io_context.
pub mod State
pub mod Writer
pub mod Queue
pub mod Failure
pub mod Events
pub mod Receive
pub mod Inputs
pub mod Writes
pub mod Preserves
pub mod Invariant
pub mod Diagram
pub mod Timeouts
pub mod Resting
pub mod Exchange
pub mod Cancel
pub mod CancelDuringWrite
pub mod LateDelay
pub mod Rounds
pub mod RunsOut
pub mod Sequence
