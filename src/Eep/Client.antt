-- ===== src/Eep/Client.antt =====
-- EEPClient itself: its state, its handlers and its inputs.
pub mod State
pub mod Timers
pub mod Failure
pub mod Dispatch
pub mod Events
pub mod Match
pub mod Receive
pub mod Requests
pub mod Inputs
pub mod Reconnect
pub mod Timeouts
pub mod Exchange
pub mod Reachable
pub mod Alive
pub mod Sound
