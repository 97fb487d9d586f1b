-- ===== src/Upt.antt =====
-- upt.cpp and upt.h: the serial protocol of the UPOS payment terminal.
pub mod Codes
pub mod Status
pub mod Transparency
pub mod Receiver
pub mod Message
pub mod Parser
pub mod Command
pub mod Prepare
pub mod Machine
