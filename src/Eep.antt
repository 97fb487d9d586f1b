-- ===== src/Eep.antt =====
-- The EEP client of eep_client.h and eep_client.cpp: the requests to the DSRC equipment of a car park
-- gate, their frames, and the state machine that exchanges them over TCP.
pub mod MessageCode
pub mod Priority
pub mod CommandType
pub mod CommandData
pub mod Frame
pub mod Prepare
pub mod Text
pub mod Queue
pub mod Client
