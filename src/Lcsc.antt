-- ===== src/Lcsc.antt =====
-- The LCSC card reader: lcsc.cpp and lcsc.h.
pub mod Crc16
pub mod Packet
pub mod Check
