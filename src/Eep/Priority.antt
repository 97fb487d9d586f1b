-- ===== src/Eep/Priority.antt =====
-- EEPClient::PRIORITY of eep_client.h: the lower number goes first.
use linux_pbs.Base.{ℕ}

abbrev pub unsolicited : ℕ
unsolicited = 0

abbrev pub start : ℕ
start = 1

abbrev pub watchdog : ℕ
watchdog = 2

abbrev pub normal : ℕ
normal = 3

abbrev pub health_status : ℕ
health_status = 4
