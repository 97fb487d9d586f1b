-- ===== src/Upt/Codes.antt =====
-- The constants of upt.h: framing bytes, message statuses, classes, types, codes and field ids.
use linux_pbs.Base.{ℕ}

abbrev pub stx : ℕ
stx = 0x02

abbrev pub etx : ℕ
etx = 0x04
