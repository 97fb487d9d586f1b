-- ===== src/Upt/Status.antt =====
-- The values of `enum class MSG_STATUS` (upt.h) that the code tests or returns.
use linux_pbs.Base.{ℕ}

abbrev pub success : ℕ
success = 0

abbrev pub invalid_parameter : ℕ
invalid_parameter = 3

abbrev pub send_failed : ℕ
send_failed = 5

abbrev pub ack_timeout : ℕ
ack_timeout = 6

abbrev pub rsp_timeout : ℕ
rsp_timeout = 7

abbrev pub msg_integrity_failed : ℕ
msg_integrity_failed = 0x10000000

abbrev pub msg_length_mismatch : ℕ
msg_length_mismatch = 0x10000006

abbrev pub msg_length_minimum : ℕ
msg_length_minimum = 0x10000007

abbrev pub msg_length_maximum : ℕ
msg_length_maximum = 0x10000008

abbrev pub msg_data_transparency_error : ℕ
msg_data_transparency_error = 0x10000011

abbrev pub field_length_minimum : ℕ
field_length_minimum = 0x11000002

abbrev pub field_length_invalid : ℕ
field_length_invalid = 0x11000003

abbrev pub sof_logon_required : ℕ
sof_logon_required = 0x40000008
