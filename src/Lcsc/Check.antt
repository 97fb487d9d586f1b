-- ===== src/Lcsc/Check.antt =====
-- The tests at the head of LCSCReader::handleReceivedCmd.
pub mod Accepts
pub mod Exact
use linux_pbs.Base.{
  ℕ, ◌+◌, ◌-◌, ◌*◌, ◌%◌, ◌^◌, Bool, true, false, not, Option, none, some, List, [], ◌∷◌, length,
  take, ltb, ◌==◌, if◌then◌else◌,
}
use linux_pbs.Lcsc.Crc16.{crc16_ccitt}
use linux_pbs.Lcsc.Packet.{CscPacket, serialize_without_crc, serialize, deserialize}

-- The reasons for rejectCurrentResponse.
pub data Reason : Type 0 where
  frame_too_short invalid_attention length_mismatch crc_mismatch not_response type_mismatch : Reason
  empty_payload : Reason

pub data Verdict : Type 0 where
  rejected : Reason → Verdict
  parsed : CscPacket → Verdict

abbrev pub is_empty_payload : List ℕ → Bool
is_empty_payload [] = true
is_empty_payload (b ∷ bs) = false

-- The first four bytes, where the frame has them.
abbrev pub attention : List ℕ → ℕ
attention [] = 0
attention (attn ∷ rest) = attn

abbrev pub declared_length : List ℕ → ℕ
declared_length (attn ∷ mixed ∷ high ∷ low ∷ rest) = high * 256 + low
declared_length _ = 0

-- The tests of the packet. `matches` is isCurrentCmdResponse for the current command.
unfoldable pub check_packet : (ℕ → Bool) → List ℕ → CscPacket → Verdict
check_packet matches frame p =
    if not (crc16_ccitt (take (length frame - 2) frame) == p.crc)
    then rejected crc_mismatch
    else if not p.code
    then rejected not_response
    else if not (matches p.type)
    then rejected type_mismatch
    else if is_empty_payload p.payload
    then rejected empty_payload
    else parsed p

abbrev pub check_read : (ℕ → Bool) → List ℕ → Option CscPacket → Option Verdict
check_read matches frame none = none
check_read matches frame (some p) = some (check_packet matches frame p)

-- `none` where deserialize would leave the frame.
unfoldable pub check_frame : (ℕ → Bool) → List ℕ → Option Verdict
check_frame matches frame =
    if ltb (length frame) 6
    then some (rejected frame_too_short)
    else if not (attention frame == 0xa5)
    then some (rejected invalid_attention)
    else if not (declared_length frame == length frame)
    then some (rejected length_mismatch)
    else check_read matches frame (deserialize frame)
