-- ===== src/Examples/Reader.antt =====
-- A response of the LCSC reader.
use linux_pbs.Base.{◌<◌, ◌^◌, ℕ, ◌≡◌, refl, Bool, true, some, [], ◌∷◌, ◌==◌, arith}
use linux_pbs.Lcsc.Crc16.{crc16_ccitt}
use linux_pbs.Lcsc.Crc16.Shift.{reference16, crc16_ccitt-reference16}
use linux_pbs.Lcsc.Packet.{CscPacket, serialize_without_crc, serialize, deserialize}
use linux_pbs.Lcsc.Packet.RoundTrip.{IsPacket, deserialize-serialize}
use linux_pbs.Lcsc.Check.{Verdict, parsed, check_frame}
use linux_pbs.Lcsc.Check.Accepts.{IsResponse, check_frame-serialize}
use linux_pbs.Lcsc.Check.Exact.{IsAccepted, check_frame-exact, check_frame-total}

-- A status response, with the result 0.
abbrev status : CscPacket
status = record {
  attn = 0xa5;
  code = true;
  type = 0x00;
  len = 7;
  payload = 0x00 ∷ [];
  crc = 0x5c90;
}

abbrev is_status : ℕ → Bool
is_status type = type == 0x00

status-IsPacket : IsPacket status
status-IsPacket = record {
  type_range = omega arith;
  counts = refl;
  length_range = omega arith;
  crc_range = omega arith;
}

status-IsResponse : IsResponse is_status status
unfolding crc16_ccitt serialize_without_crc
status-IsResponse = record {
  packet_ok = status-IsPacket;
  crc_ok = refl;
  attention_ok = refl;
  is_response = refl;
  type_ok = refl;
  has_payload = ground arith;
}

deserialize-serialize_example : deserialize (serialize status) ≡ some status
deserialize-serialize_example = deserialize-serialize status status-IsPacket

check_frame-serialize_example : check_frame is_status (serialize status) ≡ some (parsed status)
check_frame-serialize_example = check_frame-serialize is_status status status-IsResponse

check_frame-exact_example : IsAccepted is_status (serialize status) status
unfolding serialize
check_frame-exact_example =
    check_frame-exact is_status (serialize status) status (omega arith)
      (check_frame-serialize is_status status status-IsResponse)

check_frame-total_example :
    (v : Verdict) × (check_frame is_status (0xa5 ∷ 0x80 ∷ 0x00 ∷ []) ≡ some v)
check_frame-total_example = check_frame-total is_status (0xa5 ∷ 0x80 ∷ 0x00 ∷ []) (omega arith)

crc16_ccitt-reference16_example :
    (crc16_ccitt (0x31 ∷ 0x32 ∷ []) ≡ reference16 (0x31 ∷ 0x32 ∷ []) 0xffff)
    × (crc16_ccitt (0x31 ∷ 0x32 ∷ []) < 2 ^ 16)
crc16_ccitt-reference16_example = crc16_ccitt-reference16 (0x31 ∷ 0x32 ∷ []) (omega arith)
