-- ===== src/Lcsc/Crc16.antt =====
-- LCSCReader::CRC16_CCITT of lcsc.cpp, on two bytes.
pub mod Shift
use Prim.Native.Nat.{bit_and, bit_or, bit_xor}
use linux_pbs.Base.{ℕ, zero, suc, ◌+◌, ◌*◌, ◌≡◌, refl, List, [], ◌∷◌, ◌==◌, if◌then◌else◌}

-- The body of the inner loop, on Ch and CL.
unfoldable pub crc_bit : ℕ × ℕ → ℕ × ℕ
crc_bit (high, low) =
    let doubled = bit_and high 0x7f * 2 in
    let shifted = if bit_and low 0x80 == 0x80 then bit_or doubled 0x01 else doubled in
    let low_shifted = bit_and low 0x7f * 2 in
    if bit_and high 0x80 == 0x80
    then (bit_xor shifted 0x10, bit_xor low_shifted 0x21)
    else (shifted, low_shifted)

unfoldable pub crc_bits : ℕ → ℕ × ℕ → ℕ × ℕ
unfolding crc_bit
crc_bits zero r = r
crc_bits (suc n) r = crc_bits n (crc_bit r)

unfoldable pub crc_bytes : List ℕ → ℕ × ℕ → ℕ × ℕ
unfolding crc_bits
crc_bytes [] r = r
crc_bytes (byte ∷ bytes) (high, low) = crc_bytes bytes (crc_bits 8 (bit_xor high byte, low))

unfoldable pub crc16_ccitt : List ℕ → ℕ
unfolding crc_bytes
crc16_ccitt bytes = let (high, low) = crc_bytes bytes (0xff, 0xff) in high * 256 + low

-- The catalogue's check value, on the text "123456789".
crc16_check :
    crc16_ccitt (0x31 ∷ 0x32 ∷ 0x33 ∷ 0x34 ∷ 0x35 ∷ 0x36 ∷ 0x37 ∷ 0x38 ∷ 0x39 ∷ []) ≡ 0x29b1
unfolding crc16_ccitt
crc16_check = refl
