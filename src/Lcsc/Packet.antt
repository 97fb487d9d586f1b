-- ===== src/Lcsc/Packet.antt =====
-- The class CscPacket of lcsc.cpp.
pub mod RoundTrip
use linux_pbs.Base.{
  ℕ, ◌+◌, ◌-◌, ◌*◌, ◌/◌, ◌%◌, Bool, true, false, Option, none, some, List, [], ◌∷◌, ◌++◌, length,
  take, drop, ltb, leb, if◌then◌else◌,
}

pub record CscPacket : Type 0 where
  pub attn : ℕ  -- uint8
  pub code : Bool
  pub type : ℕ  -- uint8
  pub len : ℕ  -- uint16
  pub payload : List ℕ
  pub crc : ℕ  -- uint16

-- `(code << 7) | (type & 0x7F)`.
abbrev pub code_and_type : Bool → ℕ → ℕ
code_and_type code type = (if code then 0x80 else 0) + type % 0x80

-- A uint16, highest byte first.
abbrev pub u16_be : ℕ → List ℕ
u16_be v = v / 256 % 256 ∷ v % 256 ∷ []

unfoldable pub serialize_without_crc : CscPacket → List ℕ
serialize_without_crc p = p.attn ∷ code_and_type p.code p.type ∷ (u16_be p.len ++ p.payload)

unfoldable pub serialize : CscPacket → List ℕ
serialize p = p.attn ∷ code_and_type p.code p.type ∷ (u16_be p.len ++ (p.payload ++ u16_be p.crc))

abbrev pub read_crc : CscPacket → List ℕ → Option CscPacket
read_crc p (high ∷ low ∷ rest) = some (record p { crc = high * 256 + low })
read_crc p _ = none

-- The reads after the first four bytes.
unfoldable pub read_rest : ℕ → ℕ → ℕ → List ℕ → Option CscPacket
read_rest attn mixed len rest =
    if ltb len 6
    then none
    else if ltb (length rest) (len - 6)
    then none
    else read_crc
        (record {
          attn = attn;
          code = leb 0x80 (mixed % 256);
          type = mixed % 0x80;
          len = len;
          payload = take (len - 6) rest;
          crc = 0;
        })
        (drop (len - 6) rest)

-- `none` where the iterator would leave the data, which the source does not test.
unfoldable pub deserialize : List ℕ → Option CscPacket
unfolding read_rest
deserialize (attn ∷ mixed ∷ high ∷ low ∷ rest) = read_rest attn mixed (high * 256 + low) rest
deserialize _ = none
