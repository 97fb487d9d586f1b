-- ===== src/Lcsc/Packet/RoundTrip.antt =====
-- Packets are read back as they were written.
use linux_pbs.Base.{
  ℕ, ◌+◌, ◌-◌, ◌*◌, ◌/◌, ◌%◌, ◌^◌, ◌<◌, ◌≡◌, refl, ◌∙◌, Bool, true, false, some, List, ◌++◌, length,
  length-append, take-length_append, drop-length_append, arith, leb, le→ltb,
}
use linux_pbs.Lcsc.Packet.{CscPacket, code_and_type, u16_be, serialize, read_rest, deserialize}

-- The fields in the ranges of their C++ types, and a length that counts the whole packet.
pub record IsPacket (p : CscPacket) : Type 0 where
  pub type_range : p.type < 0x80
  pub counts : p.len ≡ 6 + length p.payload
  pub length_range : p.len < 2 ^ 16
  pub crc_range : p.crc < 2 ^ 16

code_back : (code : Bool) (type : ℕ) → type < 0x80 → leb 0x80 (code_and_type code type % 256) ≡ code
code_back true type h = ground arith
code_back false type h = ground arith

type_back : (code : Bool) (type : ℕ) → type < 0x80 → code_and_type code type % 0x80 ≡ type
type_back true type h = omega arith
type_back false type h = omega arith

read_rest-payload :
    (attn mixed crc : ℕ) (payload : List ℕ)
    → crc < 2 ^ 16
    → read_rest attn mixed (6 + length payload) (payload ++ u16_be crc)
      ≡ some (record {
        attn = attn;
        code = leb 0x80 (mixed % 256);
        type = mixed % 0x80;
        len = 6 + length payload;
        payload = payload;
        crc = crc;
      })
unfolding read_rest
read_rest-payload attn mixed crc payload h =
    let counted : 6 + length payload - 6 ≡ length payload = omega arith in
    let value : crc / 256 % 256 * 256 + crc % 256 ≡ crc = omega arith in
    rw
      (
        le→ltb (6 + length payload) 6 (omega arith),
        counted,
        le→ltb (length (payload ++ u16_be crc)) (length payload)
            (omega (arith, length-append payload (u16_be crc))),
        take-length_append payload (u16_be crc),
        drop-length_append payload (u16_be crc),
        value,
      )
      refl

-- Deserializing what serialize wrote gives the packet back, if its type has seven bits, its length
-- counts the packet and fits sixteen bits, and its CRC fits sixteen bits.
pub deserialize-serialize : (p : CscPacket) → IsPacket p → deserialize (serialize p) ≡ some p
unfolding deserialize serialize
deserialize-serialize p v =
    let len : p.len / 256 % 256 * 256 + p.len % 256 ≡ 6 + length p.payload = omega arith in
    rw len (
      read_rest-payload p.attn (code_and_type p.code p.type) p.crc p.payload v.crc_range
      ∙ rw (code_back p.code p.type v.type_range, type_back p.code p.type v.type_range, v.counts)
          refl)
