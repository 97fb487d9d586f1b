-- ===== src/Lcsc/Check/Accepts.antt =====
-- Which frames of the LCSC reader are accepted.
use linux_pbs.Base.{
  ℕ, ◌+◌, ◌-◌, ◌*◌, ◌/◌, ◌%◌, ◌≤◌, ◌≡◌, ◌≢◌, refl, ap, ◌∙◌, Bool, true, false, Option, some, List,
  [], ◌∷◌, ◌++◌, length, length-append, take, drop, take-append-drop, All-drop, length-drop,
  take-length_append, arith, leb, ==_refl, All, le→ltb,
}
use linux_pbs.Bytes.{IsByte}
use linux_pbs.Lcsc.Crc16.{crc16_ccitt}
use linux_pbs.Lcsc.Packet.{
  CscPacket, code_and_type, u16_be, serialize_without_crc, serialize, read_crc, read_rest,
  deserialize,
}
use linux_pbs.Lcsc.Packet.RoundTrip.{IsPacket, deserialize-serialize}
use linux_pbs.Lcsc.Check.{
  parsed, is_empty_payload, attention, declared_length, check_packet, check_frame,
}

-- A response that the reader may send: a packet with its CRC, the attention code, a type that the
-- command waits for, and a payload.
pub record IsResponse (matches : ℕ → Bool) (p : CscPacket) : Type 0 where
  pub packet_ok : IsPacket p
  pub crc_ok : p.crc ≡ crc16_ccitt (serialize_without_crc p)
  pub attention_ok : p.attn ≡ 0xa5
  pub is_response : p.code ≡ true
  pub type_ok : matches p.type ≡ true
  pub has_payload : p.payload ≢ []

serialize-append : (p : CscPacket) → serialize p ≡ serialize_without_crc p ++ u16_be p.crc
unfolding serialize serialize_without_crc
serialize-append p = refl

length-serialize : (p : CscPacket) → length (serialize p) ≡ 6 + length p.payload
unfolding serialize
length-serialize p = omega (arith, length-append p.payload (u16_be p.crc))

pub checked_part :
    (p : CscPacket) → take (length (serialize p) - 2) (serialize p) ≡ serialize_without_crc p
checked_part p =
    let counted : length (serialize p) - 2 ≡ length (serialize_without_crc p) = omega (
      arith,
      ap length (serialize-append p),
      length-append (serialize_without_crc p) (u16_be p.crc),
    ) in
    rw (counted, serialize-append p) (take-length_append (serialize_without_crc p) (u16_be p.crc))

is_empty_payload_lem : (xs : List ℕ) → xs ≢ [] → is_empty_payload xs ≡ false
is_empty_payload_lem [] h = absurd (h refl)
is_empty_payload_lem (x ∷ xs) h = refl

head_ok :
    (p : CscPacket)
    → IsPacket p
    → (attention (serialize p) ≡ p.attn) × (declared_length (serialize p) ≡ length (serialize p))
unfolding serialize
head_ok p v = (refl, omega (arith, length-append p.payload (u16_be p.crc), v.counts))

-- The frame of a response to the current command, with its own CRC and a payload, passes every test, and
-- is parsed as that packet.
pub check_frame-serialize :
    (matches : ℕ → Bool) (p : CscPacket)
    → IsResponse matches p
    → check_frame matches (serialize p) ≡ some (parsed p)
unfolding check_frame check_packet
check_frame-serialize matches p v =
    let (attn, declared) = head_ok p v.packet_ok in
    rw
      (
        le→ltb (length (serialize p)) 6 (omega (arith, length-serialize p)),
        attn ∙ v.attention_ok,
        declared,
        ==_refl (length (serialize p)),
        deserialize-serialize p v.packet_ok,
        checked_part p,
        ← v.crc_ok,
        ==_refl p.crc,
        v.is_response,
        v.type_ok,
        is_empty_payload_lem p.payload v.has_payload,
      )
      refl

-- A length or a CRC, split into its bytes again.
high_back : (high low : ℕ) → IsByte high → IsByte low → (high * 256 + low) / 256 % 256 ≡ high
high_back high low p q = omega arith

low_back : (high low : ℕ) → IsByte low → (high * 256 + low) % 256 ≡ low
low_back high low q = omega arith

code_and_type_back :
    (mixed : ℕ) → IsByte mixed → code_and_type (leb 0x80 (mixed % 256)) (mixed % 0x80) ≡ mixed
code_and_type_back mixed h = ground arith

-- The packet that is read has the frame's bytes.
abbrev pub Reads : List ℕ → Option CscPacket → Type 0
Reads frame r = (p : CscPacket) × (r ≡ some p) × (serialize p ≡ frame)

read_crc-Reads :
    (attn mixed high low : ℕ) (payload tail : List ℕ)
    → IsByte mixed
    → IsByte high
    → IsByte low
    → All IsByte tail
    → length tail ≡ 2
    → Reads (attn ∷ mixed ∷ high ∷ low ∷ (payload ++ tail)) (
        read_crc
          (record {
            attn = attn;
            code = leb 0x80 (mixed % 256);
            type = mixed % 0x80;
            len = high * 256 + low;
            payload = payload;
            crc = 0;
          })
          tail)
unfolding serialize
read_crc-Reads attn mixed high low payload [] p q r t e = absurd (omega arith)
read_crc-Reads attn mixed high low payload (x ∷ []) p q r t e = absurd (omega arith)
read_crc-Reads attn mixed high low payload (x ∷ y ∷ []) p q r t e = (
  _,
  refl,
  rw
      (
        code_and_type_back mixed p,
        high_back high low q r,
        low_back high low r,
        high_back x y t.0 t.1.0,
        low_back x y t.1.0,
      )
      refl,
)
read_crc-Reads attn mixed high low payload (x ∷ y ∷ z ∷ rest) p q r t e = absurd (omega arith)

read_rest-Reads :
    (attn mixed high low : ℕ) (rest : List ℕ)
    → IsByte mixed
    → IsByte high
    → IsByte low
    → All IsByte rest
    → high * 256 + low ≡ 4 + length rest
    → 2 ≤ length rest
    → Reads (attn ∷ mixed ∷ high ∷ low ∷ rest) (read_rest attn mixed (high * 256 + low) rest)
unfolding read_rest
read_rest-Reads attn mixed high low rest p q r t says enough =
    let n = high * 256 + low - 6 in
    rw (le→ltb (high * 256 + low) 6 (omega arith), le→ltb (length rest) n (omega arith))
      (rw (take-append-drop n rest) at (
        read_crc-Reads attn mixed high low (take n rest) (drop n rest) p q r
          (All-drop IsByte n rest t) (omega (arith, length-drop n rest))))

pub deserialize-Reads :
    (frame : List ℕ)
    → All IsByte frame
    → 6 ≤ length frame
    → declared_length frame ≡ length frame
    → Reads frame (deserialize frame)
unfolding deserialize
deserialize-Reads (attn ∷ mixed ∷ high ∷ low ∷ rest) t enough says =
    read_rest-Reads attn mixed high low rest t.1.0 t.1.1.0 t.1.1.1.0 t.1.1.1.1 (omega arith)
      (omega arith)
deserialize-Reads [] t enough says = absurd (omega arith)
deserialize-Reads (a ∷ []) t enough says = absurd (omega arith)
deserialize-Reads (a ∷ b ∷ []) t enough says = absurd (omega arith)
deserialize-Reads (a ∷ b ∷ c ∷ []) t enough says = absurd (omega arith)
