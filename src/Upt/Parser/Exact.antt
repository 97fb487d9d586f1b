-- ===== src/Upt/Parser/Exact.antt =====
-- What the parser accepts is exactly what it read: the message's bytes are the received ones.
use linux_pbs.Base.{
  All-drop, ℕ, ◌+◌, ◌≤◌, ◌≡◌, ap, ◌∙◌, List, [], ◌∷◌, ◌++◌, All, length, take, drop, length-take,
  length-drop, take-append-drop, drop-add, arith,
}
use linux_pbs.Bytes.{
  IsByte, u8_bytes, u16_bytes, u32_bytes, u64_bytes, convert_to_uint8, convert_to_uint16,
  convert_to_uint32, convert_to_uint64,
}
use linux_pbs.Bytes.RoundTrip.{extract_sub_vector_lem}
use linux_pbs.Upt.Message.{MessageHeader, header_bytes}
use linux_pbs.Upt.Parser.{u8_at, u16_at, u32_at, u64_at, parse_header}

-- Reading an integer and writing it gives the bytes that stood there.
u8_front :
    (xs : List ℕ)
    → All IsByte xs
    → 1 ≤ length xs
    → u8_bytes (convert_to_uint8 (take 1 xs) 0) ++ drop 1 xs ≡ xs
unfolding convert_to_uint8
u8_front [] h n = absurd (omega arith)
u8_front (a ∷ xs) h n = ap (λ (t : ℕ). t ∷ xs) (omega arith)

u16_front :
    (xs : List ℕ)
    → All IsByte xs
    → 2 ≤ length xs
    → u16_bytes (convert_to_uint16 (take 2 xs) 0) ++ drop 2 xs ≡ xs
unfolding convert_to_uint16
u16_front (a ∷ b ∷ xs) h n = ground arith
u16_front _ h n = absurd (omega arith)

u32_front :
    (xs : List ℕ)
    → All IsByte xs
    → 4 ≤ length xs
    → u32_bytes (convert_to_uint32 (take 4 xs) 0) ++ drop 4 xs ≡ xs
unfolding convert_to_uint32
u32_front (a ∷ b ∷ c ∷ d ∷ xs) h n = ground arith
u32_front _ h n = absurd (omega arith)

u64_front :
    (xs : List ℕ)
    → All IsByte xs
    → 8 ≤ length xs
    → u64_bytes (convert_to_uint64 (take 8 xs) 0) ++ drop 8 xs ≡ xs
unfolding convert_to_uint64
u64_front (a ∷ b ∷ c ∷ d ∷ e ∷ f ∷ g ∷ i ∷ xs) h n = ground arith
u64_front _ h n = absurd (omega arith)

module _ (p : List ℕ) (bytes : All IsByte p) where
  pub u8_part : (k : ℕ) → k + 1 ≤ length p → u8_bytes (u8_at p k) ++ drop (k + 1) p ≡ drop k p
  unfolding u8_at
  u8_part k h =
      rw (extract_sub_vector_lem p k 1, drop-add k 1 p)
        (u8_front (drop k p) (All-drop IsByte k p bytes) (omega (arith, length-drop k p)))

  pub u16_part : (k : ℕ) → k + 2 ≤ length p → u16_bytes (u16_at p k) ++ drop (k + 2) p ≡ drop k p
  unfolding u16_at
  u16_part k h =
      rw (extract_sub_vector_lem p k 2, drop-add k 2 p)
        (u16_front (drop k p) (All-drop IsByte k p bytes) (omega (arith, length-drop k p)))

  pub u32_part : (k : ℕ) → k + 4 ≤ length p → u32_bytes (u32_at p k) ++ drop (k + 4) p ≡ drop k p
  unfolding u32_at
  u32_part k h =
      rw (extract_sub_vector_lem p k 4, drop-add k 4 p)
        (u32_front (drop k p) (All-drop IsByte k p bytes) (omega (arith, length-drop k p)))

  pub u64_part : (k : ℕ) → k + 8 ≤ length p → u64_bytes (u64_at p k) ++ drop (k + 8) p ≡ drop k p
  unfolding u64_at
  u64_part k h =
      rw (extract_sub_vector_lem p k 8, drop-add k 8 p)
        (u64_front (drop k p) (All-drop IsByte k p bytes) (omega (arith, length-drop k p)))

  mac_part : 64 ≤ length p → take 16 (drop 48 p) ++ drop 64 p ≡ drop 48 p
  mac_part h =
      ap (λ (t : List ℕ). take 16 (drop 48 p) ++ t) (drop-add 48 16 p)
      ∙ take-append-drop 16 (drop 48 p)

  -- With a MAC of full size the setter takes it.
  abbrev header_at_offsets : MessageHeader
  header_at_offsets = record {
    length_field = u32_at p 0;
    integrity_crc32 = u32_at p 4;
    msg_version = u8_at p 8;
    msg_direction = u8_at p 9;
    msg_time = u64_at p 10;
    msg_sequence = u32_at p 18;
    msg_class = u16_at p 22;
    msg_type = u32_at p 24;
    msg_code = u32_at p 28;
    msg_completion = u8_at p 32;
    msg_notification = u8_at p 33;
    msg_status = u32_at p 34;
    device_provider = u16_at p 38;
    device_type = u16_at p 40;
    device_number = u32_at p 42;
    encryption_algorithm = u8_at p 46;
    encryption_key_index = u8_at p 47;
    encryption_mac = take 16 (drop 48 p);
  }

  parse_header_offsets : 64 ≤ length p → parse_header p ≡ header_at_offsets
  unfolding parse_header
  parse_header_offsets h =
      let size : length (take 16 (drop 48 p)) ≡ 16 =
        omega (arith, length-take 16 (drop 48 p), length-drop 48 p) in
      rw (extract_sub_vector_lem p 48 16, size)

  -- The header that was read stands at the front of the payload.
  pub header_bytes-parse_header : 64 ≤ length p → header_bytes (parse_header p) ++ drop 64 p ≡ p
  unfolding header_bytes
  header_bytes-parse_header h = rw (parse_header_offsets h) (
      cc (
        u32_part 0 (omega arith),
        u32_part 4 (omega arith),
        u8_part 8 (omega arith),
        u8_part 9 (omega arith),
        u64_part 10 (omega arith),
        u32_part 18 (omega arith),
        u16_part 22 (omega arith),
        u32_part 24 (omega arith),
        u32_part 28 (omega arith),
        u8_part 32 (omega arith),
        u8_part 33 (omega arith),
        u32_part 34 (omega arith),
        u16_part 38 (omega arith),
        u16_part 40 (omega arith),
        u32_part 42 (omega arith),
        u8_part 46 (omega arith),
        u8_part 47 (omega arith),
        mac_part h,
      ))
