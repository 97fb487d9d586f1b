-- ===== src/Bytes/RoundTrip.antt =====
-- Writing an integer as bytes and reading it back (common.cpp, upt.cpp `appendToBuffer`).
use linux_pbs.Base.{
  ℕ, ◌^◌, ◌<◌, ◌≡◌, List, length, take, drop, arith, Bool-cases, take_nil, drop_all, inl, inr, leb,
}
use linux_pbs.Bytes.{
  extract_sub_vector, convert_to_uint8, convert_to_uint16, convert_to_uint32, convert_to_uint64,
  u8_bytes, u16_bytes, u32_bytes, u64_bytes,
}

pub extract_sub_vector_lem :
    (source : List ℕ) (offset len : ℕ)
    → extract_sub_vector source offset len ≡ take len (drop offset source)
unfolding extract_sub_vector
extract_sub_vector_lem source offset len = elim (Bool-cases (leb (length source) offset)) [
  | inl e ↦ rw (e, drop_all offset source (ground arith), take_nil {A = ℕ} len)
  | inr e ↦ rw e
]

pub uint8_round_trip : (v : ℕ) → v < 256 → convert_to_uint8 (u8_bytes v) 0 ≡ v
unfolding convert_to_uint8
uint8_round_trip v h = omega arith

pub uint16_round_trip : (v : ℕ) → v < 65536 → convert_to_uint16 (u16_bytes v) 0 ≡ v
unfolding convert_to_uint16
uint16_round_trip v h = omega arith

pub uint32_round_trip : (v : ℕ) → v < 2 ^ 32 → convert_to_uint32 (u32_bytes v) 0 ≡ v
unfolding convert_to_uint32
uint32_round_trip v h = omega arith

pub uint64_round_trip : (v : ℕ) → v < 2 ^ 64 → convert_to_uint64 (u64_bytes v) 0 ≡ v
unfolding convert_to_uint64
uint64_round_trip v h = omega arith
