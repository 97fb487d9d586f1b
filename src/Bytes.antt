-- ===== src/Bytes.antt =====
-- The byte-vector helpers of common.cpp, on a little-endian host: `FnExtractSubVector` and the
-- `FnConvertToUintN` family. A `std::vector<uint8_t>` is a list of numbers.
pub mod RoundTrip
use linux_pbs.Base.{
  ℕ, ◌+◌, ◌*◌, ◌/◌, ◌%◌, ◌^◌, ◌<◌, List, [], ◌∷◌, length, take, drop, ltb, leb, if◌then◌else◌,
}

abbrev pub IsByte : ℕ → Type 0
IsByte b = b < 256

-- `source.begin() + offset` up to `min(source.begin() + offset + length, source.end())`.
unfoldable pub extract_sub_vector : List ℕ → ℕ → ℕ → List ℕ
extract_sub_vector source offset len =
    if leb (length source) offset then [] else take len (drop offset source)

-- memcpy of n bytes into an unsigned integer.
abbrev pub from_le : List ℕ → ℕ
from_le [] = 0
from_le (b ∷ bs) = b + 256 * from_le bs

-- An offset out of range is logged, and the result is 0.
convert : ℕ → List ℕ → ℕ → ℕ
convert size vec offset =
    if ltb (length vec) (offset + size) then 0 else from_le (take size (drop offset vec))

unfoldable pub convert_to_uint8 : List ℕ → ℕ → ℕ
unfolding convert
convert_to_uint8 vec offset = convert 1 vec offset

unfoldable pub convert_to_uint16 : List ℕ → ℕ → ℕ
unfolding convert
convert_to_uint16 vec offset = convert 2 vec offset

unfoldable pub convert_to_uint32 : List ℕ → ℕ → ℕ
unfolding convert
convert_to_uint32 vec offset = convert 4 vec offset

unfoldable pub convert_to_uint64 : List ℕ → ℕ → ℕ
unfolding convert
convert_to_uint64 vec offset = convert 8 vec offset

-- The bytes of an unsigned integer in memory, lowest first (`appendToBuffer`).
abbrev pub u8_bytes : ℕ → List ℕ
u8_bytes v = v % 256 ∷ []

abbrev pub u16_bytes : ℕ → List ℕ
u16_bytes v = v % 256 ∷ v / 256 % 256 ∷ []

abbrev pub u32_bytes : ℕ → List ℕ
u32_bytes v = v % 256 ∷ v / 256 % 256 ∷ v / 65536 % 256 ∷ v / 16777216 % 256 ∷ []

abbrev pub u64_bytes : ℕ → List ℕ
u64_bytes v =
    v % 256
    ∷ v / 256 % 256
    ∷ v / 65536 % 256
    ∷ v / 16777216 % 256
    ∷ v / 4294967296 % 256
    ∷ v / 1099511627776 % 256
    ∷ v / 281474976710656 % 256
    ∷ v / 72057594037927936 % 256
    ∷ []
