-- ===== src/Crc/Reference.antt =====
-- The bit-by-bit CRC with the reflected polynomial 0xEDB88320, which the table of crc.cpp encodes.
use Prim.Native.Nat.{bit_and, bit_xor}
use linux_pbs.Base.{
  ℕ, zero, suc, ◌+◌, ◌*◌, ◌/◌, ◌%◌, ◌^◌, ◌<◌, ◌≡◌, refl, sym, ap, ◌∙◌, List, [], ◌∷◌, All, arith,
  Bool, true, ◌&&◌, ◌==◌, ==_iff, ◌⊎◌,
}
use linux_pbs.Bytes.{IsByte}
use linux_pbs.Crc.Bits.{
  bit_xor_step, bit_xor_comm, bit_xor_assoc, bit_xor-zero, zero-bit_xor, bit_xor-lt, bit_xor_fields,
  bit_and_fields,
}
use linux_pbs.Crc.{table, get_or, update_byte, update, crc32, init}

abbrev pub polynomial : ℕ
polynomial = 0xedb88320

-- One bit leaves at the low end.
unfoldable pub shift_bit : ℕ → ℕ
shift_bit x = bit_xor (x / 2) (polynomial * (x % 2))

unfoldable pub shift_bits : ℕ → ℕ → ℕ
unfolding shift_bit
shift_bits zero x = x
shift_bits (suc n) x = shift_bits n (shift_bit x)

unfoldable pub reference_byte : ℕ → ℕ → ℕ
unfolding shift_bits
reference_byte value byte = shift_bits 8 (bit_xor value byte)

unfoldable pub reference : ℕ → List ℕ → ℕ
unfolding reference_byte
reference value [] = value
reference value (byte ∷ bytes) = reference (reference_byte value byte) bytes

unfoldable pub every_below : (ℕ → Bool) → ℕ → Bool
every_below test zero = true
every_below test (suc bound) = test bound && every_below test bound

pub every_below_lem :
    (test : ℕ → Bool) (bound n : ℕ) → n < bound → every_below test bound ≡ true → test n ≡ true
unfolding every_below
every_below_lem test zero n small all = absurd (omega arith)
every_below_lem test (suc bound) n small all = ground (arith, every_below_lem test bound n)

table_check : every_below (λ x. shift_bits 8 x == get_or table x 0) 256 ≡ true
unfolding every_below shift_bits table
table_check = refl

-- Each entry of the table is its index, shifted by eight bits.
table_entry : (x : ℕ) → x < 256 → shift_bits 8 x ≡ get_or table x 0
table_entry x h = (==_iff _ _).0 (every_below_lem _ 256 x h table_check)

half_xor : (x y : ℕ) → bit_xor x y / 2 ≡ bit_xor (x / 2) (y / 2)
half_xor x y = omega (arith, bit_xor_step x y)

low_bit : (x : ℕ) → (x % 2 ≡ 0) ⊎ (x % 2 ≡ 1)
low_bit x = omega arith

regroup : (a b p q : ℕ) → bit_xor (bit_xor a b) (bit_xor p q) ≡ bit_xor (bit_xor a p) (bit_xor b q)
regroup a b p q =
    bit_xor_assoc a b (bit_xor p q)
    ∙ ap (bit_xor a) (sym (bit_xor_assoc b p q) ∙ rw (bit_xor_comm b p) (bit_xor_assoc p b q))
    ∙ sym (bit_xor_assoc a p (bit_xor b q))

-- On single bits, by cases.
feedback_bits :
    (x y z : ℕ)
    → (x < 2) × (y < 2) × (z ≡ (x + y) % 2)
    → polynomial * z ≡ bit_xor (polynomial * x) (polynomial * y)
feedback_bits zero zero z h = rw h.2
feedback_bits zero (suc zero) z h = rw h.2
feedback_bits (suc zero) zero z h = rw h.2
feedback_bits (suc zero) (suc zero) z h = rw h.2
feedback_bits zero (suc (suc y)) z h = absurd (omega arith)
feedback_bits (suc zero) (suc (suc y)) z h = absurd (omega arith)
feedback_bits (suc (suc x)) y z h = absurd (omega arith)

feedback-xor :
    (x y : ℕ)
    → polynomial * (bit_xor x y % 2) ≡ bit_xor (polynomial * (x % 2)) (polynomial * (y % 2))
feedback-xor x y = feedback_bits (x % 2) (y % 2) (bit_xor x y % 2) (omega (arith, bit_xor_step x y))

-- Shifting is linear in the exclusive or.
shift_bit-xor : (x y : ℕ) → shift_bit (bit_xor x y) ≡ bit_xor (shift_bit x) (shift_bit y)
unfolding shift_bit
shift_bit-xor x y = rw (half_xor x y, feedback-xor x y) (regroup (x / 2) (y / 2) _ _)

shift_bits-xor :
    (n x y : ℕ) → shift_bits n (bit_xor x y) ≡ bit_xor (shift_bits n x) (shift_bits n y)
unfolding shift_bits
shift_bits-xor zero x y = refl
shift_bits-xor (suc n) x y = rw (shift_bit-xor x y) (shift_bits-xor n (shift_bit x) (shift_bit y))

shift_bit-double : (x : ℕ) → shift_bit (x * 2) ≡ x
unfolding shift_bit
shift_bit-double x =
    let even : x * 2 % 2 ≡ 0 = omega arith in
    let half : x * 2 / 2 ≡ x = omega arith in rw (even, half) (bit_xor-zero x)

-- Eight zero bits at the low end leave unchanged.
shift_bits-high : (x : ℕ) → shift_bits 8 (x * 256) ≡ x
unfolding shift_bits
shift_bits-high x =
    let doubled : x * 256 ≡ x * 2 * 2 * 2 * 2 * 2 * 2 * 2 * 2 = omega arith in
    rw doubled (simp shift_bit-double)

-- The register split into its low byte and the rest.
low_mixed : (hi lo b : ℕ) → lo < 256 → b < 256 → bit_xor (hi * 256 + lo) b ≡ hi * 256 + bit_xor lo b
low_mixed hi lo b p q = bit_xor_fields 8 hi lo b p q

split_byte : (hi t : ℕ) → t < 256 → hi * 256 + t ≡ bit_xor (hi * 256) t
split_byte hi t h = omega (
  arith,
  bit_xor_fields 8 hi 0 t (omega arith) h,
  zero-bit_xor t,
  ap (λ (u : ℕ). bit_xor u t) zero_low,
)
  where
    zero_low : hi * 256 + 0 ≡ hi * 256
    zero_low = omega arith

reference_byte_lem :
    (hi lo b : ℕ)
    → lo < 256
    → b < 256
    → reference_byte (hi * 256 + lo) b ≡ bit_xor (get_or table (bit_xor lo b) 0) hi
unfolding reference_byte
reference_byte_lem hi lo b p q =
    let mixed : bit_xor lo b < 256 = bit_xor-lt 8 lo b p q in
    rw
      (
        low_mixed hi lo b p q,
        split_byte hi (bit_xor lo b) mixed,
        shift_bits-xor 8 (hi * 256) (bit_xor lo b),
        shift_bits-high hi,
        table_entry (bit_xor lo b) mixed,
      )
      (bit_xor_comm hi _)

-- The index into the table.
table_index :
    (hi lo b : ℕ)
    → lo < 256
    → b < 256
    → bit_and (bit_xor ((hi * 256 + lo) % 65536) b) 0xff ≡ bit_xor lo b
table_index hi lo b p q =
    let narrow : (hi * 256 + lo) % 65536 ≡ hi % 256 * 256 + lo = omega arith in
    rw (narrow, low_mixed (hi % 256) lo b p q)
      (bit_and_fields 8 (hi % 256) (bit_xor lo b) (bit_xor-lt 8 lo b p q))

high_mask : (hi lo : ℕ) → lo < 256 → hi < 2 ^ 24 → bit_and ((hi * 256 + lo) / 256) 0x00ffffff ≡ hi
high_mask hi lo p q =
    let high : (hi * 256 + lo) / 256 ≡ 0 * 2 ^ 24 + hi = omega arith in
    rw high (bit_and_fields 24 0 hi q)

update_byte_parts :
    (hi lo b : ℕ)
    → lo < 256
    → b < 256
    → hi < 2 ^ 24
    → update_byte (hi * 256 + lo) b ≡ reference_byte (hi * 256 + lo) b
unfolding update_byte
update_byte_parts hi lo b p q r =
    rw (table_index hi lo b p q, high_mask hi lo p r) (sym (reference_byte_lem hi lo b p q))

update_byte-reference_byte :
    (value b : ℕ) → value < 2 ^ 32 → b < 256 → update_byte value b ≡ reference_byte value b
update_byte-reference_byte value b h q =
    let split : value ≡ value / 256 * 256 + value % 256 = omega arith in
    rw split (update_byte_parts (value / 256) (value % 256) b (omega arith) q (omega arith))

shift_bit-lt : (x : ℕ) → x < 2 ^ 32 → shift_bit x < 2 ^ 32
unfolding shift_bit
shift_bit-lt x h = bit_xor-lt 32 (x / 2) (polynomial * (x % 2)) (omega arith) (omega arith)

shift_bits-lt : (n x : ℕ) → x < 2 ^ 32 → shift_bits n x < 2 ^ 32
unfolding shift_bits
shift_bits-lt zero x h = h
shift_bits-lt (suc n) x h = shift_bits-lt n (shift_bit x) (shift_bit-lt x h)

reference_byte-lt : (value b : ℕ) → value < 2 ^ 32 → b < 256 → reference_byte value b < 2 ^ 32
unfolding reference_byte
reference_byte-lt value b h q =
    shift_bits-lt 8 (bit_xor value b) (bit_xor-lt 32 value b h (omega arith))

-- On bytes and a 32-bit register, the table-driven loop of CRC32::Update computes the bit-by-bit
-- CRC, and the register stays within 32 bits.
pub update-reference :
    (value : ℕ) (bytes : List ℕ)
    → value < 2 ^ 32
    → All IsByte bytes
    → (update value bytes ≡ reference value bytes) × (update value bytes < 2 ^ 32)
unfolding update reference
update-reference value [] h bs = (refl, h)
update-reference value (b ∷ bytes) h bs =
    let same = update_byte-reference_byte value b h bs.0 in
    let (next, small) =
      update-reference (reference_byte value b) bytes (reference_byte-lt value b h bs.0) bs.1 in
    (rw same next, rw same small)

pub crc32-lt : (bytes : List ℕ) → All IsByte bytes → crc32 bytes < 2 ^ 32
unfolding crc32
crc32-lt bytes h =
    bit_xor-lt 32 _ 0xffffffff (update-reference init bytes (omega arith) h).1 (omega arith)

-- The catalogue's check value of this CRC, on the text "123456789".
crc32_check : crc32 (0x31 ∷ 0x32 ∷ 0x33 ∷ 0x34 ∷ 0x35 ∷ 0x36 ∷ 0x37 ∷ 0x38 ∷ 0x39 ∷ []) ≡ 0xcbf43926
unfolding crc32
crc32_check = refl
