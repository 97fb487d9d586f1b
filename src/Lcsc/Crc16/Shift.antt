-- ===== src/Lcsc/Crc16/Shift.antt =====
-- The CRC of the LCSC reader as one shift register of sixteen bits.
use Prim.Native.Nat.{bit_and, bit_or, bit_xor}
use native.Mathlib.Nat.{pow-suc}
use linux_pbs.Base.{
  ℕ, zero, suc, ◌+◌, ◌*◌, ◌/◌, ◌%◌, ◌^◌, ◌<◌, ◌≡◌, refl, sym, ap, ◌∙◌, Bool, true, false, not, List,
  [], ◌∷◌, ◌==◌, ==_iff, leb, if◌then◌else◌, arith, All, if-both, Bool-cases, inl, inr,
}
use linux_pbs.Bytes.{IsByte}
use linux_pbs.Crc.Bits.{bit_xor-lt, bit_xor_step, bit_xor-zero}
use linux_pbs.Crc.Reference.{every_below, every_below_lem}
use linux_pbs.Lcsc.Crc16.{crc_bit, crc_bits, crc_bytes, crc16_ccitt}

-- One bit leaves at the high end.
unfoldable pub shift_left : ℕ → ℕ
shift_left x = if leb 0x8000 x then bit_xor (x * 2 % 2 ^ 16) 0x1021 else x * 2 % 2 ^ 16

shift_lefts : ℕ → ℕ → ℕ
unfolding shift_left
shift_lefts zero x = x
shift_lefts (suc n) x = shift_lefts n (shift_left x)

unfoldable pub reference16 : List ℕ → ℕ → ℕ
unfolding shift_lefts
reference16 [] value = value
reference16 (byte ∷ bytes) value = reference16 bytes (shift_lefts 8 (bit_xor value (byte * 256)))

-- Exclusive or, in two parts.
xor_parts :
    (k a b c d : ℕ)
    → b < 2 ^ k
    → d < 2 ^ k
    → bit_xor (a * 2 ^ k + b) (c * 2 ^ k + d) ≡ bit_xor a c * 2 ^ k + bit_xor b d
xor_parts zero a zero c zero p q =
    omega (arith, ap (λ (t : ℕ). bit_xor t (c * 1 + 0)) (one a), ap (bit_xor a) (one c))
  where
    one : (t : ℕ) → t * 1 + 0 ≡ t
    one t = omega arith
xor_parts zero a (suc b) c d p q = absurd (omega arith)
xor_parts zero a zero c (suc d) p q = absurd (omega arith)
xor_parts (suc k) a b c d p q = omega (
  arith,
  pow-suc 2 k,
  ap (λ (t : ℕ). a * t) (pow-suc 2 k),
  ap (λ (t : ℕ). c * t) (pow-suc 2 k),
  ap (λ (t : ℕ). bit_xor a c * t) (pow-suc 2 k),
  bit_xor_step (a * 2 ^ suc k + b) (c * 2 ^ suc k + d),
  bit_xor_step b d,
  ap (λ (t : ℕ). bit_xor t ((c * 2 ^ suc k + d) / 2)) (halves a b),
  ap (bit_xor (a * 2 ^ k + b / 2)) (halves c d),
  xor_parts k a (b / 2) c (d / 2) (omega (arith, pow-suc 2 k)) (omega (arith, pow-suc 2 k)),
)
  where
    halves : (x y : ℕ) → (x * 2 ^ suc k + y) / 2 ≡ x * 2 ^ k + y / 2
    halves x y = omega (arith, ap (λ (t : ℕ). x * t) (pow-suc 2 k))

same : Bool → Bool → Bool
same true b = b
same false b = not b

same_lem : (a b : Bool) → same a b ≡ true → a ≡ b
unfolding same
same_lem true b h = ground arith
same_lem false true h = ground arith
same_lem false false h = refl

double_table : every_below (λ x. bit_and x 0x7f * 2 == x * 2 % 256) 256 ≡ true
unfolding every_below
double_table = refl

carry_table : every_below (λ x. bit_or (bit_and x 0x7f * 2) 1 == x * 2 % 256 + 1) 256 ≡ true
unfolding every_below
carry_table = refl

top_table : every_below (λ x. same (bit_and x 0x80 == 0x80) (leb 0x80 x)) 256 ≡ true
unfolding every_below same
top_table = refl

double_byte : (x : ℕ) → IsByte x → bit_and x 0x7f * 2 ≡ x * 2 % 256
double_byte x h = (==_iff _ _).0 (every_below_lem _ 256 x h double_table)

carry_byte : (x : ℕ) → IsByte x → bit_or (bit_and x 0x7f * 2) 1 ≡ x * 2 % 256 + 1
carry_byte x h = (==_iff _ _).0 (every_below_lem _ 256 x h carry_table)

top_bit : (x : ℕ) → IsByte x → (bit_and x 0x80 == 0x80) ≡ leb 0x80 x
top_bit x h = same_lem _ _ (every_below_lem _ 256 x h top_table)

-- The high byte after the shift, with the low byte's top bit.
abbrev carried : ℕ → ℕ → ℕ
carried h l = if leb 0x80 l then h * 2 % 256 + 1 else h * 2 % 256

carried-IsByte : (h l : ℕ) → IsByte h → IsByte (carried h l)
carried-IsByte h l p = if-both IsByte (leb 0x80 l) (omega arith) (omega arith)

crc_bit_lem :
    (h l : ℕ)
    → IsByte h
    → IsByte l
    → crc_bit (h, l) ≡ (
        if leb 0x80 h
        then (bit_xor (carried h l) 0x10, bit_xor (l * 2 % 256) 0x21)
        else (carried h l, l * 2 % 256))
unfolding crc_bit
crc_bit_lem h l p q =
    rw (top_bit h p, top_bit l q, carry_byte h p, double_byte h p, double_byte l q) refl

high_test : (h l : ℕ) → IsByte l → leb 0x8000 (h * 256 + l) ≡ leb 0x80 h
high_test h l q = ground arith

doubled_word :
    (h l : ℕ) → IsByte h → IsByte l → (h * 256 + l) * 2 % 2 ^ 16 ≡ carried h l * 256 + l * 2 % 256
doubled_word h l p q = ground arith

-- The two bytes as one number, in range.
abbrev pub Pair : ℕ × ℕ → ℕ → Type 0
Pair r value = (r.0 * 256 + r.1 ≡ value) × IsByte r.0 × IsByte r.1

crc_bit-Pair : (h l : ℕ) → IsByte h → IsByte l → Pair (crc_bit (h, l)) (shift_left (h * 256 + l))
unfolding shift_left
crc_bit-Pair h l p q =
    rw (crc_bit_lem h l p q, high_test h l q, doubled_word h l p q)
      (elim (Bool-cases (leb 0x80 h)) [
        | inl top ↦ rw top (
          sym (xor_parts 8 (carried h l) (l * 2 % 256) 0x10 0x21 (omega arith) (omega arith)),
          bit_xor-lt 8 (carried h l) 0x10 (carried-IsByte h l p) (omega arith),
          bit_xor-lt 8 (l * 2 % 256) 0x21 (omega arith) (omega arith),
        )
        | inr low ↦ rw low (refl, carried-IsByte h l p, omega arith)
      ])

crc_bits-Pair :
    (n h l : ℕ) → IsByte h → IsByte l → Pair (crc_bits n (h, l)) (shift_lefts n (h * 256 + l))
unfolding crc_bits shift_lefts
crc_bits-Pair zero h l p q = (refl, p, q)
crc_bits-Pair (suc n) h l p q =
    let (same_value, p', q') = crc_bit-Pair h l p q in
    rw same_value at (crc_bits-Pair n (crc_bit (h, l)).0 (crc_bit (h, l)).1 p' q')

mixed_in : (h l b : ℕ) → IsByte l → bit_xor (h * 256 + l) (b * 256) ≡ bit_xor h b * 256 + l
mixed_in h l b q =
    ap (bit_xor (h * 256 + l)) whole
    ∙ xor_parts 8 h l b 0 q (omega arith)
    ∙ ap (λ (t : ℕ). bit_xor h b * 256 + t) (bit_xor-zero l)
  where
    whole : b * 256 ≡ b * 256 + 0
    whole = omega arith

crc_bytes-Pair :
    (bytes : List ℕ) (h l : ℕ)
    → All IsByte bytes
    → IsByte h
    → IsByte l
    → Pair (crc_bytes bytes (h, l)) (reference16 bytes (h * 256 + l))
unfolding crc_bytes reference16
crc_bytes-Pair [] h l t p q = (refl, p, q)
crc_bytes-Pair (b ∷ bytes) h l t p q =
    let r = crc_bits 8 (bit_xor h b, l) in
    let (same_value, p', q') = crc_bits-Pair 8 (bit_xor h b) l (bit_xor-lt 8 h b p t.0) q in
    rw (mixed_in h l b q) (rw same_value at (crc_bytes-Pair bytes r.0 r.1 t.1 p' q'))

-- On bytes, the two-byte loop of CRC16_CCITT computes the CRC of one 16-bit register that shifts left
-- with the polynomial 0x1021, from 0xFFFF, and the result has sixteen bits.
pub crc16_ccitt-reference16 :
    (bytes : List ℕ)
    → All IsByte bytes
    → (crc16_ccitt bytes ≡ reference16 bytes 0xffff) × (crc16_ccitt bytes < 2 ^ 16)
unfolding crc16_ccitt
crc16_ccitt-reference16 bytes t =
    let (same_value, p, q) = crc_bytes-Pair bytes 0xff 0xff t (omega arith) (omega arith) in
    (same_value, omega arith)
