-- ===== src/Crc/Bits.antt =====
-- Laws of the exclusive or at every width, from the digits that the native operations stand for.
use Prim.Native.Nat.{bit_and, bit_xor, differ, digits, bitwise, bit_and-bitwise, bit_xor-bitwise}
use native.Mathlib.Nat.{le_refl, pow-suc}
use linux_pbs.Base.{
  ℕ, zero, suc, ◌+◌, ◌*◌, ◌/◌, ◌%◌, ◌^◌, ◌≤◌, ◌<◌, ◌≡◌, refl, sym, ap, ◌∙◌, min, arith,
}

-- The fuel of the digit recursion does not matter, once it is enough.
module _ (base : ℕ → ℕ) (op : ℕ → ℕ → ℕ) where
  spare_fuel :
      (fuel more x y : ℕ)
      → (x ≤ fuel) × (x ≤ more)
      → digits base op fuel x y ≡ digits base op more x y
  spare_fuel zero zero x y h = refl
  spare_fuel zero (suc more) zero y h = refl
  spare_fuel (suc fuel) zero zero y h = refl
  spare_fuel (suc fuel) (suc more) zero y h = refl
  spare_fuel (suc fuel) (suc more) (suc x) y h =
      rw (spare_fuel fuel more (suc x / 2) (y / 2) (omega arith, omega arith))
  spare_fuel _ _ (suc x) y h = absurd (omega arith)

  lowest_digit :
      (x y : ℕ)
      → bitwise base op (suc x) y ≡ bitwise base op (suc x / 2) (y / 2) * 2 + op (suc x % 2) (y % 2)
  lowest_digit x y =
      omega (arith, spare_fuel x (suc x / 2) (suc x / 2) (y / 2) (omega arith, le_refl _))

differ_bits : (x y : ℕ) → x < 2 → y < 2 → differ x y ≡ (x + y) % 2
differ_bits zero y p q = omega arith
differ_bits (suc zero) zero p q = refl
differ_bits (suc zero) (suc zero) p q = refl
differ_bits (suc zero) (suc (suc y)) p q = absurd (omega arith)
differ_bits (suc (suc x)) y p q = absurd (omega arith)

pub bit_xor_step : (a b : ℕ) → bit_xor a b ≡ bit_xor (a / 2) (b / 2) * 2 + (a % 2 + b % 2) % 2
bit_xor_step zero b = simp bit_xor-bitwise (omega arith)
bit_xor_step (suc a) b = omega (
  arith,
  bit_xor-bitwise (suc a) b,
  bit_xor-bitwise (suc a / 2) (b / 2),
  lowest_digit (λ y. y) differ a b,
  differ_bits (suc a % 2) (b % 2) (omega arith) (omega arith),
)

bit_and_step : (x y : ℕ) → bit_and x y ≡ bit_and (x / 2) (y / 2) * 2 + min (x % 2) (y % 2)
bit_and_step zero y = simp bit_and-bitwise (omega arith)
bit_and_step (suc x) y = simp bit_and-bitwise (lowest_digit (λ _. 0) min x y)

-- Equations between numbers hold at each if they hold at its half.
by_halves : (P : ℕ → Type 0) → P 0 → ((n : ℕ) → P (suc n / 2) → P (suc n)) → (n : ℕ) → P n
by_halves P base step n = go n n (le_refl n)
  where
    go : (fuel m : ℕ) → m ≤ fuel → P m
    go zero zero h = base
    go zero (suc m) h = absurd (omega arith)
    go (suc fuel) zero h = base
    go (suc fuel) (suc m) h = step m (go fuel (suc m / 2) (omega arith))

pub zero-bit_xor : (b : ℕ) → bit_xor 0 b ≡ b
zero-bit_xor b = bit_xor-bitwise 0 b

pub bit_xor-zero : (a : ℕ) → bit_xor a 0 ≡ a
bit_xor-zero =
    by_halves (λ n. bit_xor n 0 ≡ n) refl (λ n ih. omega (arith, bit_xor_step (suc n) 0, ih))

pub bit_xor_comm : (a b : ℕ) → bit_xor a b ≡ bit_xor b a
bit_xor_comm a =
    by_halves (λ n. (b : ℕ) → bit_xor n b ≡ bit_xor b n)
      (λ b. zero-bit_xor b ∙ sym (bit_xor-zero b))
      (λ n ih b. omega (arith, bit_xor_step (suc n) b, bit_xor_step b (suc n), ih (b / 2))) a

pub bit_xor_assoc : (a b c : ℕ) → bit_xor (bit_xor a b) c ≡ bit_xor a (bit_xor b c)
bit_xor_assoc a =
    by_halves (λ n. (b c : ℕ) → bit_xor (bit_xor n b) c ≡ bit_xor n (bit_xor b c))
      (λ b c. rw (zero-bit_xor b, zero-bit_xor (bit_xor b c))) assoc_step a
  where
    half_xor : (x y : ℕ) → bit_xor x y / 2 ≡ bit_xor (x / 2) (y / 2)
    half_xor x y = omega (arith, bit_xor_step x y)

    assoc_step :
        (n : ℕ)
        → ((b c : ℕ) → bit_xor (bit_xor (suc n / 2) b) c ≡ bit_xor (suc n / 2) (bit_xor b c))
        → (b c : ℕ) → bit_xor (bit_xor (suc n) b) c ≡ bit_xor (suc n) (bit_xor b c)
    assoc_step n ih b c =
        bit_xor_step (bit_xor (suc n) b) c
        ∙ rw (half_xor (suc n) b, ih (b / 2) (c / 2))
            (omega (
              arith,
              bit_xor_step (suc n) b,
              bit_xor_step b c,
              bit_xor_step (suc n) (bit_xor b c),
              ap (bit_xor (suc n / 2)) (half_xor b c),
            ))

pub bit_xor-lt : (k a b : ℕ) → a < 2 ^ k → b < 2 ^ k → bit_xor a b < 2 ^ k
bit_xor-lt zero zero zero p q = omega arith
bit_xor-lt zero zero (suc b) p q = absurd (omega arith)
bit_xor-lt zero (suc a) b p q = absurd (omega arith)
bit_xor-lt (suc k) a b p q = omega (
  arith,
  pow-suc 2 k,
  bit_xor_step a b,
  bit_xor-lt k (a / 2) (b / 2) (omega (arith, pow-suc 2 k)) (omega (arith, pow-suc 2 k)),
)

-- Below the k-th digit the higher digits of one side stay out of it.
pub bit_xor_fields :
    (k q r s : ℕ) → r < 2 ^ k → s < 2 ^ k → bit_xor (q * 2 ^ k + r) s ≡ q * 2 ^ k + bit_xor r s
bit_xor_fields zero q zero zero p h = omega (arith, bit_xor-zero (q * 1 + 0))
bit_xor_fields zero q zero (suc s) p h = absurd (omega arith)
bit_xor_fields zero q (suc r) s p h = absurd (omega arith)
bit_xor_fields (suc k) q r s p h = omega (
  arith,
  pow-suc 2 k,
  ap (λ (t : ℕ). q * t) (pow-suc 2 k),
  bit_xor_step (q * 2 ^ suc k + r) s,
  bit_xor_step r s,
  ap (λ (t : ℕ). bit_xor t (s / 2)) halves,
  bit_xor_fields k q (r / 2) (s / 2) (omega (arith, pow-suc 2 k)) (omega (arith, pow-suc 2 k)),
)
  where
    halves : (q * 2 ^ suc k + r) / 2 ≡ q * 2 ^ k + r / 2
    halves = omega (arith, ap (λ (t : ℕ). q * t) (pow-suc 2 k))

bit_and-zero : (a : ℕ) → bit_and a 0 ≡ 0
bit_and-zero =
    by_halves (λ n. bit_and n 0 ≡ 0) refl (λ n ih. omega (arith, bit_and_step (suc n) 0, ih))

-- A mask of k ones is the remainder by 2 ^ k; `ones` counts them.
abbrev pub ones : ℕ → ℕ
ones zero = 0
ones (suc k) = ones k * 2 + 1

pub bit_and_fields : (k q r : ℕ) → r < 2 ^ k → bit_and (q * 2 ^ k + r) (ones k) ≡ r
bit_and_fields zero q zero h = bit_and-zero (q * 1 + 0)
bit_and_fields zero q (suc r) h = absurd (omega arith)
bit_and_fields (suc k) q r h = omega (
  arith,
  pow-suc 2 k,
  ap (λ (t : ℕ). q * t) (pow-suc 2 k),
  bit_and_step (q * 2 ^ suc k + r) (ones (suc k)),
  ap (λ (t : ℕ). bit_and t (ones (suc k) / 2)) halves,
  ap (bit_and (q * 2 ^ k + r / 2)) ones_half,
  bit_and_fields k q (r / 2) (omega (arith, pow-suc 2 k)),
)
  where
    halves : (q * 2 ^ suc k + r) / 2 ≡ q * 2 ^ k + r / 2
    halves = omega (arith, ap (λ (t : ℕ). q * t) (pow-suc 2 k))

    ones_half : ones (suc k) / 2 ≡ ones k
    ones_half = omega arith
