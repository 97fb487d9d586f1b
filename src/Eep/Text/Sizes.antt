-- ===== src/Eep/Text/Sizes.antt =====
-- How many bytes the string conversions give.
use linux_pbs.Base.{
  ℕ, ◌+◌, ◌*◌, ◌%◌, ◌^◌, ◌≡◌, refl, subst, ◌==◌, ==_iff, Option, none, some, List, [], ◌∷◌, length,
  ltb, arith, if-by,
}
use linux_pbs.Eep.Text.{
  remove_spaces, hex_byte, cons_byte, hex_bytes, convert_hex_string_to_byte_array, stoul, two_bytes,
  decimal_string_to_two_bytes,
}

-- A result of n bytes, if there is one.
abbrev pub Gives : ℕ → Option (List ℕ) → Type 0
Gives n none = Unit
Gives n (some bs) = length bs ≡ n

abbrev Half : ℕ → Option (List ℕ) → Type 0
Half n none = Unit
Half n (some bs) = length bs * 2 ≡ n

cons_byte-Half :
    (b : Option ℕ) (n : ℕ) (r : Option (List ℕ)) → Half n r → Half (n + 2) (cons_byte b r)
unfolding cons_byte
cons_byte-Half none n r h = tt
cons_byte-Half (some b) n none h = tt
cons_byte-Half (some b) n (some bs) h = omega (arith, h)

hex_bytes-Half : (cs : List ℕ) → Half (length cs) (hex_bytes cs)
unfolding hex_bytes
hex_bytes-Half [] = omega arith
hex_bytes-Half (c ∷ []) = tt
hex_bytes-Half (c ∷ d ∷ cs) =
    subst (λ n. Half n (cons_byte (hex_byte c d) (hex_bytes cs))) (omega arith)
      (cons_byte-Half (hex_byte c d) (length cs) (hex_bytes cs) (hex_bytes-Half cs))

Half-Gives : (size : ℕ) (r : Option (List ℕ)) → Half (size * 2) r → Gives size r
Half-Gives size none h = tt
Half-Gives size (some bs) h = omega (arith, h)

pub convert_hex_string_to_byte_array-Gives :
    (input : List ℕ) (size : ℕ) → Gives size (convert_hex_string_to_byte_array input size)
unfolding convert_hex_string_to_byte_array
convert_hex_string_to_byte_array-Gives input size =
    if-by (Gives size) (length (remove_spaces input) == size * 2)
      (λ h. Half-Gives size (hex_bytes (remove_spaces input)) (
        subst (λ n. Half n (hex_bytes (remove_spaces input))) ((==_iff _ _).0 h)
          (hex_bytes-Half (remove_spaces input))))
      (λ h. tt)

two_bytes-Gives : (v : Option ℕ) → Gives 2 (two_bytes v)
unfolding two_bytes
two_bytes-Gives none = tt
two_bytes-Gives (some v) = if-by (Gives 2) (ltb 0xffff (v % 2 ^ 32)) (λ h. tt) (λ h. refl)

pub decimal_string_to_two_bytes-Gives : (s : List ℕ) → Gives 2 (decimal_string_to_two_bytes s)
unfolding decimal_string_to_two_bytes
decimal_string_to_two_bytes-Gives s = two_bytes-Gives (stoul s)
