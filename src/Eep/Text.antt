-- ===== src/Eep/Text.antt =====
-- The string conversions of common.cpp that the requests use, with the std functions under them. A
-- string is a list of character codes.
pub mod Sizes
use linux_pbs.Base.{
  ℕ, zero, suc, ◌+◌, ◌-◌, ◌*◌, ◌/◌, ◌%◌, ◌^◌, Bool, true, false, ◌&&◌, ◌||◌, Option, none, some,
  List, [], ◌∷◌, length, ltb, leb, ◌==◌, if◌then◌else◌,
}

-- std::isspace of the C locale.
abbrev pub is_space : ℕ → Bool
is_space c = (c == 0x20) || (leb 0x09 c && leb c 0x0d)

unfoldable pub remove_spaces : List ℕ → List ℕ
remove_spaces [] = []
remove_spaces (c ∷ cs) = let rest = remove_spaces cs in if is_space c then rest else c ∷ rest

-- The value of a digit.
unfoldable pub hex_digit : ℕ → Option ℕ
hex_digit c =
    if leb 0x30 c && leb c 0x39
    then some (c - 0x30)
    else if leb 0x41 c && leb c 0x46
    then some (c - 0x41 + 10)
    else if leb 0x61 c && leb c 0x66
    then some (c - 0x61 + 10)
    else none

-- After a sign: at least one digit.
unfoldable pub signed_digit : ℕ → Option ℕ → Option ℕ
signed_digit c none = none
signed_digit c (some b) =
    if c == 0x2b then some b else if c == 0x2d then some ((256 - b) % 256) else none

unfoldable pub two_digits : ℕ → Option ℕ → Option ℕ → Option ℕ
unfolding signed_digit
two_digits c (some a) (some b) = some (16 * a + b)
two_digits c (some a) none = some a
two_digits c none b = signed_digit c b

-- std::stoul of two characters that are no spaces, in base 16, as a uint8_t: it stops at the first
-- character that is no digit, and needs one digit.
unfoldable pub hex_byte : ℕ → ℕ → Option ℕ
unfolding hex_digit two_digits
hex_byte c d = two_digits c (hex_digit c) (hex_digit d)

unfoldable pub cons_byte : Option ℕ → Option (List ℕ) → Option (List ℕ)
cons_byte (some b) (some bs) = some (b ∷ bs)
cons_byte _ _ = none

unfoldable pub hex_bytes : List ℕ → Option (List ℕ)
unfolding hex_byte cons_byte
hex_bytes [] = some []
hex_bytes (c ∷ []) = none
hex_bytes (c ∷ d ∷ cs) = cons_byte (hex_byte c d) (hex_bytes cs)

-- Common::FnConvertHexStringToByteArray.
unfoldable pub convert_hex_string_to_byte_array : List ℕ → ℕ → Option (List ℕ)
unfolding remove_spaces hex_bytes
convert_hex_string_to_byte_array input size =
    let hex = remove_spaces input in if length hex == size * 2 then hex_bytes hex else none

unfoldable pub skip_spaces : List ℕ → List ℕ
skip_spaces [] = []
skip_spaces (c ∷ cs) = let rest = skip_spaces cs in if is_space c then rest else c ∷ cs

abbrev pub is_digit : ℕ → Bool
is_digit c = leb 0x30 c && leb c 0x39

-- The digits at the front of a string, added to a value.
unfoldable pub digits : ℕ → List ℕ → ℕ
digits value [] = value
digits value (c ∷ cs) =
    let rest = digits (10 * value + (c - 0x30)) cs in if is_digit c then rest else value

-- Digits, at least one.
unfoldable pub number : List ℕ → Option ℕ
unfolding digits
number [] = none
number (c ∷ cs) = if is_digit c then some (digits 0 (c ∷ cs)) else none

-- A number with its sign: true for minus.
unfoldable pub with_sign : Bool → Option ℕ → Option (Bool × ℕ)
with_sign minus none = none
with_sign minus (some v) = some (minus, v)

unfoldable pub signed_number : List ℕ → Option (Bool × ℕ)
unfolding number with_sign
signed_number [] = none
signed_number (c ∷ cs) =
    if c == 0x2b
    then with_sign false (number cs)
    else if c == 0x2d
    then with_sign true (number cs)
    else with_sign false (number (c ∷ cs))

-- std::stoul with 64 bits, none where it throws: a minus negates modulo 2 ^ 64.
unfoldable pub to_unsigned : Option (Bool × ℕ) → Option ℕ
to_unsigned none = none
to_unsigned (some (minus, v)) =
    if leb (2 ^ 64) v then none else if minus then some ((2 ^ 64 - v) % 2 ^ 64) else some v

unfoldable pub stoul : List ℕ → Option ℕ
unfolding skip_spaces signed_number to_unsigned
stoul s = to_unsigned (signed_number (skip_spaces s))

-- std::stoi, as a uint8_t: none out of the range of an int.
unfoldable pub to_uint8 : Option (Bool × ℕ) → Option ℕ
to_uint8 none = none
to_uint8 (some (false, v)) = if ltb v (2 ^ 31) then some (v % 256) else none
to_uint8 (some (true, v)) = if leb v (2 ^ 31) then some ((256 - v % 256) % 256) else none

unfoldable pub stoi_uint8 : List ℕ → Option ℕ
unfolding skip_spaces signed_number to_uint8
stoi_uint8 s = to_uint8 (signed_number (skip_spaces s))

-- Common::FnDecimalStringToTwoBytes, little-endian. The value is narrowed to an int before the test,
-- and a negative one is refused.
unfoldable pub two_bytes : Option ℕ → Option (List ℕ)
two_bytes none = none
two_bytes (some v) = if ltb 0xffff (v % 2 ^ 32) then none else some (v % 256 ∷ v / 256 % 256 ∷ [])

unfoldable pub decimal_string_to_two_bytes : List ℕ → Option (List ℕ)
unfolding two_bytes stoul
decimal_string_to_two_bytes s = two_bytes (stoul s)
