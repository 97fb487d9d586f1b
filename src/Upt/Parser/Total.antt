-- ===== src/Upt/Parser/Total.antt =====
-- The parser's loop ends on every input: the fuel that the model gives it is enough.
use linux_pbs.Base.{
  ℕ, zero, suc, ◌+◌, ◌-◌, ◌≤◌, ◌<◌, ◌≡◌, refl, Bool, true, false, Option, some, List, [], ◌∷◌, ◌++◌,
  if◌then◌else◌, length, take, drop, ltb, ◌==◌, arith,
}
use linux_pbs.Crc.{crc32}
use linux_pbs.Upt.Status
use linux_pbs.Upt.Transparency.{remove_data_transparency}
use linux_pbs.Upt.Message.{PayloadField, payload_offset, field_header_size}
use linux_pbs.Upt.Parser.{
  is_valid_header_size, is_invalid_header_size_less_than_64, is_match_header_size, is_match_crc,
  u32_at, parse_field, parse_fields, parse_header, parse_body, parse_payload, parse_msg_data,
}

abbrev pub Returns : {A : Type 0} → Option A → Type 0
Returns {A} o = (a : A) × (o ≡ some a)

if-Returns :
    {A : Type 0} (b : Bool) (x y : Option A)
    → (b ≡ true → Returns x)
    → (b ≡ false → Returns y)
    → Returns (if b then x else y)
if-Returns true x y p q = p refl
if-Returns false x y p q = q refl

returned : {A : Type 0} (a : A) → Returns (some a)
returned a = (a, refl)

parse_fields-Returns :
    (fuel : ℕ) (payload : List ℕ) (len start : ℕ) (fields : List PayloadField)
    → len - start < fuel
    → Returns (parse_fields fuel payload len start fields)
unfolding parse_fields
parse_fields-Returns zero payload len start fields h = absurd (omega arith)
parse_fields-Returns (suc fuel) payload len start fields h =
    let n = u32_at payload start in
    if-Returns (ltb start len) _ _
      (λ more.
        if-Returns (ltb (len - start) field_header_size) _ _ (λ _. returned _)
          λ _.
            if-Returns (ltb n field_header_size) _ _ (λ _. returned _)
              λ counted.
                if-Returns (ltb (len - start) n) _ _ (λ _. returned _)
                  λ _.
                    parse_fields-Returns fuel payload len (start + n)
                      (fields ++ parse_field (take n (drop start payload)) n ∷ []) (ground arith))
      (λ _. returned _)

parse_body-Returns :
    (payload : List ℕ) → u32_at payload 0 ≤ length payload → Returns (parse_body payload)
unfolding parse_body
parse_body-Returns payload h =
    let (r, e) =
      parse_fields-Returns (suc (length payload)) payload (u32_at payload 0) payload_offset []
        (omega arith) in
    rw (e, parse_body) ((r.0, record { header = parse_header payload; payloads = r.1 }), refl)

parse_payload-Returns : (payload : List ℕ) → Returns (parse_payload payload)
unfolding parse_payload is_match_header_size
parse_payload-Returns payload =
    if-Returns (is_valid_header_size (length payload)) _ _
      (λ _.
        if-Returns (is_match_header_size (u32_at payload 0) (length payload)) _ _
          (λ same.
            if-Returns (is_match_crc (crc32 (drop 8 payload)) (u32_at payload 4)) _ _
              (λ _. parse_body-Returns payload (ground arith)) (λ _. returned _))
          (λ _. returned _))
      (λ _.
        if-Returns (is_invalid_header_size_less_than_64 (length payload)) _ _ (λ _. returned _)
          (λ _. returned _))

-- Parsing returns on every input, with a status and a message: no input makes the loop over the
-- payload fields run on.
pub parse_msg_data-Returns : (msg_data : List ℕ) → Returns (parse_msg_data msg_data)
unfolding parse_msg_data
parse_msg_data-Returns msg_data =
    if-Returns ((remove_data_transparency msg_data).0 == Status.success) _ _
      (λ _. parse_payload-Returns (remove_data_transparency msg_data).1) (λ _. returned _)
