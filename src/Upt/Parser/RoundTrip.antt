-- ===== src/Upt/Parser/RoundTrip.antt =====
-- A message that is well formed is parsed back from its frame as it was, fields and all.
use linux_pbs.Base.{
  ℕ, zero, suc, ◌+◌, ◌-◌, ◌<◌, ◌≡◌, refl, sym, ap, ◌∙◌, some, List, [], ◌∷◌, ◌++◌, All, length,
  take, drop, arith, length-append, append_assoc, append-nil, take-length_append,
  drop-length_append, le→ltb, lt→ltb,
}
use linux_pbs.Bytes.{u32_bytes}
use linux_pbs.Upt.Status
use linux_pbs.Upt.Transparency.{add_data_transparency}
use linux_pbs.Upt.Transparency.RoundTrip.{remove-add_data_transparency}
use linux_pbs.Upt.Message.{
  MessageHeader, PayloadField, Message, field_header_size, checked_header_bytes, header_bytes,
  field_bytes, payload_bytes, message_bytes, calculate_integrity_crc32, payload_offset,
}
use linux_pbs.Upt.Parser.{
  is_valid_header_size, is_match_header_size, is_match_crc, u32_at, parse_header, parse_fields,
  parse_body, parse_payload, parse_msg_data,
}
use linux_pbs.Upt.Parser.Fields.{
  IsHeader, IsField, u32_at_prefix, length-field_bytes, parse_field-field_bytes,
  parse_header-header_bytes,
}

-- The length at the head of a field, with more behind it.
field_length_at :
    (before rest : List ℕ) (f : PayloadField)
    → IsField f
    → u32_at (before ++ (field_bytes f ++ rest)) (length before) ≡ f.payload_field_length
unfolding field_bytes
field_length_at before rest f v =
    u32_at_prefix before (drop 4 (field_bytes f) ++ rest) f.payload_field_length v.length_range

field_at :
    (before rest : List ℕ) (f : PayloadField)
    → IsField f
    → take f.payload_field_length (drop (length before) (before ++ (field_bytes f ++ rest)))
      ≡ field_bytes f
field_at before rest f v =
    ap (take f.payload_field_length) (drop-length_append before (field_bytes f ++ rest))
    ∙ ap (λ (n : ℕ). take n (field_bytes f ++ rest)) (sym (length-field_bytes f v))
    ∙ take-length_append (field_bytes f) rest

-- The loop reads the fields that are left, behind those that it has.
parse_fields-payload_bytes :
    (fs : List PayloadField) (fuel : ℕ) (before : List ℕ) (fields : List PayloadField)
    → All IsField fs
    → length (payload_bytes fs) < fuel
    → parse_fields fuel
        (before ++ payload_bytes fs)
        (length before + length (payload_bytes fs))
        (length before)
        fields
      ≡ some (Status.success, fields ++ fs)
unfolding parse_fields payload_bytes
parse_fields-payload_bytes fs zero before fields v h = absurd (omega arith)
parse_fields-payload_bytes [] (suc fuel) before fields v h =
    rw (le→ltb (length before) (length before + 0) (omega arith), append-nil fields)
parse_fields-payload_bytes (f ∷ fs) (suc fuel) before fields v h =
    let sizes = length-append (field_bytes f) (payload_bytes fs) in
    let size = length-field_bytes f v.0 in
    let counts = v.0.counts in
    let next_start : length (before ++ field_bytes f) ≡ length before + f.payload_field_length =
      omega (arith, length-append before (field_bytes f)) in
    let same_end : length (before ++ field_bytes f) + length (payload_bytes fs)
        ≡ length before + length (field_bytes f ++ payload_bytes fs) =
      omega (arith, length-append before (field_bytes f)) in
    rw
      (
        field_length_at before (payload_bytes fs) f v.0,
        field_at before (payload_bytes fs) f v.0,
        parse_field-field_bytes f v.0,
        lt→ltb (length before) (length before + length (field_bytes f ++ payload_bytes fs))
            (omega arith),
        le→ltb (length before + length (field_bytes f ++ payload_bytes fs) - length before)
            field_header_size (omega arith),
        le→ltb f.payload_field_length field_header_size (omega arith),
        le→ltb (length before + length (field_bytes f ++ payload_bytes fs) - length before)
            f.payload_field_length (omega arith),
      )
      (cc (
        parse_fields-payload_bytes fs fuel (before ++ field_bytes f) (fields ++ f ∷ []) v.1
            (omega arith),
        append_assoc before (field_bytes f) (payload_bytes fs),
        next_start,
        same_end,
        append_assoc fields (f ∷ []) fs,
      ))

-- The fields of a message, and of its header, as the protocol wants them.
pub record IsMessage (m : Message) : Type 0 where
  pub header_ok : IsHeader m.header
  pub fields_ok : All IsField m.payloads
  pub length_ok : m.header.length_field ≡ length (message_bytes m)
  pub crc_ok : m.header.integrity_crc32 ≡ calculate_integrity_crc32 m

length-header_bytes : (h : MessageHeader) → IsHeader h → length (header_bytes h) ≡ payload_offset
unfolding header_bytes
length-header_bytes h v = omega (arith, v.mac_size)

length_at : (m : Message) → IsMessage m → u32_at (message_bytes m) 0 ≡ m.header.length_field
unfolding message_bytes header_bytes
length_at m v = u32_at_prefix [] _ m.header.length_field v.header_ok.length_range

crc_at : (m : Message) → IsMessage m → u32_at (message_bytes m) 4 ≡ m.header.integrity_crc32
unfolding message_bytes header_bytes
crc_at m v =
    u32_at_prefix (u32_bytes m.header.length_field) _ m.header.integrity_crc32 v.header_ok.crc_range

checked_part :
    (m : Message)
    → drop 8 (message_bytes m) ≡ checked_header_bytes m.header ++ payload_bytes m.payloads
unfolding message_bytes header_bytes
checked_part m = refl

fields_at :
    (m : Message)
    → IsMessage m
    → parse_fields
        (suc (length (message_bytes m)))
        (message_bytes m)
        (u32_at (message_bytes m) 0)
        payload_offset
        []
      ≡ some (Status.success, m.payloads)
unfolding message_bytes
fields_at m v =
    let start = length-header_bytes m.header v.header_ok in
    let size = length-append (header_bytes m.header) (payload_bytes m.payloads) in
    cc (
      parse_fields-payload_bytes m.payloads (suc (length (message_bytes m))) (header_bytes m.header)
          [] v.fields_ok (omega (arith, size)),
      length_at m v ∙ v.length_ok ∙ size,
      start,
    )

length-message_bytes :
    (m : Message) → IsMessage m → length (message_bytes m) ≡ 64 + length (payload_bytes m.payloads)
unfolding message_bytes
length-message_bytes m v = omega (
  arith,
  length-header_bytes m.header v.header_ok,
  length-append (header_bytes m.header) (payload_bytes m.payloads),
)

header_at : (m : Message) → IsMessage m → parse_header (message_bytes m) ≡ m.header
unfolding message_bytes
header_at m v = parse_header-header_bytes m.header (payload_bytes m.payloads) v.header_ok

parse_body-message_bytes :
    (m : Message) → IsMessage m → parse_body (message_bytes m) ≡ some (Status.success, m)
unfolding parse_body
parse_body-message_bytes m v =
    rw (fields_at m v, parse_body)
      (ap
        (λ (h : MessageHeader). some (Status.success, record { header = h; payloads = m.payloads }))
        (header_at m v))

parse_payload-message_bytes :
    (m : Message) → IsMessage m → parse_payload (message_bytes m) ≡ some (Status.success, m)
unfolding parse_payload is_valid_header_size is_match_header_size is_match_crc
    calculate_integrity_crc32
parse_payload-message_bytes m v = ground (
  arith,
  length-message_bytes m v,
  v.length_ok,
  v.crc_ok,
  v.header_ok.length_range,
  length_at m v,
  crc_at m v,
  checked_part m,
  parse_body-message_bytes m v,
)

-- Parsing the frame of a well-formed message returns SUCCESS and the same message, with every
-- header field and every payload field.
pub parse_msg_data-add_data_transparency :
    (m : Message)
    → IsMessage m
    → parse_msg_data (add_data_transparency (message_bytes m)) ≡ some (Status.success, m)
unfolding parse_msg_data
parse_msg_data-add_data_transparency m v =
    rw (remove-add_data_transparency (message_bytes m)) (parse_payload-message_bytes m v)
