-- ===== src/Upt/Parser.antt =====
-- Message::FnParseMsgData of upt.cpp: from the bytes of a frame to a message.
pub mod Fields
pub mod RoundTrip
pub mod Total
pub mod Exact
pub mod ExactFields
pub mod Accepts
use linux_pbs.Base.{
  ℕ, zero, suc, ◌+◌, ◌-◌, ◌%◌, ◌^◌, Bool, ◌&&◌, Option, none, some, List, [], ◌∷◌, ◌++◌, length,
  take, drop, ltb, leb, ◌==◌, if◌then◌else◌,
}
use linux_pbs.Bytes.{
  extract_sub_vector, convert_to_uint8, convert_to_uint16, convert_to_uint32, convert_to_uint64,
}
use linux_pbs.Crc.{crc32}
use linux_pbs.Upt.Status
use linux_pbs.Upt.Transparency.{remove_data_transparency}
use linux_pbs.Upt.Message.{
  MessageHeader, PayloadField, Message, cleared_header, cleared_message, new_field,
  set_encryption_mac, set_field_data, field_header_size, payload_offset,
}

-- The sizes are passed as uint32_t.
unfoldable pub is_valid_header_size : ℕ → Bool
is_valid_header_size size = leb 64 (size % 2 ^ 32) && leb (size % 2 ^ 32) 4294967295

unfoldable pub is_invalid_header_size_less_than_64 : ℕ → Bool
is_invalid_header_size_less_than_64 size = ltb (size % 2 ^ 32) 64

unfoldable pub is_match_header_size : ℕ → ℕ → Bool
is_match_header_size size1 size2 = size1 == size2 % 2 ^ 32

unfoldable pub is_match_crc : ℕ → ℕ → Bool
is_match_crc crc1 crc2 = crc1 == crc2

unfoldable pub u8_at : List ℕ → ℕ → ℕ
u8_at payload offset = convert_to_uint8 (extract_sub_vector payload offset 1) 0

unfoldable pub u16_at : List ℕ → ℕ → ℕ
u16_at payload offset = convert_to_uint16 (extract_sub_vector payload offset 2) 0

unfoldable pub u32_at : List ℕ → ℕ → ℕ
u32_at payload offset = convert_to_uint32 (extract_sub_vector payload offset 4) 0

unfoldable pub u64_at : List ℕ → ℕ → ℕ
u64_at payload offset = convert_to_uint64 (extract_sub_vector payload offset 8) 0

-- The header that the setters fill in, field by field at its offset, over a cleared one.
unfoldable pub parse_header : List ℕ → MessageHeader
unfolding u8_at u16_at u32_at u64_at
parse_header payload =
    set_encryption_mac (extract_sub_vector payload 48 16) (record cleared_header {
      length_field = u32_at payload 0;
      integrity_crc32 = u32_at payload 4;
      msg_version = u8_at payload 8;
      msg_direction = u8_at payload 9;
      msg_time = u64_at payload 10;
      msg_sequence = u32_at payload 18;
      msg_class = u16_at payload 22;
      msg_type = u32_at payload 24;
      msg_code = u32_at payload 28;
      msg_completion = u8_at payload 32;
      msg_notification = u8_at payload 33;
      msg_status = u32_at payload 34;
      device_provider = u16_at payload 38;
      device_type = u16_at payload 40;
      device_number = u32_at payload 42;
      encryption_algorithm = u8_at payload 46;
      encryption_key_index = u8_at payload 47;
    })

-- One payload field from its own bytes.
unfoldable pub parse_field : List ℕ → ℕ → PayloadField
parse_field bytes len =
    set_field_data (extract_sub_vector bytes field_header_size (len - field_header_size))
      (record new_field {
        payload_field_length = len;
        payload_field_id = u16_at bytes 4;
        field_reserve = u8_at bytes 6;
        field_encoding = u8_at bytes 7;
      })

-- The while loop over the payload fields, with fuel; `none` means that the fuel ran out. The fields
-- read before an error stay in the message.
unfoldable pub parse_fields :
    ℕ → List ℕ → ℕ → ℕ → List PayloadField → Option (ℕ × List PayloadField)
parse_fields zero payload len start fields = none
parse_fields (suc fuel) payload len start fields =
    let remaining = len - start in
    let field_length = u32_at payload start in
    let bytes = take field_length (drop start payload) in
    let rest =
      parse_fields fuel payload len (start + field_length)
        (fields ++ parse_field bytes field_length ∷ []) in
    if ltb start len
    then if ltb remaining field_header_size
      then some (Status.field_length_minimum, fields)
      else if ltb field_length field_header_size
      then some (Status.field_length_minimum, fields)
      else if ltb remaining field_length
      then some (Status.field_length_invalid, fields)
      else rest
    else some (Status.success, fields)

-- The fields after a header that matches; the loop goes at least eight bytes a round.
unfoldable pub parse_body : List ℕ → Option (ℕ × Message)
parse_body payload =
    elim (parse_fields (suc (length payload)) payload (u32_at payload 0) payload_offset []) [
      | none ↦ none
      | some (status, fields) ↦
          some (status, record { header = parse_header payload; payloads = fields })
    ]

-- The tests of the de-escaped bytes, from the outside in.
unfoldable pub parse_payload : List ℕ → Option (ℕ × Message)
parse_payload payload =
    if is_valid_header_size (length payload)
    then if is_match_header_size (u32_at payload 0) (length payload)
      then if is_match_crc (crc32 (drop 8 payload)) (u32_at payload 4)
        then parse_body payload
        else some (Status.msg_integrity_failed, cleared_message)
      else some (Status.msg_length_mismatch, cleared_message)
    else if is_invalid_header_size_less_than_64 (length payload)
    then some (Status.msg_length_minimum, cleared_message)
    else some (Status.msg_length_maximum, cleared_message)

-- The status that the call returns, and the message that it leaves.
unfoldable pub parse_msg_data : List ℕ → Option (ℕ × Message)
parse_msg_data msg_data =
    let (status, payload) = remove_data_transparency msg_data in
    if status == Status.success
    then parse_payload payload
    else some (Status.msg_data_transparency_error, cleared_message)
