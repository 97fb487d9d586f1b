-- ===== src/Eep/Frame.antt =====
-- Frames of eep_client.cpp: EEPClient::appendMessageHeader, calculateChecksumNoPadding,
-- isValidCheckSum, parseMessage, and MessageHeader::deserialize of eep_client.h.
pub mod RoundTrip
use linux_pbs.Base.{
  ℕ, ◌+◌, ◌-◌, ◌*◌, ◌%◌, ◌^◌, Bool, false, Option, none, some, List, [], ◌∷◌, ◌++◌, length, take,
  drop, ltb, ◌==◌, if◌then◌else◌,
}
use linux_pbs.Bytes.{from_le, u8_bytes, u16_bytes, u32_bytes}

-- The `struct tm` that localtime_r gives, whose fields are not negative, the year after 1900.
pub record Clock : Type 0 where
  pub tm_mday : ℕ
  pub tm_mon : ℕ
  pub tm_year : ℕ
  pub tm_hour : ℕ
  pub tm_min : ℕ
  pub tm_sec : ℕ

-- `eepDestinationId_`, `eepSourceId_`, and `eepCarparkID_`.
pub record Endpoint : Type 0 where
  pub destination_id : ℕ
  pub source_id : ℕ
  pub carpark_id : ℕ

pub record MessageHeader : Type 0 where
  pub destination_id : ℕ
  pub source_id : ℕ
  pub data_type_code : ℕ
  pub rsv : ℕ
  pub day : ℕ
  pub month : ℕ
  pub year : ℕ
  pub rsv1 : ℕ
  pub second : ℕ
  pub minute : ℕ
  pub hour : ℕ
  pub seq_no : ℕ
  pub data_len : ℕ

abbrev pub header_size : ℕ
header_size = 16

unfoldable pub message_header : Endpoint → Clock → ℕ → ℕ → ℕ → List ℕ
message_header e c message_code seq_no len =
    e.destination_id % 256
      ∷ e.source_id % 256
      ∷ message_code
      ∷ 0x00
      ∷ c.tm_mday % 256
      ∷ (c.tm_mon + 1) % 256
      ∷ u16_bytes ((c.tm_year + 1900) % 65536)
    ++ 0x00 ∷ c.tm_sec % 256 ∷ c.tm_min % 256 ∷ c.tm_hour % 256 ∷ u16_bytes seq_no
    ++ u16_bytes len

-- The leftover bytes of a message.
unfoldable pub add_bytes : ℕ → List ℕ → ℕ
add_bytes sum [] = sum
add_bytes sum (b ∷ bs) = add_bytes ((sum + b) % 2 ^ 32) bs

-- The full 4-byte words, then the rest.
unfoldable pub add_words : ℕ → List ℕ → ℕ
unfolding add_bytes
add_words sum (a ∷ b ∷ c ∷ d ∷ rest) =
    add_words ((sum + from_le (a ∷ b ∷ c ∷ d ∷ [])) % 2 ^ 32) rest
add_words sum rest = add_bytes sum rest

unfoldable pub calculate_checksum_no_padding : List ℕ → ℕ
unfolding add_words
calculate_checksum_no_padding bytes = add_words 0 bytes

-- The message without the four bytes of its checksum.
abbrev pub without_check_sum : List ℕ → List ℕ
without_check_sum bytes = take (length bytes - 4) bytes

unfoldable pub is_valid_check_sum : List ℕ → Bool
unfolding calculate_checksum_no_padding
is_valid_check_sum bytes =
    if ltb (length bytes) 4
    then false
    else from_le (drop (length bytes - 4) bytes)
      == calculate_checksum_no_padding (without_check_sum bytes)

unfoldable pub deserialize : List ℕ → Option MessageHeader
deserialize
      (d0 ∷ d1 ∷ d2 ∷ d3 ∷ d4 ∷ d5 ∷ d6 ∷ d7 ∷ d8 ∷ d9 ∷ d10 ∷ d11 ∷ d12 ∷ d13 ∷ d14 ∷ d15 ∷ rest) =
    some (record {
      destination_id = d0;
      source_id = d1;
      data_type_code = d2;
      rsv = d3;
      day = d4;
      month = d5;
      year = d6 + 256 * d7;
      rsv1 = d8;
      second = d9;
      minute = d10;
      hour = d11;
      seq_no = d12 + 256 * d13;
      data_len = d14 + 256 * d15;
    })
deserialize _ = none

unfoldable pub parse_body : Option MessageHeader → List ℕ → Option (MessageHeader × List ℕ)
parse_body none bytes = none
parse_body (some header) bytes =
    if ltb (length bytes) (header_size + header.data_len)
    then none
    else some (header, take header.data_len (drop header_size bytes))

unfoldable pub parse_message : List ℕ → Option (MessageHeader × List ℕ)
unfolding deserialize parse_body
parse_message bytes = parse_body (deserialize bytes) bytes
