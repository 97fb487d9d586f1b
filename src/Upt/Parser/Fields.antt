-- ===== src/Upt/Parser/Fields.antt =====
-- The header and the payload fields of a well-formed message are read back as they were written.
use linux_pbs.Base.{
  ℕ, ◌+◌, ◌-◌, ◌^◌, ◌<◌, ◌≡◌, List, ◌++◌, length, take, arith, take-length_append,
  drop-length_append, take_all,
}
use linux_pbs.Bytes.{u32_bytes}
use linux_pbs.Bytes.RoundTrip.{
  extract_sub_vector_lem, uint8_round_trip, uint16_round_trip, uint32_round_trip, uint64_round_trip,
}
use linux_pbs.Upt.Message.{
  MessageHeader, PayloadField, field_header_size, header_bytes, field_bytes, set_field_data,
  encryption_mac_size,
}
use linux_pbs.Upt.Parser.{u8_at, u16_at, u32_at, u64_at, parse_header, parse_field}

-- Every field of the header in the range of its C++ type, and a MAC of 16 bytes.
pub record IsHeader (h : MessageHeader) : Type 0 where
  pub length_range : h.length_field < 2 ^ 32
  pub crc_range : h.integrity_crc32 < 2 ^ 32
  pub version_range : h.msg_version < 256
  pub direction_range : h.msg_direction < 256
  pub time_range : h.msg_time < 2 ^ 64
  pub sequence_range : h.msg_sequence < 2 ^ 32
  pub class_range : h.msg_class < 65536
  pub type_range : h.msg_type < 2 ^ 32
  pub code_range : h.msg_code < 2 ^ 32
  pub completion_range : h.msg_completion < 256
  pub notification_range : h.msg_notification < 256
  pub status_range : h.msg_status < 2 ^ 32
  pub provider_range : h.device_provider < 65536
  pub device_type_range : h.device_type < 65536
  pub device_number_range : h.device_number < 2 ^ 32
  pub algorithm_range : h.encryption_algorithm < 256
  pub key_index_range : h.encryption_key_index < 256
  pub mac_size : length h.encryption_mac ≡ encryption_mac_size

-- A payload field whose length counts its own header and its data.
pub record IsField (f : PayloadField) : Type 0 where
  pub counts : f.payload_field_length ≡ field_header_size + length f.field_data
  pub length_range : f.payload_field_length < 2 ^ 32
  pub id_range : f.payload_field_id < 65536
  pub reserve_range : f.field_reserve < 256
  pub encoding_range : f.field_encoding < 256

pub length-field_bytes :
    (f : PayloadField) → IsField f → length (field_bytes f) ≡ f.payload_field_length
unfolding field_bytes
length-field_bytes f v = omega arith

-- Reading at an offset is reading the start of what stands there.
pub u32_at_prefix :
    (before rest : List ℕ) (v : ℕ)
    → v < 2 ^ 32
    → u32_at (before ++ (u32_bytes v ++ rest)) (length before) ≡ v
unfolding u32_at
u32_at_prefix before rest v h =
    rw
      (
        extract_sub_vector_lem (before ++ (u32_bytes v ++ rest)) (length before) 4,
        drop-length_append before (u32_bytes v ++ rest),
      )
      (uint32_round_trip v h)

pub parse_field-field_bytes :
    (f : PayloadField) → IsField f → parse_field (field_bytes f) f.payload_field_length ≡ f
unfolding parse_field field_bytes set_field_data u8_at u16_at
parse_field-field_bytes f v = ground (
  arith,
  extract_sub_vector_lem (field_bytes f) 4 2,
  extract_sub_vector_lem (field_bytes f) 6 1,
  extract_sub_vector_lem (field_bytes f) 7 1,
  extract_sub_vector_lem (field_bytes f) 8 (f.payload_field_length - 8),
  take_all (f.payload_field_length - 8) f.field_data,
  uint16_round_trip f.payload_field_id,
  uint8_round_trip f.field_reserve,
  uint8_round_trip f.field_encoding,
)

mac_prefix :
    (mac rest : List ℕ)
    → length mac ≡ encryption_mac_size
    → take encryption_mac_size (mac ++ rest) ≡ mac
mac_prefix mac rest e = rw (← e) (take-length_append mac rest)

pub parse_header-header_bytes :
    (h : MessageHeader) (rest : List ℕ) → IsHeader h → parse_header (header_bytes h ++ rest) ≡ h
unfolding parse_header header_bytes u8_at u16_at u32_at u64_at
parse_header-header_bytes h rest v = simp (
  extract_sub_vector_lem,
  mac_prefix h.encryption_mac rest v.mac_size,
  v.mac_size,
  uint32_round_trip h.length_field v.length_range,
  uint32_round_trip h.integrity_crc32 v.crc_range,
  uint8_round_trip h.msg_version v.version_range,
  uint8_round_trip h.msg_direction v.direction_range,
  uint64_round_trip h.msg_time v.time_range,
  uint32_round_trip h.msg_sequence v.sequence_range,
  uint16_round_trip h.msg_class v.class_range,
  uint32_round_trip h.msg_type v.type_range,
  uint32_round_trip h.msg_code v.code_range,
  uint8_round_trip h.msg_completion v.completion_range,
  uint8_round_trip h.msg_notification v.notification_range,
  uint32_round_trip h.msg_status v.status_range,
  uint16_round_trip h.device_provider v.provider_range,
  uint16_round_trip h.device_type v.device_type_range,
  uint32_round_trip h.device_number v.device_number_range,
  uint8_round_trip h.encryption_algorithm v.algorithm_range,
  uint8_round_trip h.encryption_key_index v.key_index_range,
)
