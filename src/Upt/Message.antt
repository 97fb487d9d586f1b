-- ===== src/Upt/Message.antt =====
-- The classes MessageHeader, PayloadField and Message of upt.cpp, without the parser. The setters
-- are record updates; the host is little-endian, so `htole32` and its kin change nothing.
use linux_pbs.Base.{ℕ, ◌-◌, List, [], ◌∷◌, ◌++◌, length, replicate, ltb, ◌==◌, if◌then◌else◌}
use linux_pbs.Bytes.{u8_bytes, u16_bytes, u32_bytes, u64_bytes}
use linux_pbs.Crc.{crc32}

pub record MessageHeader : Type 0 where
  pub length_field : ℕ  -- uint32
  pub integrity_crc32 : ℕ  -- uint32
  pub msg_version : ℕ  -- uint8
  pub msg_direction : ℕ  -- uint8
  pub msg_time : ℕ  -- uint64
  pub msg_sequence : ℕ  -- uint32
  pub msg_class : ℕ  -- uint16
  pub msg_type : ℕ  -- uint32
  pub msg_code : ℕ  -- uint32
  pub msg_completion : ℕ  -- uint8
  pub msg_notification : ℕ  -- uint8
  pub msg_status : ℕ  -- uint32
  pub device_provider : ℕ  -- uint16
  pub device_type : ℕ  -- uint16
  pub device_number : ℕ  -- uint32
  pub encryption_algorithm : ℕ  -- uint8
  pub encryption_key_index : ℕ  -- uint8
  pub encryption_mac : List ℕ

abbrev pub encryption_mac_size : ℕ
encryption_mac_size = 16

abbrev pub payload_offset : ℕ
payload_offset = 64

-- MessageHeader::MessageHeader.
abbrev pub new_header : MessageHeader
new_header = record {
  length_field = 0;
  integrity_crc32 = 0;
  msg_version = 0;
  msg_direction = 0;
  msg_time = 0;
  msg_sequence = 0;
  msg_class = 0;
  msg_type = 0x10000000;
  msg_code = 0x10000000;
  msg_completion = 0;
  msg_notification = 0;
  msg_status = 0;
  device_provider = 0;
  device_type = 0;
  device_number = 0;
  encryption_algorithm = 0;
  encryption_key_index = 0;
  encryption_mac = replicate encryption_mac_size 0;
}

-- MessageHeader::clear.
abbrev pub cleared_header : MessageHeader
cleared_header = record new_header { msg_type = 0; msg_code = 0; encryption_mac = [] }

-- MessageHeader::setEncryptionMAC: another size is ignored.
abbrev pub set_encryption_mac : List ℕ → MessageHeader → MessageHeader
set_encryption_mac mac h =
    if length mac == encryption_mac_size then record h { encryption_mac = mac } else h

-- The header behind its first two fields; the part that the CRC covers.
abbrev pub checked_header_bytes : MessageHeader → List ℕ
checked_header_bytes h =
    u8_bytes h.msg_version
    ++ (u8_bytes h.msg_direction
        ++ (u64_bytes h.msg_time
            ++ (u32_bytes h.msg_sequence
                ++ (u16_bytes h.msg_class
                    ++ (u32_bytes h.msg_type
                        ++ (u32_bytes h.msg_code
                            ++ (u8_bytes h.msg_completion
                                ++ (u8_bytes h.msg_notification
                                    ++ (u32_bytes h.msg_status
                                        ++ (u16_bytes h.device_provider
                                            ++ (u16_bytes h.device_type
                                                ++ (u32_bytes h.device_number
                                                    ++ (u8_bytes h.encryption_algorithm
                                                        ++ (u8_bytes h.encryption_key_index
                                                            ++ h.encryption_mac))))))))))))))

-- MessageHeader::toByteArray.
unfoldable pub header_bytes : MessageHeader → List ℕ
header_bytes h = u32_bytes h.length_field ++ (u32_bytes h.integrity_crc32 ++ checked_header_bytes h)

pub record PayloadField : Type 0 where
  pub payload_field_length : ℕ  -- uint32
  pub payload_field_id : ℕ  -- uint16
  pub field_reserve : ℕ  -- uint8
  pub field_encoding : ℕ  -- uint8
  pub field_data : List ℕ

-- PayloadField::PayloadField.
abbrev pub new_field : PayloadField
new_field = record {
  payload_field_length = 0;
  payload_field_id = 0;
  field_reserve = 0;
  field_encoding = 0x30;
  field_data = [];
}

abbrev pub field_header_size : ℕ
field_header_size = 8

-- PayloadField::setFieldData: data of another size than the field's length says are ignored.
unfoldable pub set_field_data : List ℕ → PayloadField → PayloadField
set_field_data bytes f =
    if ltb f.payload_field_length field_header_size
    then record f { field_data = [] }
    else if length bytes == f.payload_field_length - field_header_size
    then record f { field_data = bytes }
    else f

-- PayloadField::toByteArray.
unfoldable pub field_bytes : PayloadField → List ℕ
field_bytes f =
    u32_bytes f.payload_field_length
    ++ (u16_bytes f.payload_field_id
        ++ (u8_bytes f.field_reserve ++ (u8_bytes f.field_encoding ++ f.field_data)))

pub record Message : Type 0 where
  pub header : MessageHeader
  pub payloads : List PayloadField

abbrev pub new_message : Message
new_message = record { header = new_header; payloads = [] }

-- Message::clear.
abbrev pub cleared_message : Message
cleared_message = record { header = cleared_header; payloads = [] }

-- Message::getPayloadMsgVector.
unfoldable pub payload_bytes : List PayloadField → List ℕ
payload_bytes [] = []
payload_bytes (f ∷ fs) = field_bytes f ++ payload_bytes fs

-- Message::FnCalculateIntegrityCRC32: its buffer holds the header from the version on, and the
-- payload fields.
unfoldable pub calculate_integrity_crc32 : Message → ℕ
calculate_integrity_crc32 m = crc32 (checked_header_bytes m.header ++ payload_bytes m.payloads)

-- The header vector and the payload vector, one behind the other.
unfoldable pub message_bytes : Message → List ℕ
message_bytes m = header_bytes m.header ++ payload_bytes m.payloads
