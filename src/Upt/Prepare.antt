-- ===== src/Upt/Prepare.antt =====
-- Upt::prepareCmd and Upt::createPayload of upt.cpp: the frame of a command. The wall clock is a
-- parameter, `Clock`.
pub mod Sizes
pub mod RoundTrip
pub mod Unimplemented
use linux_pbs.Base.{
  ℕ, ◌/◌, ◌%◌, Bool, true, false, Option, none, some, List, [], ◌∷◌, ◌++◌, replicate, reverse, ◌==◌,
  if◌then◌else◌,
}
use linux_pbs.Upt.Status
use linux_pbs.Upt.Transparency.{add_data_transparency}
use linux_pbs.Upt.Message.{
  MessageHeader, PayloadField, Message, new_header, new_field, new_message, set_encryption_mac,
  set_field_data, calculate_integrity_crc32, message_bytes,
}
use linux_pbs.Upt.Command.{
  UptCmd, device_status_request, device_reset_request, device_time_sync_request,
  device_logon_request, device_tms_request, device_settlement_request,
  device_reset_sequence_number_request, device_retrieve_last_transaction_status_request,
  device_retrieve_last_settlement_request, card_detect_request, payment_mode_auto_request,
  cancel_command_request, top_up_nets_ncc_by_nets_eft_request, top_up_nets_nfp_by_nets_eft_request,
  HostId, nets, upos, CommandData, no_data, host_request, amount_request, is_reset_sequence_number,
  last_sequence_no, increment_sequence_no,
}

-- FnGetSecondsSince1January0000, FnGetDateInArrayBytes and FnGetTimeInArrayBytes at the call.
pub record Clock : Type 0 where
  pub seconds : ℕ
  pub date : List ℕ
  pub time : List ℕ

-- Upt::createPayload: only VALUE_HEX_LITTLE data are reversed.
unfoldable pub create_payload : ℕ → ℕ → ℕ → ℕ → List ℕ → PayloadField
create_payload len id reserve encoding bytes =
    set_field_data (if encoding == 0x38 then reverse bytes else bytes) (record new_field {
      payload_field_length = len;
      payload_field_id = id;
      field_reserve = reserve;
      field_encoding = encoding;
    })

-- Common::FnConvertUint32ToVector, highest byte first.
abbrev pub convert_uint32_to_vector : ℕ → List ℕ
convert_uint32_to_vector v = v / 16777216 % 256 ∷ v / 65536 % 256 ∷ v / 256 % 256 ∷ v % 256 ∷ []

-- What a case of the switch sets: type, code, payload fields and length.
pub record Request : Type 0 where
  pub msg_type : ℕ
  pub msg_code : ℕ
  pub fields : List PayloadField
  pub total : ℕ

abbrev pub bare : ℕ → ℕ → Option Request
bare msg_type msg_code =
    some (record { msg_type = msg_type; msg_code = msg_code; fields = []; total = 64 })

abbrev pub acquirer_fields : List PayloadField
acquirer_fields =
    create_payload 0x0a 0x5022 0x39 0x38 (0x10 ∷ 0x00 ∷ [])
    ∷ create_payload 0x16 0x0000 0x31 0x33 (replicate 14 0x00)
    ∷ []

-- "NETS", or "UPOS" where the request asks for it. The source casts a void pointer to the data that
-- belongs to the command; data of another kind, for which the cast is undefined, give the default here
-- and in the next two.
abbrev pub host_name : CommandData → List ℕ
host_name (host_request upos) = 0x55 ∷ 0x50 ∷ 0x4f ∷ 0x53 ∷ []
host_name _ = 0x4e ∷ 0x45 ∷ 0x54 ∷ 0x53 ∷ []

abbrev pub amount_bytes : CommandData → List ℕ
amount_bytes (amount_request amount ref) = convert_uint32_to_vector amount
amount_bytes _ = replicate 4 0x00

abbrev pub reference_bytes : CommandData → List ℕ
reference_bytes (amount_request amount ref) = ref
reference_bytes _ = replicate 12 0x00

abbrev pub transaction_fields : List ℕ → CommandData → List PayloadField
transaction_fields payment_type request =
    create_payload 0x0a 0x5000 0x00 0x38 payment_type
    ∷ create_payload 0x0c 0x5001 0x00 0x38 (amount_bytes request)
    ∷ create_payload 0x14 0x500b 0x00 0x31 (reference_bytes request)
    ∷ create_payload 0x09 0x5026 0x00 0x38 (0x01 ∷ [])
    ∷ create_payload 0x0d 0x0000 0x00 0x33 (replicate 5 0x00)
    ∷ []

-- The switch of prepareCmd; `none` for the cases "To be Implement".
unfoldable pub request_of : UptCmd → CommandData → Clock → Option Request
request_of device_status_request d c = bare 0x10000000 0x10000000
request_of device_reset_request d c = bare 0x10000000 0x20000000
request_of device_time_sync_request d c = some (record {
  msg_type = 0x10000000;
  msg_code = 0x30000000;
  fields =
      create_payload 0x10 0x1000 0x31 0x31 c.date
      ∷ create_payload 0x0e 0x1001 0x31 0x31 c.time
      ∷ create_payload 0x22 0x0000 0x31 0x33 (replicate 26 0x00)
      ∷ [];
  total = 128;
})
request_of device_logon_request d c =
    some (record {
      msg_type = 0x10000000;
      msg_code = 0x60000000;
      fields = acquirer_fields;
      total = 96;
    })
request_of device_tms_request d c =
    some (record {
      msg_type = 0x10000000;
      msg_code = 0x60000001;
      fields = acquirer_fields;
      total = 96;
    })
request_of device_settlement_request d c = some (record {
  msg_type = 0x10000000;
  msg_code = 0x70000000;
  fields =
      create_payload 0x0c 0x5023 0x00 0x31 (host_name d)
      ∷ create_payload 0x09 0x5026 0x00 0x38 (0x01 ∷ [])
      ∷ create_payload 0x0b 0x0000 0x31 0x33 (replicate 3 0x00)
      ∷ [];
  total = 96;
})
request_of device_reset_sequence_number_request d c = bare 0x10000000 0x20000001
request_of device_retrieve_last_transaction_status_request d c = some (record {
  msg_type = 0x10000000;
  msg_code = 0x70000002;
  fields =
      create_payload 0x0c 0x5023 0x00 0x31 (host_name d)
      ∷ create_payload 0x14 0x0000 0x31 0x33 (replicate 12 0x00)
      ∷ [];
  total = 96;
})
request_of device_retrieve_last_settlement_request d c = bare 0x10000000 0x70000003
request_of card_detect_request d c = bare 0x30000000 0x10000000
request_of payment_mode_auto_request d c = some (record {
  msg_type = 0x40000000;
  msg_code = 0x10000000;
  fields = transaction_fields (replicate 2 0x00) d;
  total = 128;
})
request_of cancel_command_request d c = bare 0x50000000 0x30000000
request_of top_up_nets_ncc_by_nets_eft_request d c = some (record {
  msg_type = 0x60000000;
  msg_code = 0x10000000;
  fields = transaction_fields (0x80 ∷ 0x00 ∷ []) d;
  total = 128;
})
request_of top_up_nets_nfp_by_nets_eft_request d c = some (record {
  msg_type = 0x60000000;
  msg_code = 0x20000000;
  fields = transaction_fields (0x81 ∷ 0x00 ∷ []) d;
  total = 128;
})
request_of _ d c = none

-- The sequence number after the call, which the message carries.
unfoldable pub next_sequence_no : UptCmd → ℕ → ℕ
next_sequence_no cmd n =
    if is_reset_sequence_number cmd then last_sequence_no else increment_sequence_no n

-- The header fields that every command sets.
abbrev pub common_header : Clock → ℕ → MessageHeader
common_header clock sequence_no =
    set_encryption_mac (reverse (replicate 16 0x00)) (record new_header {
      msg_version = 0x00;
      msg_direction = 0x00;
      msg_time = clock.seconds;
      msg_sequence = sequence_no;
      msg_class = 0x0001;
      msg_completion = 0x01;
      msg_notification = 0x00;
      msg_status = Status.success;
      device_provider = 0x0457;
      device_type = 0x0001;
      device_number = 0x0001b207;
      encryption_algorithm = 0x00;
      encryption_key_index = 0x00;
    })

-- Type, code and payload first; then the CRC of those, and the length.
abbrev pub with_request : Request → Message → Message
with_request r m =
    let filled = record m {
      header = record m.header { msg_type = r.msg_type; msg_code = r.msg_code };
      payloads = r.fields;
    } in
    record filled {
      header = record filled.header {
        integrity_crc32 = calculate_integrity_crc32 filled;
        length_field = r.total;
      };
    }

unfoldable pub prepare_msg : UptCmd → CommandData → Clock → ℕ → Message
prepare_msg cmd d clock sequence_no =
    let m = record new_message {
      header = common_header clock (next_sequence_no cmd sequence_no);
    } in
    elim (request_of cmd d clock) [ none ↦ m | some r ↦ with_request r m ]

-- The new sequence number, and the frame.
unfoldable pub prepare_cmd : UptCmd → CommandData → Clock → ℕ → ℕ × List ℕ
prepare_cmd cmd d clock sequence_no = (
  next_sequence_no cmd sequence_no,
  add_data_transparency (message_bytes (prepare_msg cmd d clock sequence_no)),
)
