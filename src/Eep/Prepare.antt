-- ===== src/Eep/Prepare.antt =====
-- EEPClient::prepareCmd of eep_client.cpp.
pub mod RoundTrip
use linux_pbs.Base.{ℕ, ◌%◌, Option, none, some, List, [], ◌∷◌, ◌++◌, ◌==◌, if◌then◌else◌}
use linux_pbs.Bytes.{u16_bytes, u32_bytes}
use linux_pbs.Eep.MessageCode
use linux_pbs.Eep.CommandType.{CommandType}
use linux_pbs.Eep.CommandData.{
  CommandData, null, ack_data, nak_data, set_di_port_config_data, set_do_port, deduct_data,
  deduct_stop_data, transaction_req_data, cpo_info_display_data, carpark_process_complete_data,
  dsrc_process_complete_data, stop_req_of_related_info_data, time_calibration_data,
  set_parking_availability_data, restart_inquiry_response_data, serialize_ack, serialize_nak,
  serialize_set_di_port_config, serialize_set_do_port, serialize_deduct, serialize_deduct_stop,
  serialize_transaction_req, serialize_cpo_info_display, serialize_carpark_process_complete,
  serialize_dsrc_process_complete, serialize_stop_req_of_related_info, serialize_time_calibration,
  serialize_set_parking_availability, serialize_restart_inquiry_response,
}
use linux_pbs.Eep.Frame.{Clock, Endpoint, message_header, calculate_checksum_no_padding}

-- `cmd.data->serialize()`, which null has not.
unfoldable pub serialize : CommandData → Option (List ℕ)
serialize null = none
serialize (ack_data d) = some (serialize_ack d)
serialize (nak_data d) = some (serialize_nak d)
serialize (set_di_port_config_data d) = some (serialize_set_di_port_config d)
serialize (set_do_port d) = some (serialize_set_do_port d)
serialize (deduct_data d) = some (serialize_deduct d)
serialize (deduct_stop_data d) = some (serialize_deduct_stop d)
serialize (transaction_req_data d) = some (serialize_transaction_req d)
serialize (cpo_info_display_data d) = some (serialize_cpo_info_display d)
serialize (carpark_process_complete_data d) = some (serialize_carpark_process_complete d)
serialize (dsrc_process_complete_data d) = some (serialize_dsrc_process_complete d)
serialize (stop_req_of_related_info_data d) = some (serialize_stop_req_of_related_info d)
serialize (time_calibration_data d) = some (serialize_time_calibration d)
serialize (set_parking_availability_data d) = some (serialize_set_parking_availability d)
serialize (restart_inquiry_response_data d) = some (serialize_restart_inquiry_response d)

-- What a case of the switch gives to appendMessageHeader, and the message content.
pub record Content : Type 0 where
  pub code : ℕ
  pub seq_no : ℕ
  pub data_len : ℕ
  pub payload : List ℕ

abbrev bare : ℕ → ℕ → Option Content
bare code seq_no = some (record { code = code; seq_no = seq_no; data_len = 0; payload = [] })

unfoldable pub with_payload : ℕ → ℕ → ℕ → Option (List ℕ) → Option Content
with_payload code seq_no len none = none
with_payload code seq_no len (some payload) =
    some (record { code = code; seq_no = seq_no; data_len = len; payload = payload })

-- ACK and NAK take the sequence number of their data.
unfoldable pub ack_content : CommandData → Option Content
ack_content (ack_data d) = some (record {
  code = MessageCode.ack;
  seq_no = d.seq_no;
  data_len = 0x04;
  payload = serialize_ack d;
})
ack_content _ = none

unfoldable pub nak_content : CommandData → Option Content
nak_content (nak_data d) = some (record {
  code = MessageCode.nak;
  seq_no = d.seq_no;
  data_len = 0x04;
  payload = serialize_nak d;
})
nak_content _ = none

unfoldable pub watchdog_content : ℕ → ℕ → Option Content
watchdog_content carpark_id seq_no =
    if carpark_id == 0
    then none
    else some (record {
      code = MessageCode.watchdog_request;
      seq_no = seq_no;
      data_len = 0x04;
      payload = u16_bytes (carpark_id % 65536) ++ 0x00 ∷ 0x00 ∷ [];
    })

unfoldable pub content_of : CommandType → CommandData → ℕ → ℕ → Option Content
unfolding serialize with_payload ack_content nak_content watchdog_content
content_of CommandType.ack d carpark_id seq_no = ack_content d
content_of CommandType.nak d carpark_id seq_no = nak_content d
content_of CommandType.health_status_req_cmd d carpark_id seq_no =
    bare MessageCode.health_status_request seq_no
content_of CommandType.watchdog_req_cmd d carpark_id seq_no = watchdog_content carpark_id seq_no
content_of CommandType.start_req_cmd d carpark_id seq_no = bare MessageCode.start_request seq_no
content_of CommandType.stop_req_cmd d carpark_id seq_no = bare MessageCode.stop_request seq_no
content_of CommandType.di_req_cmd d carpark_id seq_no = bare MessageCode.di_status_request seq_no
content_of CommandType.do_req_cmd d carpark_id seq_no =
    with_payload MessageCode.set_do_request seq_no 0x08 (serialize d)
content_of CommandType.set_di_port_config_cmd d carpark_id seq_no =
    with_payload MessageCode.set_di_port_configuration seq_no 0x0c (serialize d)
content_of CommandType.get_obu_info_req_cmd d carpark_id seq_no =
    bare MessageCode.get_obu_information_request seq_no
content_of CommandType.get_obu_info_stop_req_cmd d carpark_id seq_no =
    bare MessageCode.get_obu_information_stop seq_no
content_of CommandType.deduct_req_cmd d carpark_id seq_no =
    with_payload MessageCode.deduct_request seq_no 0x28 (serialize d)
content_of CommandType.deduct_stop_req_cmd d carpark_id seq_no =
    with_payload MessageCode.deduct_stop_request seq_no 0x14 (serialize d)
content_of CommandType.transaction_req_cmd d carpark_id seq_no =
    with_payload MessageCode.transaction_request seq_no 0x14 (serialize d)
content_of CommandType.cpo_info_display_req_cmd d carpark_id seq_no =
    with_payload MessageCode.cpo_information_display_request seq_no 0x85 (serialize d)
content_of CommandType.carpark_process_complete_notification_req_cmd d carpark_id seq_no =
    with_payload MessageCode.carpark_process_complete_notification seq_no 0x14 (serialize d)
content_of CommandType.dsrc_process_complete_notification_req_cmd d carpark_id seq_no =
    with_payload MessageCode.dsrc_process_complete_notification seq_no 0x10 (serialize d)
content_of CommandType.stop_req_of_related_info_distribution_cmd d carpark_id seq_no =
    with_payload MessageCode.stop_request_of_related_information_distribution seq_no 0x10
      (serialize d)
content_of CommandType.dsrc_status_req_cmd d carpark_id seq_no =
    bare MessageCode.dsrc_status_request seq_no
content_of CommandType.time_calibration_req_cmd d carpark_id seq_no =
    with_payload MessageCode.time_calibration_request seq_no 0x08 (serialize d)
content_of CommandType.set_carpark_avail_req_cmd d carpark_id seq_no =
    with_payload MessageCode.set_parking_available seq_no 0x10 (serialize d)
content_of CommandType.cd_download_req_cmd d carpark_id seq_no =
    bare MessageCode.cd_download_request seq_no
content_of CommandType.eep_restart_inquiry_req_cmd d carpark_id seq_no =
    with_payload MessageCode.eep_restart_inquiry_response seq_no 0x04 (serialize d)
content_of _ d carpark_id seq_no = none

abbrev pub message : Endpoint → Clock → Content → List ℕ
unfolding message_header
message e clock c = message_header e clock c.code c.seq_no c.data_len ++ c.payload

-- The check code is appended to the message.
unfoldable pub frame_of : Endpoint → Clock → Content → List ℕ
unfolding message_header calculate_checksum_no_padding
frame_of e clock c =
    message e clock c ++ u32_bytes (calculate_checksum_no_padding (message e clock c))

unfoldable pub finish : Endpoint → Clock → Option Content → Option (List ℕ)
unfolding frame_of
finish e clock none = none
finish e clock (some c) = some (frame_of e clock c)

-- The frame that prepareCmd returns, none where it fails.
unfoldable pub prepare_cmd : Endpoint → Clock → CommandType → CommandData → ℕ → Option (List ℕ)
unfolding content_of finish
prepare_cmd e clock type d seq_no = finish e clock (content_of type d e.carpark_id seq_no)
