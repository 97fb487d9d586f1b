-- ===== src/Eep/Client/Requests.antt =====
-- The FnSend… functions of EEPClient. `get_time` stands for `std::get_time` under
-- Common::FnParseDateTimeString.
use linux_pbs.Base.{ℕ, ◌+◌, ◌%◌, Option, none, some, List, [], ◌∷◌, ◌++◌, take, replicate}
use linux_pbs.Bytes.{u16_bytes}
use linux_pbs.Eep.Priority
use linux_pbs.Eep.CommandType.{CommandType, send_failed}
use linux_pbs.Eep.CommandData.{
  CommandData, null, set_di_port_config_data, set_do_port, deduct_data, deduct_stop_data,
  transaction_req_data, cpo_info_display_data, carpark_process_complete_data,
  dsrc_process_complete_data, stop_req_of_related_info_data, time_calibration_data,
  set_parking_availability_data, restart_inquiry_response_data,
}
use linux_pbs.Eep.Frame.{Clock}
use linux_pbs.Eep.Text.{convert_hex_string_to_byte_array, decimal_string_to_two_bytes, stoi_uint8}
use linux_pbs.Eep.Client.State.{Client, enqueue_command, post_command_failure}

-- The calls, with strings as lists of character codes.
pub data Request : Type 0 where
  health_status watchdog start stop di get_obu_info get_obu_info_stop dsrc_status : Request
  time_calibration cd_download : Request
  set_do : ℕ → ℕ → ℕ → ℕ → ℕ → ℕ → Request
  set_di_port_config : ℕ → ℕ → ℕ → ℕ → ℕ → Request
  deduct : List ℕ → List ℕ → List ℕ → List ℕ → Request
  deduct_stop transaction : List ℕ → ℕ → Request
  cpo_info_display : List ℕ → List ℕ → List ℕ → List ℕ → List ℕ → List ℕ → List ℕ → Request
  carpark_process_complete : List ℕ → List ℕ → List ℕ → Request
  dsrc_process_complete stop_related_info : List ℕ → Request
  set_carpark_availability : List ℕ → List ℕ → Request
  restart_inquiry_response : ℕ → Request

-- A request of normal priority.
abbrev enqueue_normal : CommandType → CommandData → Client → Client
unfolding enqueue_command
enqueue_normal type d m = enqueue_command type Priority.normal d m

-- The request with its data, or the failure where an argument is refused.
unfoldable pub enqueue_or_fail : CommandType → Option CommandData → Client → Client
unfolding enqueue_normal post_command_failure
enqueue_or_fail type none m = post_command_failure type send_failed m
enqueue_or_fail type (some d) m = enqueue_normal type d m

-- FnSendSetDIPortConfigReq.
unfoldable pub di_port_config : ℕ → ℕ → ℕ → ℕ → ℕ → CommandData
di_port_config p1 p2 p3 p4 p5 = set_di_port_config_data (record {
  period_debounce_di1 = u16_bytes p1;
  period_debounce_di2 = u16_bytes p2;
  period_debounce_di3 = u16_bytes p3;
  period_debounce_di4 = u16_bytes p4;
  period_debounce_di5 = u16_bytes p5;
  rsv = replicate 2 0x00;
})

-- FnSendDORequest's data.
unfoldable pub do_port : ℕ → ℕ → ℕ → ℕ → ℕ → ℕ → CommandData
do_port d1 d2 d3 d4 d5 d6 =
    set_do_port (record {
      do1 = d1;
      do2 = d2;
      do3 = d3;
      do4 = d4;
      do5 = d5;
      do6 = d6;
      rsv = replicate 2 0x00;
    })

abbrev year_of : Clock → List ℕ
year_of t = u16_bytes ((t.tm_year + 1900) % 65536)

-- FnSendDeductReq, with the arguments parsed and the serial number allocated.
unfoldable pub deduct_of :
    ℕ → Option (List ℕ) → Option (List ℕ) → Option Clock → Option Clock → Option CommandData
deduct_of serial_no (some label) (some fee) (some entry) (some leaving) = some (
    deduct_data (record {
      serial_num = u16_bytes serial_no;
      rsv = replicate 10 0x00;
      obu_label = label;
      rsv1 = replicate 3 0x00;
      charge_amt = fee;
      rsv2 = replicate 2 0x00;
      parking_start_day = entry.tm_mday % 256;
      parking_start_month = (entry.tm_mon + 1) % 256;
      parking_start_year = year_of entry;
      rsv3 = 0x00;
      parking_start_second = entry.tm_sec % 256;
      parking_start_minute = entry.tm_min % 256;
      parking_start_hour = entry.tm_hour % 256;
      parking_end_day = leaving.tm_mday % 256;
      parking_end_month = (leaving.tm_mon + 1) % 256;
      parking_end_year = year_of leaving;
      rsv4 = 0x00;
      parking_end_second = leaving.tm_sec % 256;
      parking_end_minute = leaving.tm_min % 256;
      parking_end_hour = leaving.tm_hour % 256;
    }))
deduct_of serial_no _ _ _ _ = none

-- allocateDeductCmdSerialNo: only a deduction takes a number.
unfoldable pub send_deduct : Option CommandData → Client → Client
unfolding enqueue_normal post_command_failure
send_deduct none m = post_command_failure CommandType.deduct_req_cmd send_failed m
send_deduct (some d) m =
    enqueue_normal CommandType.deduct_req_cmd d
      (record m { deduct_cmd_serial_no = (m.deduct_cmd_serial_no + 1) % 65536 })

unfoldable pub deduct_stop_of : ℕ → Option (List ℕ) → Option CommandData
deduct_stop_of serial_no none = none
deduct_stop_of serial_no (some label) = some (
    deduct_stop_data (record {
      serial_num = u16_bytes serial_no;
      rsv = replicate 10 0x00;
      obu_label = label;
      rsv1 = replicate 3 0x00;
    }))

unfoldable pub transaction_of : ℕ → Option (List ℕ) → Option CommandData
transaction_of serial_no none = none
transaction_of serial_no (some label) = some (
    transaction_req_data (record {
      serial_num = u16_bytes serial_no;
      rsv = replicate 10 0x00;
      obu_label = label;
      rsv1 = replicate 3 0x00;
    }))

-- A line of the display: cut to 21 characters, and filled up with spaces.
unfoldable pub display_line : ℕ → List ℕ → List ℕ
display_line width line = take width (line ++ replicate width 0x20)

unfoldable pub display_of :
    Option (List ℕ) → Option ℕ → List ℕ → List ℕ → List ℕ → List ℕ → List ℕ → Option CommandData
unfolding display_line
display_of (some label) (some data_type) line1 line2 line3 line4 line5 = some (
    cpo_info_display_data (record {
      rsv = replicate 8 0x00;
      obu_label = label;
      rsv1 = replicate 3 0x00;
      data_type = data_type;
      rsv2 = replicate 3 0x00;
      timeout = 0xd0 ∷ 0x07 ∷ 0x00 ∷ 0x00 ∷ [];
      data_len_of_stored_data = replicate 4 0x00;
      data_string1 = display_line 21 line1;
      data_string2 = display_line 21 line2;
      data_string3 = display_line 21 line3;
      data_string4 = display_line 21 line4;
      data_string5 = display_line 21 line5;
      stored_data = [];
    }))
display_of _ _ _ _ _ _ _ = none

unfoldable pub carpark_of : Option (List ℕ) → Option ℕ → Option (List ℕ) → Option CommandData
carpark_of (some label) (some outcome) (some fee) = some (
    carpark_process_complete_data (record {
      rsv = replicate 8 0x00;
      obu_label = label;
      rsv1 = replicate 3 0x00;
      processing_result = outcome;
      rsv2 = 0x00;
      amt = fee;
    }))
carpark_of _ _ _ = none

unfoldable pub dsrc_of : Option (List ℕ) → Option CommandData
dsrc_of none = none
dsrc_of (some label) = some (
    dsrc_process_complete_data
      (record { rsv = replicate 8 0x00; obu_label = label; rsv1 = replicate 3 0x00 }))

unfoldable pub stop_related_of : Option (List ℕ) → Option CommandData
stop_related_of none = none
stop_related_of (some label) = some (
    stop_req_of_related_info_data
      (record { rsv = replicate 8 0x00; obu_label = label; rsv1 = replicate 3 0x00 }))

unfoldable pub calibration_of : Clock → CommandData
calibration_of now = time_calibration_data (record {
  day = now.tm_mday % 256;
  month = (now.tm_mon + 1) % 256;
  year = year_of now;
  rsv = 0x00;
  second = now.tm_sec % 256;
  minute = now.tm_min % 256;
  hour = now.tm_hour % 256;
})

unfoldable pub availability_of : Option (List ℕ) → Option (List ℕ) → Option CommandData
availability_of (some available) (some total) = some (
    set_parking_availability_data
      (record { available_lots = available; total_lots = total; rsv = replicate 12 0x00 }))
availability_of _ _ = none

abbrev obu_label_of : List ℕ → Option (List ℕ)
unfolding convert_hex_string_to_byte_array
obu_label_of s = convert_hex_string_to_byte_array s 5

-- The FnSend… functions.
unfoldable pub send_request : (List ℕ → Option Clock) → Request → Client → Client
unfolding enqueue_command enqueue_or_fail di_port_config do_port deduct_of send_deduct
    deduct_stop_of transaction_of display_of carpark_of dsrc_of stop_related_of calibration_of
    availability_of convert_hex_string_to_byte_array decimal_string_to_two_bytes stoi_uint8
send_request get_time health_status m =
    enqueue_command CommandType.health_status_req_cmd Priority.health_status null m
send_request get_time watchdog m =
    enqueue_command CommandType.watchdog_req_cmd Priority.watchdog null m
send_request get_time start m = enqueue_command CommandType.start_req_cmd Priority.start null m
send_request get_time stop m = enqueue_normal CommandType.stop_req_cmd null m
send_request get_time di m = enqueue_normal CommandType.di_req_cmd null m
send_request get_time get_obu_info m = enqueue_normal CommandType.get_obu_info_req_cmd null m
send_request get_time get_obu_info_stop m =
    enqueue_normal CommandType.get_obu_info_stop_req_cmd null m
send_request get_time dsrc_status m = enqueue_normal CommandType.dsrc_status_req_cmd null m
send_request get_time time_calibration m =
    enqueue_normal CommandType.time_calibration_req_cmd (calibration_of m.clock) m
send_request get_time cd_download m = enqueue_normal CommandType.cd_download_req_cmd null m
send_request get_time (set_do d1 d2 d3 d4 d5 d6) m =
    enqueue_normal CommandType.do_req_cmd (do_port d1 d2 d3 d4 d5 d6) m
send_request get_time (set_di_port_config p1 p2 p3 p4 p5) m =
    enqueue_normal CommandType.set_di_port_config_cmd (di_port_config p1 p2 p3 p4 p5) m
send_request get_time (deduct label fee entry leaving) m =
    send_deduct
      (deduct_of m.deduct_cmd_serial_no (obu_label_of label) (decimal_string_to_two_bytes fee)
        (get_time entry) (get_time leaving))
      m
send_request get_time (deduct_stop label serial_no) m =
    enqueue_or_fail CommandType.deduct_stop_req_cmd (deduct_stop_of serial_no (obu_label_of label))
      m
send_request get_time (transaction label serial_no) m =
    enqueue_or_fail CommandType.transaction_req_cmd (transaction_of serial_no (obu_label_of label))
      m
send_request get_time (cpo_info_display label data_type line1 line2 line3 line4 line5) m =
    enqueue_or_fail CommandType.cpo_info_display_req_cmd
      (display_of (obu_label_of label) (stoi_uint8 data_type) line1 line2 line3 line4 line5) m
send_request get_time (carpark_process_complete label outcome fee) m =
    enqueue_or_fail CommandType.carpark_process_complete_notification_req_cmd
      (carpark_of (obu_label_of label) (stoi_uint8 outcome) (decimal_string_to_two_bytes fee)) m
send_request get_time (dsrc_process_complete label) m =
    enqueue_or_fail CommandType.dsrc_process_complete_notification_req_cmd
      (dsrc_of (obu_label_of label)) m
send_request get_time (stop_related_info label) m =
    enqueue_or_fail CommandType.stop_req_of_related_info_distribution_cmd
      (stop_related_of (obu_label_of label)) m
send_request get_time (set_carpark_availability available total) m =
    enqueue_or_fail CommandType.set_carpark_avail_req_cmd
      (availability_of (decimal_string_to_two_bytes available) (decimal_string_to_two_bytes total))
      m
send_request get_time (restart_inquiry_response outcome) m =
    enqueue_normal CommandType.eep_restart_inquiry_req_cmd
      (restart_inquiry_response_data (record { response = outcome; rsv = replicate 3 0x00 })) m
