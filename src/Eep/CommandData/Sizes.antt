-- ===== src/Eep/CommandData/Sizes.antt =====
-- The data that belongs to a command, its arrays as long as eep_client.h declares them.
pub mod Lengths
use linux_pbs.Base.{ℕ, ◌<◌, ◌≡◌, List, length}
use linux_pbs.Eep.CommandType
use linux_pbs.Eep.CommandType.{CommandType}
use linux_pbs.Eep.CommandData.{
  AckData, NakData, SetDiPortConfigData, SetDoPort, DeductData, DeductStopData, TransactionReqData,
  CpoInfoDisplayData, CarparkProcessCompleteData, DsrcProcessCompleteData, StopReqOfRelatedInfoData,
  TimeCalibrationData, SetParkingAvailabilityData, RestartInquiryResponseData, CommandData, null,
  ack_data, nak_data, set_di_port_config_data, set_do_port, deduct_data, deduct_stop_data,
  transaction_req_data, cpo_info_display_data, carpark_process_complete_data,
  dsrc_process_complete_data, stop_req_of_related_info_data, time_calibration_data,
  set_parking_availability_data, restart_inquiry_response_data,
}

-- `uint8_t a[n]`.
abbrev pub Sized : ℕ → List ℕ → Type 0
Sized n a = length a ≡ n

-- The reserved bytes, the OBU label and the reserved bytes that many requests begin with.
abbrev pub LabelSized : ℕ → List ℕ → List ℕ → List ℕ → Type 0
LabelSized n rsv obu_label rsv1 = Sized n rsv × Sized 5 obu_label × Sized 3 rsv1

abbrev pub DeductSized : DeductData → Type 0
DeductSized d =
    Sized 2 d.serial_num
    × LabelSized 10 d.rsv d.obu_label d.rsv1
    × Sized 2 d.charge_amt
    × Sized 2 d.rsv2
    × Sized 2 d.parking_start_year
    × Sized 2 d.parking_end_year

abbrev pub LinesSized : CpoInfoDisplayData → Type 0
LinesSized d =
    Sized 21 d.data_string1
    × Sized 21 d.data_string2
    × Sized 21 d.data_string3
    × Sized 21 d.data_string4
    × Sized 21 d.data_string5

abbrev pub DisplaySized : CpoInfoDisplayData → Type 0
DisplaySized d =
    LabelSized 8 d.rsv d.obu_label d.rsv1
    × Sized 3 d.rsv2
    × Sized 4 d.timeout
    × Sized 4 d.data_len_of_stored_data
    × LinesSized d
    × Sized 0 d.stored_data

abbrev pub PortsSized : SetDiPortConfigData → Type 0
PortsSized d =
    Sized 2 d.period_debounce_di1
    × Sized 2 d.period_debounce_di2
    × Sized 2 d.period_debounce_di3
    × Sized 2 d.period_debounce_di4
    × Sized 2 d.period_debounce_di5
    × Sized 2 d.rsv

-- The data that a command carries: none, or the struct that belongs to it, its arrays sized and its
-- sequence number a uint16_t. `stored_data` is empty.
pub data Fits : CommandType → CommandData → Type 0 where
  no_data : (type : CommandType) → Fits type null
  fits_ack : (d : AckData) → d.seq_no < 65536 → Sized 3 d.rsv → Fits CommandType.ack (ack_data d)
  fits_nak : (d : NakData) → d.seq_no < 65536 → Sized 2 d.rsv → Fits CommandType.nak (nak_data d)
  fits_di :
      (d : SetDiPortConfigData)
      → PortsSized d
      → Fits CommandType.set_di_port_config_cmd (set_di_port_config_data d)
  fits_do : (d : SetDoPort) → Sized 2 d.rsv → Fits CommandType.do_req_cmd (set_do_port d)
  fits_deduct : (d : DeductData) → DeductSized d → Fits CommandType.deduct_req_cmd (deduct_data d)
  fits_deduct_stop :
      (d : DeductStopData)
      → Sized 2 d.serial_num
      → LabelSized 10 d.rsv d.obu_label d.rsv1
      → Fits CommandType.deduct_stop_req_cmd (deduct_stop_data d)
  fits_transaction :
      (d : TransactionReqData)
      → Sized 2 d.serial_num
      → LabelSized 10 d.rsv d.obu_label d.rsv1
      → Fits CommandType.transaction_req_cmd (transaction_req_data d)
  fits_display :
      (d : CpoInfoDisplayData)
      → DisplaySized d
      → Fits CommandType.cpo_info_display_req_cmd (cpo_info_display_data d)
  fits_carpark :
      (d : CarparkProcessCompleteData)
      → LabelSized 8 d.rsv d.obu_label d.rsv1
      → Sized 2 d.amt
      → Fits CommandType.carpark_process_complete_notification_req_cmd
          (carpark_process_complete_data d)
  fits_dsrc :
      (d : DsrcProcessCompleteData)
      → LabelSized 8 d.rsv d.obu_label d.rsv1
      → Fits CommandType.dsrc_process_complete_notification_req_cmd (dsrc_process_complete_data d)
  fits_stop :
      (d : StopReqOfRelatedInfoData)
      → LabelSized 8 d.rsv d.obu_label d.rsv1
      → Fits CommandType.stop_req_of_related_info_distribution_cmd (stop_req_of_related_info_data d)
  fits_time :
      (d : TimeCalibrationData)
      → Sized 2 d.year
      → Fits CommandType.time_calibration_req_cmd (time_calibration_data d)
  fits_lots :
      (d : SetParkingAvailabilityData)
      → Sized 2 d.available_lots
      → Sized 2 d.total_lots
      → Sized 12 d.rsv
      → Fits CommandType.set_carpark_avail_req_cmd (set_parking_availability_data d)
  fits_restart :
      (d : RestartInquiryResponseData)
      → Sized 3 d.rsv
      → Fits CommandType.eep_restart_inquiry_req_cmd (restart_inquiry_response_data d)
