-- ===== src/Eep/CommandData.antt =====
-- EEPClient::CommandDataBase and the structs derived from it in eep_client.h, with `serialize`. An
-- array `uint8_t a[n]` is a list; `IsSized` of Eep/CommandData/Sizes.antt says that it has n elements.
pub mod Sizes
use linux_pbs.Base.{ℕ, List, [], ◌∷◌, ◌++◌}

pub record AckData : Type 0 where
  pub seq_no : ℕ
  pub req_datatype_code : ℕ
  pub rsv : List ℕ

pub record NakData : Type 0 where
  pub seq_no : ℕ
  pub req_datatype_code : ℕ
  pub reason_code : ℕ
  pub rsv : List ℕ

pub record SetDiPortConfigData : Type 0 where
  pub period_debounce_di1 : List ℕ
  pub period_debounce_di2 : List ℕ
  pub period_debounce_di3 : List ℕ
  pub period_debounce_di4 : List ℕ
  pub period_debounce_di5 : List ℕ
  pub rsv : List ℕ

pub record SetDoPort : Type 0 where
  pub do1 : ℕ
  pub do2 : ℕ
  pub do3 : ℕ
  pub do4 : ℕ
  pub do5 : ℕ
  pub do6 : ℕ
  pub rsv : List ℕ

pub record DeductData : Type 0 where
  pub serial_num : List ℕ
  pub rsv : List ℕ
  pub obu_label : List ℕ
  pub rsv1 : List ℕ
  pub charge_amt : List ℕ
  pub rsv2 : List ℕ
  pub parking_start_day : ℕ
  pub parking_start_month : ℕ
  pub parking_start_year : List ℕ
  pub rsv3 : ℕ
  pub parking_start_second : ℕ
  pub parking_start_minute : ℕ
  pub parking_start_hour : ℕ
  pub parking_end_day : ℕ
  pub parking_end_month : ℕ
  pub parking_end_year : List ℕ
  pub rsv4 : ℕ
  pub parking_end_second : ℕ
  pub parking_end_minute : ℕ
  pub parking_end_hour : ℕ

pub record DeductStopData : Type 0 where
  pub serial_num : List ℕ
  pub rsv : List ℕ
  pub obu_label : List ℕ
  pub rsv1 : List ℕ

pub record TransactionReqData : Type 0 where
  pub serial_num : List ℕ
  pub rsv : List ℕ
  pub obu_label : List ℕ
  pub rsv1 : List ℕ

pub record CpoInfoDisplayData : Type 0 where
  pub rsv : List ℕ
  pub obu_label : List ℕ
  pub rsv1 : List ℕ
  pub data_type : ℕ
  pub rsv2 : List ℕ
  pub timeout : List ℕ
  pub data_len_of_stored_data : List ℕ
  pub data_string1 : List ℕ
  pub data_string2 : List ℕ
  pub data_string3 : List ℕ
  pub data_string4 : List ℕ
  pub data_string5 : List ℕ
  pub stored_data : List ℕ

pub record CarparkProcessCompleteData : Type 0 where
  pub rsv : List ℕ
  pub obu_label : List ℕ
  pub rsv1 : List ℕ
  pub processing_result : ℕ
  pub rsv2 : ℕ
  pub amt : List ℕ

pub record DsrcProcessCompleteData : Type 0 where
  pub rsv : List ℕ
  pub obu_label : List ℕ
  pub rsv1 : List ℕ

pub record StopReqOfRelatedInfoData : Type 0 where
  pub rsv : List ℕ
  pub obu_label : List ℕ
  pub rsv1 : List ℕ

pub record TimeCalibrationData : Type 0 where
  pub day : ℕ
  pub month : ℕ
  pub year : List ℕ
  pub rsv : ℕ
  pub second : ℕ
  pub minute : ℕ
  pub hour : ℕ

pub record SetParkingAvailabilityData : Type 0 where
  pub available_lots : List ℕ
  pub total_lots : List ℕ
  pub rsv : List ℕ

pub record RestartInquiryResponseData : Type 0 where
  pub response : ℕ
  pub rsv : List ℕ

-- A `std::shared_ptr<CommandDataBase>`: null, or one of the structs.
pub data CommandData : Type 0 where
  null : CommandData
  ack_data : AckData → CommandData
  nak_data : NakData → CommandData
  set_di_port_config_data : SetDiPortConfigData → CommandData
  set_do_port : SetDoPort → CommandData
  deduct_data : DeductData → CommandData
  deduct_stop_data : DeductStopData → CommandData
  transaction_req_data : TransactionReqData → CommandData
  cpo_info_display_data : CpoInfoDisplayData → CommandData
  carpark_process_complete_data : CarparkProcessCompleteData → CommandData
  dsrc_process_complete_data : DsrcProcessCompleteData → CommandData
  stop_req_of_related_info_data : StopReqOfRelatedInfoData → CommandData
  time_calibration_data : TimeCalibrationData → CommandData
  set_parking_availability_data : SetParkingAvailabilityData → CommandData
  restart_inquiry_response_data : RestartInquiryResponseData → CommandData

abbrev pub serialize_ack : AckData → List ℕ
serialize_ack d = d.req_datatype_code ∷ d.rsv

abbrev pub serialize_nak : NakData → List ℕ
serialize_nak d = d.req_datatype_code ∷ d.reason_code ∷ d.rsv

abbrev pub serialize_set_di_port_config : SetDiPortConfigData → List ℕ
serialize_set_di_port_config d =
    d.period_debounce_di1 ++ d.period_debounce_di2 ++ d.period_debounce_di3 ++ d.period_debounce_di4
    ++ d.period_debounce_di5 ++ d.rsv

abbrev pub serialize_set_do_port : SetDoPort → List ℕ
serialize_set_do_port d = d.do1 ∷ d.do2 ∷ d.do3 ∷ d.do4 ∷ d.do5 ∷ d.do6 ∷ d.rsv

-- The two times of day of a DeductData.
abbrev pub serialize_parking_start : DeductData → List ℕ
serialize_parking_start d =
    d.parking_start_day ∷ d.parking_start_month ∷ d.parking_start_year
    ++ d.rsv3 ∷ d.parking_start_second ∷ d.parking_start_minute ∷ d.parking_start_hour ∷ []

abbrev pub serialize_parking_end : DeductData → List ℕ
serialize_parking_end d =
    d.parking_end_day ∷ d.parking_end_month ∷ d.parking_end_year
    ++ d.rsv4 ∷ d.parking_end_second ∷ d.parking_end_minute ∷ d.parking_end_hour ∷ []

abbrev pub serialize_deduct : DeductData → List ℕ
serialize_deduct d =
    d.serial_num
    ++ d.rsv
    ++ d.obu_label
    ++ d.rsv1
    ++ d.charge_amt
    ++ d.rsv2
    ++ serialize_parking_start d
    ++ serialize_parking_end d

abbrev pub serialize_deduct_stop : DeductStopData → List ℕ
serialize_deduct_stop d = d.serial_num ++ d.rsv ++ d.obu_label ++ d.rsv1

abbrev pub serialize_transaction_req : TransactionReqData → List ℕ
serialize_transaction_req d = d.serial_num ++ d.rsv ++ d.obu_label ++ d.rsv1

abbrev pub serialize_cpo_info_display : CpoInfoDisplayData → List ℕ
serialize_cpo_info_display d =
    d.rsv
    ++ d.obu_label
    ++ d.rsv1
    ++ d.data_type ∷ d.rsv2
    ++ d.timeout
    ++ d.data_len_of_stored_data
    ++ d.data_string1
    ++ d.data_string2
    ++ d.data_string3
    ++ d.data_string4
    ++ d.data_string5
    ++ d.stored_data

abbrev pub serialize_carpark_process_complete : CarparkProcessCompleteData → List ℕ
serialize_carpark_process_complete d =
    d.rsv ++ d.obu_label ++ d.rsv1 ++ d.processing_result ∷ d.rsv2 ∷ d.amt

abbrev pub serialize_dsrc_process_complete : DsrcProcessCompleteData → List ℕ
serialize_dsrc_process_complete d = d.rsv ++ d.obu_label ++ d.rsv1

abbrev pub serialize_stop_req_of_related_info : StopReqOfRelatedInfoData → List ℕ
serialize_stop_req_of_related_info d = d.rsv ++ d.obu_label ++ d.rsv1

abbrev pub serialize_time_calibration : TimeCalibrationData → List ℕ
serialize_time_calibration d = d.day ∷ d.month ∷ d.year ++ d.rsv ∷ d.second ∷ d.minute ∷ d.hour ∷ []

abbrev pub serialize_set_parking_availability : SetParkingAvailabilityData → List ℕ
serialize_set_parking_availability d = d.available_lots ++ d.total_lots ++ d.rsv

abbrev pub serialize_restart_inquiry_response : RestartInquiryResponseData → List ℕ
serialize_restart_inquiry_response d = d.response ∷ d.rsv
