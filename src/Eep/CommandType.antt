-- ===== src/Eep/CommandType.antt =====
-- EEPClient::CommandType and MSG_STATUS of eep_client.h.
use linux_pbs.Base.{Bool, true, false}

pub data CommandType : Type 0 where
  unknown_req_cmd ack nak health_status_req_cmd watchdog_req_cmd start_req_cmd : CommandType
  stop_req_cmd di_req_cmd do_req_cmd set_di_port_config_cmd get_obu_info_req_cmd : CommandType
  get_obu_info_stop_req_cmd deduct_req_cmd deduct_stop_req_cmd transaction_req_cmd : CommandType
  cpo_info_display_req_cmd carpark_process_complete_notification_req_cmd : CommandType
  dsrc_process_complete_notification_req_cmd stop_req_of_related_info_distribution_cmd : CommandType
  dsrc_status_req_cmd time_calibration_req_cmd set_carpark_avail_req_cmd : CommandType
  cd_download_req_cmd eep_restart_inquiry_req_cmd eep_idle : CommandType

pub data MsgStatus : Type 0 where
  success send_failed ack_timeout rsp_timeout parse_failed : MsgStatus

-- ACK and NAK answer the peer's messages; every other command is a request of the controller.
abbrev pub uses_controller_sequence : CommandType → Bool
uses_controller_sequence CommandType.ack = false
uses_controller_sequence CommandType.nak = false
uses_controller_sequence _ = true
