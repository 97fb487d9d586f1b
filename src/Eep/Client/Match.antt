-- ===== src/Eep/Client/Match.antt =====
-- Which message of the peer answers which command: isResponseMatchedDataTypeCode,
-- doesCmdRequireNotification, isNotificationReceived and isResponseNotificationComplete.
use linux_pbs.Base.{
  ℕ, Bool, true, false, ◌||◌, Option, none, some, List, [], ◌∷◌, ◌==◌, if◌then◌else◌,
}
use linux_pbs.Eep.MessageCode
use linux_pbs.Eep.CommandType.{CommandType}

-- `validResponses`, beside NAK: the code that answers a command.
unfoldable pub valid_response : CommandType → Option ℕ
valid_response CommandType.unknown_req_cmd = none
valid_response CommandType.ack = none
valid_response CommandType.nak = none
valid_response CommandType.eep_idle = none
valid_response CommandType.health_status_req_cmd = some MessageCode.health_status_response
valid_response CommandType.watchdog_req_cmd = some MessageCode.watchdog_response
valid_response CommandType.start_req_cmd = some MessageCode.start_response
valid_response CommandType.stop_req_cmd = some MessageCode.stop_response
valid_response CommandType.di_req_cmd = some MessageCode.di_status_response
valid_response CommandType.dsrc_status_req_cmd = some MessageCode.dsrc_status_response
valid_response CommandType.time_calibration_req_cmd = some MessageCode.time_calibration_response
valid_response _ = some MessageCode.ack

-- `validAckNakRspRequestedDataType`.
unfoldable pub requested_data_type : CommandType → Option ℕ
requested_data_type CommandType.unknown_req_cmd = none
requested_data_type CommandType.ack = none
requested_data_type CommandType.nak = none
requested_data_type CommandType.health_status_req_cmd = some MessageCode.health_status_request
requested_data_type CommandType.watchdog_req_cmd = some MessageCode.watchdog_request
requested_data_type CommandType.start_req_cmd = some MessageCode.start_request
requested_data_type CommandType.stop_req_cmd = some MessageCode.stop_request
requested_data_type CommandType.di_req_cmd = some MessageCode.di_status_request
requested_data_type CommandType.do_req_cmd = some MessageCode.set_do_request
requested_data_type CommandType.set_di_port_config_cmd = some MessageCode.set_di_port_configuration
requested_data_type CommandType.get_obu_info_req_cmd = some MessageCode.get_obu_information_request
requested_data_type CommandType.get_obu_info_stop_req_cmd =
    some MessageCode.get_obu_information_stop
requested_data_type CommandType.deduct_req_cmd = some MessageCode.deduct_request
requested_data_type CommandType.deduct_stop_req_cmd = some MessageCode.deduct_stop_request
requested_data_type CommandType.transaction_req_cmd = some MessageCode.transaction_request
requested_data_type CommandType.cpo_info_display_req_cmd =
    some MessageCode.cpo_information_display_request
requested_data_type CommandType.carpark_process_complete_notification_req_cmd =
    some MessageCode.carpark_process_complete_notification
requested_data_type CommandType.dsrc_process_complete_notification_req_cmd =
    some MessageCode.dsrc_process_complete_notification
requested_data_type CommandType.stop_req_of_related_info_distribution_cmd =
    some MessageCode.stop_request_of_related_information_distribution
requested_data_type CommandType.dsrc_status_req_cmd = some MessageCode.dsrc_status_request
requested_data_type CommandType.time_calibration_req_cmd = some MessageCode.time_calibration_request
requested_data_type CommandType.set_carpark_avail_req_cmd = some MessageCode.set_parking_available
requested_data_type CommandType.cd_download_req_cmd = some MessageCode.cd_download_request
requested_data_type CommandType.eep_restart_inquiry_req_cmd =
    some MessageCode.eep_restart_inquiry_response
requested_data_type CommandType.eep_idle = none

abbrev pub same_code : Option ℕ → ℕ → Bool
same_code none code = false
same_code (some c) code = c == code

-- The first step: the top-level code is the command's response, or NAK.
unfoldable pub is_valid_response : Option ℕ → ℕ → Bool
is_valid_response none code = false
is_valid_response (some c) code = (code == c) || (code == MessageCode.nak)

abbrev pub is_ack_or_nak : ℕ → Bool
is_ack_or_nak code = (code == MessageCode.ack) || (code == MessageCode.nak)

-- The second step: an ACK or NAK names the code of the request.
unfoldable pub names_request : CommandType → List ℕ → Bool
unfolding requested_data_type
names_request type [] = false
names_request type (b ∷ body) = same_code (requested_data_type type) b

unfoldable pub is_response_matched_data_type_code : CommandType → ℕ → List ℕ → Bool
unfolding is_valid_response valid_response names_request
is_response_matched_data_type_code type code body =
    if is_valid_response (valid_response type) code
    then (if is_ack_or_nak code then names_request type body else true)
    else false

-- `isResponseNotificationComplete`: the notification that completes a command.
unfoldable pub completing_notification : CommandType → Option ℕ
completing_notification CommandType.get_obu_info_req_cmd =
    some MessageCode.obu_information_notification
completing_notification CommandType.deduct_req_cmd = some MessageCode.transaction_data
completing_notification CommandType.transaction_req_cmd = some MessageCode.transaction_data
completing_notification CommandType.cpo_info_display_req_cmd =
    some MessageCode.cpo_information_display_result
completing_notification CommandType.carpark_process_complete_notification_req_cmd =
    some MessageCode.carpark_process_complete_result
completing_notification _ = none

unfoldable pub is_response_notification_complete : CommandType → ℕ → Bool
unfolding completing_notification
is_response_notification_complete type code = same_code (completing_notification type) code

unfoldable pub does_cmd_require_notification : CommandType → Bool
does_cmd_require_notification CommandType.get_obu_info_req_cmd = true
does_cmd_require_notification CommandType.deduct_req_cmd = true
does_cmd_require_notification CommandType.transaction_req_cmd = true
does_cmd_require_notification CommandType.cpo_info_display_req_cmd = true
does_cmd_require_notification CommandType.carpark_process_complete_notification_req_cmd = true
does_cmd_require_notification _ = false

unfoldable pub is_notification_received : ℕ → Bool
is_notification_received code =
    (code == MessageCode.di_status_notification)
    || (code == MessageCode.obu_information_notification)
    || (code == MessageCode.transaction_data)
    || (code == MessageCode.cpo_information_display_result)
    || (code == MessageCode.carpark_process_complete_result)
    || (code == MessageCode.eep_restart_inquiry)
    || (code == MessageCode.notification_log)
