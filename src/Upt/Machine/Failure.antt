-- ===== src/Upt/Machine/Failure.antt =====
-- Upt::handleCmdErrorOrTimeout: which event a failed command raises.
use linux_pbs.Base.{ℕ, String, Option, none, some, List, [], ◌∷◌, ◌++◌}
use linux_pbs.Upt.Command.{
  UptCmd, device_status_request, device_reset_request, device_time_sync_request,
  device_logon_request, device_tms_request, device_settlement_request,
  device_retrieve_last_settlement_request, card_detect_request, payment_mode_auto_request,
  cancel_command_request,
}
use linux_pbs.Upt.Machine.State.{Machine}

-- The event's name; `none` for the commands whose case is empty.
unfoldable pub failure_event : UptCmd → Option String
failure_event device_status_request = some "Evt_handleUPTDeviceStatus"
failure_event device_reset_request = some "Evt_handleUPTDeviceReset"
failure_event device_time_sync_request = some "Evt_handleUPTDeviceTimeSync"
failure_event device_logon_request = some "Evt_handleUPTDeviceLogon"
failure_event device_tms_request = some "Evt_handleUPTDeviceTMS"
failure_event device_settlement_request = some "Evt_handleUPTDeviceSettlement"
failure_event device_retrieve_last_settlement_request = some "Evt_handleUPTRetrieveLastSettlement"
failure_event card_detect_request = some "Evt_handleUPTCardDetect"
failure_event payment_mode_auto_request = some "Evt_handleUPTPaymentAuto"
failure_event cancel_command_request = some "Evt_handleUPTCommandCancel"
failure_event _ = none

abbrev pub raise : Option String → ℕ → List (String × ℕ) → List (String × ℕ)
raise none status raised = raised
raise (some name) status raised = raised ++ (name, status) ∷ []

unfoldable pub handle_cmd_error_or_timeout : UptCmd → ℕ → Machine → Machine
unfolding failure_event
handle_cmd_error_or_timeout cmd status m = record m {
  failures = raise (failure_event cmd) status m.failures;
}
