-- ===== src/Upt/Command.antt =====
-- The commands of upt.h with their request data, `Upt::checkCmd`, and the sequence numbers of upt.cpp.
use linux_pbs.Base.{ℕ, ◌+◌, Bool, true, false, List, ◌==◌, if◌then◌else◌}

pub data UptCmd : Type 0 where
  device_status_request device_reset_request device_time_sync_request : UptCmd
  device_profile_request device_sof_list_request device_sof_set_priority_request : UptCmd
  device_logon_request device_tms_request device_settlement_request : UptCmd
  device_pre_settlement_request device_reset_sequence_number_request : UptCmd
  device_retrieve_last_transaction_status_request device_retrieve_last_settlement_request : UptCmd
  mutual_authentication_step_1_request mutual_authentication_step_2_request : UptCmd
  card_detect_request card_detail_request card_historical_log_request : UptCmd
  payment_mode_auto_request payment_mode_eft_request payment_mode_eft_nets_qr_request : UptCmd
  payment_mode_bca_request payment_mode_credit_card_request payment_mode_ncc_request : UptCmd
  payment_mode_nfp_request payment_mode_ez_link_request pre_authorization_request : UptCmd
  pre_authorization_completion_request installation_request : UptCmd
  void_payment_request refund_request cancel_command_request : UptCmd
  top_up_nets_ncc_by_nets_eft_request top_up_nets_nfp_by_nets_eft_request : UptCmd
  case_deposit_request uob_request : UptCmd

pub data HostId : Type 0 where
  nets upos : HostId

-- The `std::shared_ptr<void>` of a command: null, a request with a host id, or one with an amount and
-- a merchant reference.
pub data CommandData : Type 0 where
  no_data : CommandData
  host_request : HostId → CommandData
  amount_request : ℕ → List ℕ → CommandData

pub record CommandWithData : Type 0 where
  pub cmd : UptCmd
  pub request : CommandData

-- Upt::checkCmd lists every command.
unfoldable pub check_cmd : UptCmd → Bool
check_cmd device_status_request = true
check_cmd device_reset_request = true
check_cmd device_time_sync_request = true
check_cmd device_profile_request = true
check_cmd device_sof_list_request = true
check_cmd device_sof_set_priority_request = true
check_cmd device_logon_request = true
check_cmd device_tms_request = true
check_cmd device_settlement_request = true
check_cmd device_pre_settlement_request = true
check_cmd device_reset_sequence_number_request = true
check_cmd device_retrieve_last_transaction_status_request = true
check_cmd device_retrieve_last_settlement_request = true
check_cmd mutual_authentication_step_1_request = true
check_cmd mutual_authentication_step_2_request = true
check_cmd card_detect_request = true
check_cmd card_detail_request = true
check_cmd card_historical_log_request = true
check_cmd payment_mode_auto_request = true
check_cmd payment_mode_eft_request = true
check_cmd payment_mode_eft_nets_qr_request = true
check_cmd payment_mode_bca_request = true
check_cmd payment_mode_credit_card_request = true
check_cmd payment_mode_ncc_request = true
check_cmd payment_mode_nfp_request = true
check_cmd payment_mode_ez_link_request = true
check_cmd pre_authorization_request = true
check_cmd pre_authorization_completion_request = true
check_cmd installation_request = true
check_cmd void_payment_request = true
check_cmd refund_request = true
check_cmd cancel_command_request = true
check_cmd top_up_nets_ncc_by_nets_eft_request = true
check_cmd top_up_nets_nfp_by_nets_eft_request = true
check_cmd case_deposit_request = true
check_cmd uob_request = true

abbrev pub is_reset_sequence_number : UptCmd → Bool
is_reset_sequence_number device_reset_sequence_number_request = true
is_reset_sequence_number _ = false

abbrev pub last_sequence_no : ℕ
last_sequence_no = 0xffffffff

-- Upt::incrementSequenceNo.
unfoldable pub increment_sequence_no : ℕ → ℕ
increment_sequence_no n = if n == last_sequence_no then 1 else n + 1
