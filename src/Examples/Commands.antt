-- ===== src/Examples/Commands.antt =====
-- The frames of two commands, one of them "To be Implement".
use linux_pbs.Base.{◌<◌, ◌≡◌, ◌≢◌, ◌^◌, refl, [], ◌∷◌, replicate, some, arith, true}
use linux_pbs.Upt.Status
use linux_pbs.Upt.Message.{cleared_message}
use linux_pbs.Upt.Parser.{parse_msg_data}
use linux_pbs.Upt.Command.{UptCmd, CommandData, no_data, amount_request, check_cmd}
use linux_pbs.Upt.Prepare.{Clock, request_of, prepare_msg, prepare_cmd}
use linux_pbs.Upt.Prepare.Sizes.{IsClock}
use linux_pbs.Upt.Prepare.RoundTrip.{prepare_cmd-accepted}
use linux_pbs.Upt.Prepare.Unimplemented.{prepare_cmd-unimplemented}

abbrev pub noon : Clock
noon = record {
  seconds = 63900000000;
  date = 0x32 ∷ 0x30 ∷ 0x32 ∷ 0x36 ∷ 0x30 ∷ 0x31 ∷ 0x30 ∷ 0x31 ∷ [];
  time = 0x31 ∷ 0x32 ∷ replicate 4 0x30;
}

noon-IsClock : IsClock noon
noon-IsClock = record {
  seconds_range = omega arith;
  date_size = refl;
  date_bytes = omega arith;
  time_size = refl;
  time_bytes = omega arith;
}

-- Two dollars, with a reference.
abbrev payment : CommandData
payment = amount_request 200 (replicate 12 0x39)

prepare_cmd-accepted_example :
    (parse_msg_data (prepare_cmd UptCmd.payment_mode_auto_request payment noon 7).1
      ≡ some (Status.success, prepare_msg UptCmd.payment_mode_auto_request payment noon 7))
    × ((prepare_msg UptCmd.payment_mode_auto_request payment noon 7).header.msg_sequence
        ≡ (prepare_cmd UptCmd.payment_mode_auto_request payment noon 7).0)
    × ((prepare_cmd UptCmd.payment_mode_auto_request payment noon 7).0 ≢ 0)
    × ((prepare_cmd UptCmd.payment_mode_auto_request payment noon 7).0 < 2 ^ 32)
unfolding request_of
prepare_cmd-accepted_example =
    prepare_cmd-accepted UptCmd.payment_mode_auto_request payment noon 7 _ refl noon-IsClock
      (refl, omega arith) (omega arith)

prepare_cmd-unimplemented_example :
    (check_cmd UptCmd.refund_request ≡ true)
    × (parse_msg_data (prepare_cmd UptCmd.refund_request no_data noon 7).1
        ≡ some (Status.msg_length_mismatch, cleared_message))
unfolding request_of
prepare_cmd-unimplemented_example =
    prepare_cmd-unimplemented UptCmd.refund_request no_data noon 7 refl
