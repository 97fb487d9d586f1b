-- ===== src/Upt/Prepare/Unimplemented.antt =====
-- What a command "To be Implement" sends.
use linux_pbs.Base.{ℕ, ◌≡◌, refl, ap, ◌∙◌, none, some, [], length, true, arith}
use linux_pbs.Upt.Status
use linux_pbs.Upt.Message.{
  Message, new_message, cleared_message, header_bytes, payload_bytes, message_bytes,
}
use linux_pbs.Upt.Transparency.{add_data_transparency}
use linux_pbs.Upt.Transparency.RoundTrip.{remove-add_data_transparency}
use linux_pbs.Upt.Parser.{
  u32_at, parse_payload, parse_msg_data, is_valid_header_size, is_match_header_size,
}
use linux_pbs.Upt.Parser.Fields.{u32_at_prefix}
use linux_pbs.Upt.Command.{UptCmd, device_status_request, CommandData, check_cmd}
use linux_pbs.Upt.Prepare.{
  Clock, request_of, next_sequence_no, common_header, prepare_msg, prepare_cmd,
}

abbrev bare_message : UptCmd → Clock → ℕ → Message
bare_message cmd clock n = record new_message {
  header = common_header clock (next_sequence_no cmd n);
}

prepare_msg-none :
    (cmd : UptCmd) (d : CommandData) (clock : Clock) (n : ℕ)
    → request_of cmd d clock ≡ none
    → prepare_msg cmd d clock n ≡ bare_message cmd clock n
unfolding prepare_msg
prepare_msg-none cmd d clock n e = rw (e, prepare_msg)

bare_length :
    (cmd : UptCmd) (clock : Clock) (n : ℕ) → length (message_bytes (bare_message cmd clock n)) ≡ 64
unfolding message_bytes header_bytes payload_bytes
bare_length cmd clock n = refl

bare_length_field :
    (cmd : UptCmd) (clock : Clock) (n : ℕ) → u32_at (message_bytes (bare_message cmd clock n)) 0 ≡ 0
unfolding message_bytes header_bytes
bare_length_field cmd clock n = u32_at_prefix [] _ 0 (omega arith)

parse_payload-bare :
    (cmd : UptCmd) (clock : Clock) (n : ℕ)
    → parse_payload (message_bytes (bare_message cmd clock n))
      ≡ some (Status.msg_length_mismatch, cleared_message)
unfolding parse_payload is_valid_header_size is_match_header_size
parse_payload-bare cmd clock n =
    rw (bare_length cmd clock n, bare_length_field cmd clock n, parse_payload)

pub check_cmd_all : (cmd : UptCmd) → check_cmd cmd ≡ true
unfolding check_cmd
check_cmd_all device_status_request = refl
check_cmd_all _ = refl

-- A command that prepareCmd does not implement passes checkCmd, and its frame, whose length field is
-- 0, is one that the parser refuses with MSG_LENGTH_MISMATCH.
pub prepare_cmd-unimplemented :
    (cmd : UptCmd) (d : CommandData) (clock : Clock) (n : ℕ)
    → request_of cmd d clock ≡ none
    → (check_cmd cmd ≡ true)
      × (parse_msg_data (prepare_cmd cmd d clock n).1
          ≡ some (Status.msg_length_mismatch, cleared_message))
unfolding prepare_cmd parse_msg_data
prepare_cmd-unimplemented cmd d clock n e =
    let bytes = message_bytes (bare_message cmd clock n) in
    (
      check_cmd_all cmd,
      ap (λ (m : Message). parse_msg_data (add_data_transparency (message_bytes m)))
            (prepare_msg-none cmd d clock n e)
          ∙ rw (remove-add_data_transparency bytes) (parse_payload-bare cmd clock n),
    )
