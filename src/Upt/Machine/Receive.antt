-- ===== src/Upt/Machine/Receive.antt =====
-- Upt::handleReceivedCmd and isMsgStatusValid: what a received frame does to the machine.
use linux_pbs.Base.{
  ℕ, Bool, false, not, ◌&&◌, ◌||◌, Option, none, some, List, [], ◌∷◌, ◌++◌, ◌==◌, leb,
  if◌then◌else◌,
}
use linux_pbs.Upt.Status
use linux_pbs.Upt.Command.{no_data, device_reset_sequence_number_request, device_logon_request}
use linux_pbs.Upt.Message.{Message}
use linux_pbs.Upt.Parser.{parse_msg_data}
use linux_pbs.Upt.Receiver.{consume_received_bytes}
use linux_pbs.Upt.Machine.State.{
  ack_timeout, ack_timer_cancelled_ack_received, response_timer_cancelled_rsp_received, Machine,
  process_event,
}
use linux_pbs.Upt.Machine.Queue.{enqueue_command}

-- MSG_CLASS_ACK and MSG_CLASS_RSP.
abbrev pub class_ack : ℕ
class_ack = 0x0002

abbrev pub class_rsp : ℕ
class_rsp = 0x0003

-- The statuses from MSG_INTEGRITY_FAILED to MSG_INCOMPLETE and from FIELD_MANDATORY_MISSING to
-- FIELD_PARSING_ERROR are the cases of the switch.
unfoldable pub is_msg_status_valid : ℕ → Bool
is_msg_status_valid status = not (
    (leb 0x10000000 status && leb status 0x10000012)
    || (leb 0x11000001 status && leb status 0x11000007))

-- An invalid acknowledgement ends the wait like a timeout.
unfoldable pub receive_ack : Message → Machine → Machine
unfolding process_event is_msg_status_valid
receive_ack msg m =
    let n = record m { ack_timer = false } in
    if is_msg_status_valid msg.header.msg_status
    then process_event ack_timer_cancelled_ack_received n
    else process_event ack_timeout n

-- handleCmdResponse formats the message for the event manager; here it is kept whole.
unfoldable pub receive_response : Message → Machine → Machine
unfolding process_event
receive_response msg m =
    process_event response_timer_cancelled_rsp_received
      (record m { responses = m.responses ++ msg ∷ []; rsp_timer = false })

unfoldable pub receive_class : Message → Machine → Machine
unfolding receive_ack receive_response
receive_class msg m =
    if msg.header.msg_class == class_ack
    then receive_ack msg m
    else if msg.header.msg_class == class_rsp
    then receive_response msg m
    else m

-- FnUptSendDeviceResetSequenceNumberRequest and FnUptSendDeviceLogonRequest, where the status asks.
unfoldable pub receive_demands : ℕ → Machine → Machine
unfolding enqueue_command
receive_demands status m =
    let n =
      if status == Status.invalid_parameter
      then enqueue_command device_reset_sequence_number_request no_data false m
      else m in
    if status == Status.sof_logon_required
    then enqueue_command device_logon_request no_data false n
    else n

unfoldable pub receive_message : Message → Machine → Machine
unfolding receive_class receive_demands
receive_message msg m =
    if msg.header.msg_sequence == m.sequence_no
    then receive_demands msg.header.msg_status (receive_class msg m)
    else m

unfoldable pub receive_parsed : Option (ℕ × Message) → Machine → Machine
unfolding receive_message
receive_parsed none m = m
receive_parsed (some (status, msg)) m =
    if status == Status.success then receive_message msg m else m

unfoldable pub handle_received_cmd : List ℕ → Machine → Machine
unfolding receive_parsed
handle_received_cmd frame m = receive_parsed (parse_msg_data frame) m

unfoldable pub handle_frames : List (List ℕ) → Machine → Machine
unfolding handle_received_cmd
handle_frames [] m = m
handle_frames (f ∷ fs) m = handle_frames fs (handle_received_cmd f m)

-- The successful branch of Upt::readEnd. No handler of a frame touches the receiver, so the frames
-- are handled after the bytes have been cut.
unfoldable pub read_end : List ℕ → Machine → Machine
unfolding handle_frames
read_end bytes m =
    let (rx, frames) = consume_received_bytes bytes m.rx in
    if m.stopping then m else handle_frames frames (record m { read_age = 0; rx = rx })
