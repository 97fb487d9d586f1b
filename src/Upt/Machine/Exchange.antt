-- ===== src/Upt/Machine/Exchange.antt =====
-- A command, its acknowledgement and its response, from one quiet state to the next.
use linux_pbs.Base.{
  ℕ, ◌+◌, ◌%◌, ◌^◌, ◌≤◌, ◌≡◌, ◌≢◌, refl, ap, ◌∙◌, true, false, List, [], ◌∷◌, ◌++◌, arith, le→ltb,
  ==_refl,
}
use linux_pbs.Upt.Status
use linux_pbs.Upt.Command.{UptCmd, CommandData, last_sequence_no}
use linux_pbs.Upt.Message.{Message, message_bytes}
use linux_pbs.Upt.Transparency.{add_data_transparency}
use linux_pbs.Upt.Parser.RoundTrip.{IsMessage}
use linux_pbs.Upt.Prepare.{Clock, prepare_cmd}
use linux_pbs.Upt.Prepare.Unimplemented.{check_cmd_all}
use linux_pbs.Upt.Receiver.Frames.{Fits}
use linux_pbs.Upt.Machine.State.{
  idle, waiting_for_ack, waiting_for_response, Machine, process_event,
}
use linux_pbs.Upt.Machine.Writer.{done, serial_write_gap, enqueue_write, start_write, write_end}
use linux_pbs.Upt.Machine.Queue.{
  enqueue_command, check_command_queue, announce, enqueue_command_on_io_thread, send_front,
  pop_from_command_queue_and_enqueue_write, with_reset,
}
use linux_pbs.Upt.Machine.Events.{transition, handle_state, enter, follow, run_event, run_post}
use linux_pbs.Upt.Machine.Receive.{
  class_ack, class_rsp, is_msg_status_valid, receive_ack, receive_response, receive_class,
  receive_demands, receive_message,
}
use linux_pbs.Upt.Machine.Inputs.{
  Input, send, run_next, write_ends, read_ends, run_first, step, run,
}
use linux_pbs.Upt.Machine.Resting.{
  Past, resting, differ, read_end-add_data_transparency, run-append,
}

abbrev pub quiet : Past → Machine
quiet p = resting idle false false p

abbrev pub sent : UptCmd → CommandData → Clock → Past → Past
sent cmd d clock p = record p {
  current_cmd = cmd;
  sequence_no = (prepare_cmd cmd d clock p.sequence_no).0;
  wire = p.wire ++ (prepare_cmd cmd d clock p.sequence_no).1 ∷ [];
}

-- Nothing keeps the frame back, and the sequence number does not run out.
abbrev pub MaySend : Past → Type 0
MaySend p = (serial_write_gap ≤ p.read_age) × ((p.sequence_no + 1) % 2 ^ 32 ≢ last_sequence_no)

no_reset_lem :
    (n : ℕ) (cmd : UptCmd) → (n + 1) % 2 ^ 32 ≢ last_sequence_no → with_reset n cmd [] ≡ []
no_reset_lem n cmd h = ground arith

send_command :
    (cmd : UptCmd) (d : CommandData) (clock : Clock) (p : Past)
    → MaySend p
    → run
        (send cmd d ∷ run_next clock ∷ run_next clock ∷ write_ends done ∷ run_next clock ∷ [])
        (quiet p)
      ≡ resting waiting_for_ack true false (sent cmd d clock p)
unfolding run step enqueue_command run_first run_post enqueue_command_on_io_thread
    check_command_queue announce process_event run_event transition follow handle_state enter
    pop_from_command_queue_and_enqueue_write send_front enqueue_write start_write write_end
    prepare_cmd add_data_transparency
send_command cmd d clock p (gap, room) =
    rw
      (
        check_cmd_all cmd,
        no_reset_lem p.sequence_no cmd room,
        le→ltb p.read_age serial_write_gap gap,
      )
      refl

-- A reply to the command with this sequence number: of its class, on the line in one piece, and
-- with no demand for a reset or a logon.
pub record IsReply (class no : ℕ) (msg : Message) : Type 0 where
  pub message_ok : IsMessage msg
  pub fits : Fits (message_bytes msg)
  pub class_ok : msg.header.msg_class ≡ class
  pub sequence_ok : msg.header.msg_sequence ≡ no
  pub no_reset : msg.header.msg_status ≢ Status.invalid_parameter
  pub no_logon : msg.header.msg_status ≢ Status.sof_logon_required

abbrev read : Past → Past
read p = record p { read_age = 0 }

receive_demands_none :
    (status : ℕ) (m : Machine)
    → status ≢ Status.invalid_parameter
    → status ≢ Status.sof_logon_required
    → receive_demands status m ≡ m
unfolding receive_demands
receive_demands_none status m p q = rw (differ status _ p, differ status _ q) refl

receive_acknowledgement :
    (ack : Message) (clock : Clock) (p : Past)
    → IsReply class_ack p.sequence_no ack
    → is_msg_status_valid ack.header.msg_status ≡ true
    → run
        (read_ends (add_data_transparency (message_bytes ack)) ∷ run_next clock ∷ [])
        (resting waiting_for_ack true false p)
      ≡ resting waiting_for_response false true (read p)
unfolding run step receive_message receive_class receive_ack process_event run_first run_post
    run_event transition follow handle_state enter
receive_acknowledgement ack clock p v valid =
    rw
      (
        read_end-add_data_transparency ack (resting waiting_for_ack true false p) v.message_ok
            v.fits refl,
        v.sequence_ok,
        ==_refl p.sequence_no,
        v.class_ok,
        valid,
        receive_demands_none ack.header.msg_status _ v.no_reset v.no_logon,
      )
      refl

receive_answer :
    (rsp : Message) (clock : Clock) (p : Past)
    → IsReply class_rsp p.sequence_no rsp
    → run
        (read_ends (add_data_transparency (message_bytes rsp))
          ∷ run_next clock
          ∷ run_next clock
          ∷ [])
        (resting waiting_for_response false true p)
      ≡ quiet (record (read p) { responses = p.responses ++ rsp ∷ [] })
unfolding run step receive_message receive_class receive_response process_event run_first run_post
    run_event transition follow handle_state enter check_command_queue announce
receive_answer rsp clock p v =
    rw
      (
        read_end-add_data_transparency rsp (resting waiting_for_response false true p) v.message_ok
            v.fits refl,
        v.sequence_ok,
        ==_refl p.sequence_no,
        v.class_ok,
        receive_demands_none rsp.header.msg_status _ v.no_reset v.no_logon,
      )
      refl

-- The inputs of one exchange: the call, its handlers and its write, the acknowledgement, and the
-- response.
abbrev pub sending : UptCmd → CommandData → Clock → List Input
sending cmd d clock =
    send cmd d ∷ run_next clock ∷ run_next clock ∷ write_ends done ∷ run_next clock ∷ []

abbrev pub acknowledging : Message → Clock → List Input
acknowledging ack clock =
    read_ends (add_data_transparency (message_bytes ack)) ∷ run_next clock ∷ []

abbrev pub answering : Message → Clock → List Input
answering rsp clock =
    read_ends (add_data_transparency (message_bytes rsp)) ∷ run_next clock ∷ run_next clock ∷ []

abbrev pub exchange : UptCmd → CommandData → Clock → Message → Message → List Input
exchange cmd d clock ack rsp =
    sending cmd d clock ++ (acknowledging ack clock ++ answering rsp clock)

-- On a quiet machine that read nothing for the write gap and whose sequence number does not run
-- out, a command, a valid acknowledgement and a response with the command's sequence number, each
-- well-formed, in one read and with no demand for a reset or a logon, lead to a quiet machine
-- again: the frame of prepareCmd was sent once, the response was handed on once, no failure was
-- raised, and the sequence number is the command's.
pub exchange-quiet :
    (cmd : UptCmd) (d : CommandData) (clock : Clock) (ack rsp : Message) (p : Past)
    → MaySend p
    → IsReply class_ack (prepare_cmd cmd d clock p.sequence_no).0 ack
    → is_msg_status_valid ack.header.msg_status ≡ true
    → IsReply class_rsp (prepare_cmd cmd d clock p.sequence_no).0 rsp
    → run (exchange cmd d clock ack rsp) (quiet p)
      ≡ quiet (record (sent cmd d clock p) { read_age = 0; responses = p.responses ++ rsp ∷ [] })
exchange-quiet cmd d clock ack rsp p ready a valid r =
    let later = acknowledging ack clock ++ answering rsp clock in
    let q = sent cmd d clock p in
    run-append (sending cmd d clock) later (quiet p)
    ∙ ap (run later) (send_command cmd d clock p ready)
    ∙ run-append (acknowledging ack clock) (answering rsp clock)
        (resting waiting_for_ack true false q)
    ∙ ap (run (answering rsp clock)) (receive_acknowledgement ack clock q a valid)
    ∙ receive_answer rsp clock (read q) r
