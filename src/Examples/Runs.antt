-- ===== src/Examples/Runs.antt =====
-- Runs of the Upt machine.
use linux_pbs.Base.{◌≡◌, refl, [], ◌∷◌, arith, true, false}
use linux_pbs.Upt.Status
use linux_pbs.Upt.Command.{UptCmd, no_data, check_cmd, increment_sequence_no}
use linux_pbs.Upt.Message.{message_bytes, header_bytes, payload_bytes}
use linux_pbs.Upt.Transparency.{add_data_transparency, escape_all}
use linux_pbs.Upt.Receiver.{idle_receiver}
use linux_pbs.Upt.Prepare.{prepare_cmd, next_sequence_no}
use linux_pbs.Upt.Machine.State.{
  waiting_for_ack, sending_request_async, Machine, process, process_event, write_completed, started,
}
use linux_pbs.Upt.Machine.Writer.{done, aborted, enqueue_write, start_write, delay_end}
use linux_pbs.Upt.Machine.Queue.{
  enqueue_command, announce, check_command_queue, enqueue_command_on_io_thread, send_front,
  pop_from_command_queue_and_enqueue_write,
}
use linux_pbs.Upt.Machine.Receive.{is_msg_status_valid, class_ack, class_rsp, read_end}
use linux_pbs.Upt.Machine.Inputs.{
  send, passes, run_next, run_first, delay_ends, write_ends, ack_timer_ends,
  serial_write_timer_ends, step, run,
}
use linux_pbs.Upt.Machine.Preserves.{Inv}
use linux_pbs.Upt.Machine.Invariant.{Reachable, at_start, after, Reachable-Inv}
use linux_pbs.Upt.Machine.Resting.{Past, resting}
use linux_pbs.Upt.Machine.Exchange.{quiet, sent, IsReply, exchange, exchange-quiet}
use linux_pbs.Upt.Machine.Diagram.{Follows, step-Follows}
use linux_pbs.Upt.Machine.Timeouts.{GivesUp, ack_done, wait-GivesUp, write-GivesUp}
use linux_pbs.Upt.Machine.Cancel.{for_ack, SendsCancel, cancelling, cancelling-SendsCancel}
use linux_pbs.Upt.Machine.CancelDuringWrite.{writing, Mistakes, interrupted, interrupted-Mistakes}
use linux_pbs.Upt.Machine.Sequence.{read_end-other_sequence}
use linux_pbs.Upt.Machine.Events.{transition, handle_state, enter, follow, run_event, run_post}
use linux_pbs.Examples.Frames.{ack, rsp, ack-IsMessage, rsp-IsMessage}
use linux_pbs.Examples.Commands.{noon}

-- Nothing sent yet, and long silence.
abbrev fresh : Past
fresh = record {
  current_cmd = UptCmd.device_status_request;
  sequence_no = 0;
  read_age = 5000;
  wire = [];
  failures = [];
  responses = [];
}

ack-IsReply : IsReply class_ack 1 ack
unfolding add_data_transparency escape_all message_bytes header_bytes payload_bytes
ack-IsReply = record {
  message_ok = ack-IsMessage;
  fits = omega arith;
  class_ok = refl;
  sequence_ok = refl;
  no_reset = omega arith;
  no_logon = omega arith;
}

rsp-IsReply : IsReply class_rsp 1 rsp
unfolding add_data_transparency escape_all message_bytes header_bytes payload_bytes
rsp-IsReply = record {
  message_ok = rsp-IsMessage;
  fits = omega arith;
  class_ok = refl;
  sequence_ok = refl;
  no_reset = omega arith;
  no_logon = omega arith;
}

exchange-quiet_example :
    run (exchange UptCmd.device_logon_request no_data noon ack rsp) (quiet fresh)
    ≡ quiet (record (sent UptCmd.device_logon_request no_data noon fresh) {
      read_age = 0;
      responses = rsp ∷ [];
    })
unfolding prepare_cmd next_sequence_no increment_sequence_no is_msg_status_valid
exchange-quiet_example =
    exchange-quiet UptCmd.device_logon_request no_data noon ack rsp fresh (omega arith, omega arith)
      ack-IsReply refl rsp-IsReply

-- A command right after the start waits for the gap; its wait ends, and its write runs.
abbrev delayed : Machine
delayed =
    step (run_next noon)
      (step (run_next noon) (step (send UptCmd.device_status_request no_data) started))

abbrev first_write : Machine
first_write = step (delay_ends done) (step (passes 5000) delayed)

-- Another end of the delay's wait, which the invariant has to bear.
abbrev overlapping : Machine
overlapping = step (delay_ends done) first_write

first_write-Reachable : Reachable 0 first_write
unfolding step run_first run_post run_event transition follow handle_state enter announce
    enqueue_command enqueue_command_on_io_thread check_cmd check_command_queue process_event
    pop_from_command_queue_and_enqueue_write send_front enqueue_write start_write delay_end
    prepare_cmd add_data_transparency
first_write-Reachable =
    after 0 (step (passes 5000) delayed) (delay_ends done)
      (after 0 delayed (passes 5000)
        (after 0 (step (run_next noon) (step (send UptCmd.device_status_request no_data) started))
          (run_next noon)
          (after 0 (step (send UptCmd.device_status_request no_data) started) (run_next noon)
            (after 0 started (send UptCmd.device_status_request no_data) at_start tt) tt)
          tt)
        tt)
      tt

overlapping-Reachable : Reachable 1 overlapping
unfolding step run_first run_post run_event transition follow handle_state enter announce
    enqueue_command enqueue_command_on_io_thread check_cmd check_command_queue process_event
    pop_from_command_queue_and_enqueue_write send_front enqueue_write start_write delay_end
    prepare_cmd add_data_transparency
overlapping-Reachable = after 0 first_write (delay_ends done) first_write-Reachable tt

Reachable-Inv_example : Inv 1 overlapping
Reachable-Inv_example = Reachable-Inv 1 overlapping overlapping-Reachable

-- The write has ended, and its event waits.
abbrev written : Machine
written = record (resting sending_request_async false false fresh) {
  posted = process write_completed ∷ [];
}

step-Follows_example : Follows (run_next noon) written (step (run_next noon) written)
step-Follows_example = step-Follows (run_next noon) written

wait-GivesUp_example :
    GivesUp
      (resting waiting_for_ack true false fresh)
      Status.ack_timeout
      (run (ack_timer_ends done ∷ run_next noon ∷ []) (resting waiting_for_ack true false fresh))
wait-GivesUp_example =
    wait-GivesUp (resting waiting_for_ack true false fresh) (ack_timer_ends done) waiting_for_ack
      Status.ack_timeout noon ack_done refl refl refl

write-GivesUp_example :
    let n =
      run
        (serial_write_timer_ends done ∷ write_ends aborted ∷ run_next noon ∷ [])
        (writing (0x02 ∷ 0x04 ∷ []) fresh) in
    GivesUp (writing (0x02 ∷ 0x04 ∷ []) fresh) Status.send_failed n
    × (n.write_queue ≡ [])
    × (n.write_in_progress ≡ false)
    × (n.write_timed_out ≡ false)
write-GivesUp_example =
    write-GivesUp (writing (0x02 ∷ 0x04 ∷ []) fresh) aborted noon refl refl refl refl

cancelling-SendsCancel_example :
    SendsCancel noon [] fresh (run (cancelling noon) (resting waiting_for_ack true false fresh))
cancelling-SendsCancel_example =
    cancelling-SendsCancel (resting waiting_for_ack true false fresh) noon [] fresh
      (for_ack [] fresh)

interrupted-Mistakes_example :
    Mistakes
      (0x02 ∷ 0x04 ∷ [])
      noon
      fresh
      (run (interrupted noon) (writing (0x02 ∷ 0x04 ∷ []) fresh))
interrupted-Mistakes_example = interrupted-Mistakes (0x02 ∷ 0x04 ∷ []) noon fresh

-- One sequence number is left before the last.
abbrev late : Machine
late = quiet (record fresh { sequence_no = 0xfffffffe })

read_end-other_sequence_example :
    read_end (add_data_transparency (message_bytes ack)) late
    ≡ record late { read_age = 0; rx = idle_receiver }
unfolding add_data_transparency escape_all message_bytes header_bytes payload_bytes
read_end-other_sequence_example =
    read_end-other_sequence ack late ack-IsMessage (omega arith) refl (omega arith)
