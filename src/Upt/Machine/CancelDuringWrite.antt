-- ===== src/Upt/Machine/CancelDuringWrite.antt =====
-- FnUptSendDeviceCancelCommandRequest while async_write has not completed.
use linux_pbs.Base.{ℕ, ◌≡◌, refl, ap, ◌∙◌, true, false, List, [], ◌∷◌, ◌++◌, replicate}
use linux_pbs.Upt.Command.{UptCmd, no_data, check_cmd}
use linux_pbs.Upt.Codes.{stx}
use linux_pbs.Upt.Prepare.{Clock, prepare_cmd}
use linux_pbs.Upt.Machine.State.{
  idle, command_enqueued, process, sending_request_async, waiting_for_ack, Machine, process_event,
}
use linux_pbs.Upt.Machine.Writer.{done, enqueue_write, stop_serial_write_delay_timer, write_end}
use linux_pbs.Upt.Machine.Queue.{
  enqueue_command, check_command_queue, announce, enqueue_command_on_io_thread, send_front,
  pop_from_command_queue_and_enqueue_write, with_reset,
}
use linux_pbs.Upt.Machine.Events.{transition, handle_state, enter, follow, run_event, run_post}
use linux_pbs.Upt.Machine.Inputs.{Input, cancel, run_next, write_ends, run_first, step, run}
use linux_pbs.Upt.Machine.Resting.{Past, resting, run-append}
use linux_pbs.Upt.Machine.Cancel.{cancel_frame, cancelling, frame_starts}

-- The frame is with async_write; no other command is queued.
abbrev pub writing : List ℕ → Past → Machine
writing frame p = record (resting sending_request_async false false p) {
  write_queue = frame ∷ [];
  write_in_progress = true;
  writes_outstanding = 1;
  serial_write_timer = true;
}

write_busy :
    (frame : List ℕ) (byte : ℕ) (bytes : List ℕ) (m : Machine)
    → frame ≡ byte ∷ bytes
    → m.stopping ≡ false
    → m.write_in_progress ≡ true
    → enqueue_write frame m ≡ record m { write_queue = m.write_queue ++ frame ∷ [] }
unfolding enqueue_write
write_busy frame byte bytes m e r w = rw (e, r, w) refl

-- Idle again, with the cancel command in front, while the write goes on.
given_up : List ℕ → Past → Machine
given_up frame p = record (writing frame p) {
  current_state = idle;
  serial_write_timer = false;
  command_queue =
      record { cmd = UptCmd.cancel_command_request; request = no_data }
      ∷ with_reset p.sequence_no UptCmd.cancel_command_request [];
  posted = process command_enqueued ∷ process command_enqueued ∷ [];
}

run-given_up :
    (frame : List ℕ) (clock : Clock) (p : Past)
    → run (cancel ∷ replicate 6 (run_next clock)) (writing frame p) ≡ given_up frame p
unfolding run step run_first run_post process_event run_event transition follow handle_state enter
    stop_serial_write_delay_timer enqueue_command enqueue_command_on_io_thread check_cmd
    check_command_queue announce given_up
run-given_up frame clock p = refl

-- The machine takes the old frame's completion for the cancel frame's.
abbrev pub Mistakes : List ℕ → Clock → Past → Machine → Type 0
Mistakes frame clock p n =
    (n.current_state ≡ waiting_for_ack)
    × (n.current_cmd ≡ UptCmd.cancel_command_request)
    × (n.write_queue ≡ cancel_frame clock p ∷ [])
    × (n.write_in_progress ≡ false)
    × (n.write_delay_active ≡ false)
    × (n.writes_outstanding ≡ 0)
    × (n.wire ≡ p.wire)
    × (n.posted ≡ [])

run-Mistakes :
    (frame : List ℕ) (clock : Clock) (p : Past)
    → Mistakes frame clock p (
        run
          (run_next clock ∷ write_ends done ∷ run_next clock ∷ run_next clock ∷ [])
          (given_up frame p))
unfolding run step run_first run_post process_event run_event transition follow handle_state enter
    pop_from_command_queue_and_enqueue_write send_front write_end given_up
run-Mistakes frame clock p =
    let (bytes, e) = frame_starts clock p in
    let out =
      write_busy (cancel_frame clock p) stx bytes
        (record (given_up frame p) {
          command_queue = with_reset p.sequence_no UptCmd.cancel_command_request [];
          current_cmd = UptCmd.cancel_command_request;
          sequence_no = (prepare_cmd UptCmd.cancel_command_request no_data clock p.sequence_no).0;
          posted = process command_enqueued ∷ [];
        })
        e refl refl in
    rw out (refl, refl, refl, refl, refl, refl, refl, refl)

-- The cancel call while async_write has not completed, its seven handlers, the write's success, and
-- the two handlers posted then.
abbrev pub interrupted : Clock → List Input
interrupted clock = cancelling clock ++ write_ends done ∷ run_next clock ∷ run_next clock ∷ []

-- If a command is cancelled while its async_write has not completed and has not timed out, on a
-- running machine with its port open, with no other command queued, nothing posted and the receiver
-- waiting for a frame, and if the seven handlers of the cancel all run, with nothing between them,
-- before that write completes: then the success of that write and the two handlers that follow take
-- the machine to waiting for the cancel command's acknowledgement, although the cancel frame was
-- not given to async_write. The frame is left in the write queue with no write in progress and
-- nothing posted.
pub interrupted-Mistakes :
    (frame : List ℕ) (clock : Clock) (p : Past)
    → Mistakes frame clock p (run (interrupted clock) (writing frame p))
interrupted-Mistakes frame clock p =
    let start = cancel ∷ replicate 6 (run_next clock) in
    let later = run_next clock ∷ write_ends done ∷ run_next clock ∷ run_next clock ∷ [] in
    let reached : run (interrupted clock) (writing frame p) ≡ run later (given_up frame p) =
      run-append start later (writing frame p) ∙ ap (run later) (run-given_up frame clock p) in
    rw reached (run-Mistakes frame clock p)
