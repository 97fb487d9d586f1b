-- ===== src/Upt/Machine/Cancel.antt =====
-- FnUptSendDeviceCancelCommandRequest: the cancel command goes out before every other command.
use linux_pbs.Base.{
  ℕ, ◌+◌, ◌≡◌, refl, ap, ◌∙◌, true, false, List, [], ◌∷◌, ◌++◌, ltb, if◌then◌else◌, Bool-cases, inl,
  inr, replicate,
}
use linux_pbs.Upt.Command.{UptCmd, no_data, CommandWithData, check_cmd}
use linux_pbs.Upt.Codes.{stx}
use linux_pbs.Upt.Transparency.{add_data_transparency}
use linux_pbs.Upt.Prepare.{Clock, prepare_cmd}
use linux_pbs.Upt.Machine.State.{
  idle, command_enqueued, cancel_command, Post, process, check_queue, sending_request_async,
  waiting_for_ack, waiting_for_response, Machine, process_event,
}
use linux_pbs.Upt.Machine.Writer.{
  serial_write_gap, enqueue_write, start_write, stop_serial_write_delay_timer,
}
use linux_pbs.Upt.Machine.Queue.{
  enqueue_command, check_command_queue, announce, enqueue_command_on_io_thread, send_front,
  pop_from_command_queue_and_enqueue_write, with_reset,
}
use linux_pbs.Upt.Machine.Events.{transition, handle_state, enter, follow, run_event, run_post}
use linux_pbs.Upt.Machine.Inputs.{Input, cancel, run_next, run_first, step, run}
use linux_pbs.Upt.Machine.Resting.{Past, resting, run-append}

-- The machine runs with its port open and nothing posted, its receiver waits for a frame, and no
-- async_write is outstanding. A command is on its way, others are queued: it waits for its
-- acknowledgement or its response, with nothing in the write queue, or its frame, alone in the write
-- queue, waits for the gap between a read and a write.
pub data Pending : Machine → List CommandWithData → Past → Type 0 where
  for_ack :
      (queue : List CommandWithData) (p : Past)
      → Pending (record (resting waiting_for_ack true false p) { command_queue = queue }) queue p
  for_response :
      (queue : List CommandWithData) (p : Past)
      → Pending
          (record (resting waiting_for_response false true p) { command_queue = queue })
          queue
          p
  for_gap :
      (frame : List ℕ) (queue : List CommandWithData) (p : Past)
      → Pending
          (record (resting sending_request_async false false p) {
            command_queue = queue;
            write_queue = frame ∷ [];
            write_in_progress = true;
            write_delay_active = true;
            serial_write_timer = true;
          })
          queue
          p

abbrev pub cancel_frame : Clock → Past → List ℕ
cancel_frame clock p = (prepare_cmd UptCmd.cancel_command_request no_data clock p.sequence_no).1

-- The cancel command is being sent; its frame alone is in the writer.
abbrev pub SendsCancel : Clock → List CommandWithData → Past → Machine → Type 0
SendsCancel clock queue p n =
    (n.current_state ≡ sending_request_async)
    × (n.current_cmd ≡ UptCmd.cancel_command_request)
    × (n.command_queue ≡ with_reset p.sequence_no UptCmd.cancel_command_request queue)
    × (n.write_queue ≡ cancel_frame clock p ∷ [])
    × (n.write_in_progress ≡ true)
    × (n.wire
        ≡ (if ltb p.read_age serial_write_gap then p.wire else p.wire ++ cancel_frame clock p ∷ []))
    × (n.ack_timer ≡ false)
    × (n.rsp_timer ≡ false)

-- The call, and the handlers that it posts one after the other.
abbrev pub cancelling : Clock → List Input
cancelling clock = cancel ∷ replicate 7 (run_next clock)

-- Two handlers give up the command, whatever it waited for.
abbrev pub cleaned : List CommandWithData → Past → Machine
cleaned queue p = record (resting idle false false p) {
  command_queue = queue;
  posted = process cancel_command ∷ check_queue ∷ [];
}

pub run-cleaned :
    (m : Machine) (clock : Clock) (queue : List CommandWithData) (p : Past)
    → Pending m queue p
    → run (cancel ∷ run_next clock ∷ run_next clock ∷ []) m ≡ cleaned queue p
unfolding run step run_first run_post process_event run_event transition follow handle_state enter
    stop_serial_write_delay_timer
run-cleaned _ clock _ _ (for_ack queue p) = refl
run-cleaned _ clock _ _ (for_response queue p) = refl
run-cleaned _ clock _ _ (for_gap frame queue p) = refl

-- Four more put the cancel command in front; commands queued before announce themselves once more.
abbrev pub again : List CommandWithData → List Post
again [] = []
again (c ∷ cs) = process command_enqueued ∷ []

abbrev pub ready : List CommandWithData → Past → Machine
ready queue p = record (resting idle false false p) {
  command_queue =
      record { cmd = UptCmd.cancel_command_request; request = no_data }
      ∷ with_reset p.sequence_no UptCmd.cancel_command_request queue;
  posted = process command_enqueued ∷ process command_enqueued ∷ again queue;
}

pub run-ready :
    (clock : Clock) (queue : List CommandWithData) (p : Past)
    → run (replicate 4 (run_next clock)) (cleaned queue p) ≡ ready queue p
unfolding run step run_first run_post process_event run_event transition follow handle_state enter
    enqueue_command enqueue_command_on_io_thread check_cmd check_command_queue announce
run-ready clock [] p = refl
run-ready clock (c ∷ cs) p = refl

-- The writer was free, and takes the frame.
pub write_ready :
    (frame : List ℕ) (byte : ℕ) (bytes : List ℕ) (m : Machine)
    → frame ≡ byte ∷ bytes
    → m.stopping ≡ false
    → m.port_open ≡ true
    → m.write_in_progress ≡ false
    → m.write_queue ≡ []
    → enqueue_write frame m ≡ (
        if ltb m.read_age serial_write_gap
        then record m {
          write_queue = frame ∷ [];
          write_in_progress = true;
          write_delay_active = true;
        }
        else record m {
          write_queue = frame ∷ [];
          write_in_progress = true;
          write_delay_active = false;
          writes_outstanding = m.writes_outstanding + 1;
          wire = m.wire ++ frame ∷ [];
        })
unfolding enqueue_write start_write
write_ready frame byte bytes m e r o w q = rw (e, r, o, w, q) refl

pub frame_starts :
    (clock : Clock) (p : Past) → (bytes : List ℕ) × (cancel_frame clock p ≡ stx ∷ bytes)
unfolding prepare_cmd add_data_transparency
frame_starts clock p = (_, refl)

run-SendsCancel :
    (clock : Clock) (queue : List CommandWithData) (p : Past)
    → SendsCancel clock queue p (run (run_next clock ∷ []) (ready queue p))
unfolding run step run_first run_post run_event transition follow handle_state enter
    pop_from_command_queue_and_enqueue_write send_front
run-SendsCancel clock queue p =
    let (bytes, e) = frame_starts clock p in
    let out =
      write_ready (cancel_frame clock p) stx bytes
        (record (ready queue p) {
          posted = process command_enqueued ∷ again queue;
          command_queue = with_reset p.sequence_no UptCmd.cancel_command_request queue;
          current_cmd = UptCmd.cancel_command_request;
          sequence_no = (prepare_cmd UptCmd.cancel_command_request no_data clock p.sequence_no).0;
        })
        e refl refl refl refl in
    elim (Bool-cases (ltb p.read_age serial_write_gap)) [
      | inl gap ↦ rw (out, gap) (refl, refl, refl, refl, refl, refl, refl, refl)
      | inr free ↦ rw (out, free) (refl, refl, refl, refl, refl, refl, refl, refl)
    ]

-- From a machine that runs with its port open and nothing posted, whose receiver waits for a frame,
-- with no async_write outstanding and no write timed out, and whose command waits for its
-- acknowledgement or its response with an empty write queue, or for the gap before its write with
-- its frame alone in the write queue: the cancel call leads in seven handlers, with nothing between
-- them, to a machine that sends the cancel command ahead of every queued command. The queued
-- commands stay, with a reset of the sequence number in front of them if it runs out; a frame that
-- waited for the gap has left the write queue without having been written; no timer of an
-- acknowledgement or a response is left.
pub cancelling-SendsCancel :
    (m : Machine) (clock : Clock) (queue : List CommandWithData) (p : Past)
    → Pending m queue p
    → SendsCancel clock queue p (run (cancelling clock) m)
cancelling-SendsCancel m clock queue p h =
    let start = cancel ∷ run_next clock ∷ run_next clock ∷ [] in
    let four = replicate 4 (run_next clock) in
    let last = run_next clock ∷ [] in
    let reached : run (cancelling clock) m ≡ run last (ready queue p) =
      run-append start (four ++ last) m
      ∙ ap (run (four ++ last)) (run-cleaned m clock queue p h)
      ∙ run-append four last (cleaned queue p)
      ∙ ap (run last) (run-ready clock queue p) in
    rw reached (run-SendsCancel clock queue p)
