-- ===== src/Upt/Machine/LateDelay.antt =====
-- FnUptSendDeviceCancelCommandRequest while a frame waits for the gap, when the wait has already expired.
use linux_pbs.Base.{ℕ, ◌≡◌, true, false, List, [], ◌∷◌, ◌++◌}
use linux_pbs.Upt.Command.{UptCmd, no_data, CommandWithData}
use linux_pbs.Upt.Prepare.{Clock, prepare_cmd}
use linux_pbs.Upt.Machine.State.{sending_request_async, process, command_enqueued, Machine}
use linux_pbs.Upt.Machine.Writer.{done}
use linux_pbs.Upt.Machine.Queue.{with_reset}
use linux_pbs.Upt.Machine.Inputs.{Input, delay_ends}
use linux_pbs.Upt.Machine.Resting.{Past, resting}
use linux_pbs.Upt.Machine.Cancel.{cancel_frame, cancelling, ready, again}

-- A frame waits for the gap, alone in the write queue.
abbrev pub waiting_for_gap : List ℕ → List CommandWithData → Past → Machine
waiting_for_gap frame queue p = record (resting sending_request_async false false p) {
  command_queue = queue;
  write_queue = frame ∷ [];
  write_in_progress = true;
  write_delay_active = true;
  serial_write_timer = true;
}

-- Two async_writes of the cancel frame are outstanding, and one frame is in the write queue.
abbrev pub Overlaps : Clock → Past → Machine → Type 0
Overlaps clock p n =
    (n.writes_outstanding ≡ 2)
    × (n.wire ≡ (p.wire ++ cancel_frame clock p ∷ []) ++ cancel_frame clock p ∷ [])
    × (n.write_queue ≡ cancel_frame clock p ∷ [])
    × (n.write_in_progress ≡ true)
    × (n.write_delay_active ≡ false)

-- The cancel, its handlers, and the success of the wait that they cancelled.
abbrev pub late_end : Clock → List Input
late_end clock = cancelling clock ++ delay_ends done ∷ []

-- The cancel frame is with async_write.
written : Clock → List CommandWithData → Past → Machine
written clock queue p = record (ready queue p) {
  posted = process command_enqueued ∷ again queue;
  command_queue = with_reset p.sequence_no UptCmd.cancel_command_request queue;
  current_cmd = UptCmd.cancel_command_request;
  sequence_no = (prepare_cmd UptCmd.cancel_command_request no_data clock p.sequence_no).0;
  write_queue = cancel_frame clock p ∷ [];
  write_in_progress = true;
  writes_outstanding = 1;
  wire = p.wire ++ cancel_frame clock p ∷ [];
}
