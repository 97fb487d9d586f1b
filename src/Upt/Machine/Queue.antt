-- ===== src/Upt/Machine/Queue.antt =====
-- The command queue: enqueueCommand and its part on the I/O thread, checkCommandQueue, and
-- popFromCommandQueueAndEnqueueWrite.
use linux_pbs.Base.{
  ℕ, ◌+◌, ◌%◌, ◌^◌, Bool, true, false, not, ◌&&◌, ◌||◌, List, [], ◌∷◌, ◌++◌, ◌==◌, if◌then◌else◌,
}
use linux_pbs.Upt.Command.{
  UptCmd, CommandData, no_data, CommandWithData, check_cmd, is_reset_sequence_number,
  device_reset_sequence_number_request, last_sequence_no,
}
use linux_pbs.Upt.Prepare.{Clock, prepare_cmd}
use linux_pbs.Upt.Machine.State.{
  State, idle, Machine, command_enqueued, process_event, post, enqueue,
}
use linux_pbs.Upt.Machine.Writer.{enqueue_write}

-- enqueueCommand (front = false) and enqueueCommandToFront (front = true).
unfoldable pub enqueue_command : UptCmd → CommandData → Bool → Machine → Machine
enqueue_command cmd d front m = if m.accepting_work then post (enqueue cmd d front) m else m

abbrev pub is_idle : State → Bool
is_idle idle = true
is_idle _ = false

unfoldable pub announce : List CommandWithData → Machine → Machine
unfolding process_event
announce [] m = m
announce (c ∷ cs) m = process_event command_enqueued m

unfoldable pub check_command_queue : Machine → Machine
unfolding announce
check_command_queue m =
    if m.stopping || not (is_idle m.current_state) then m else announce m.command_queue m

abbrev pub reset_command : CommandWithData
reset_command = record { cmd = device_reset_sequence_number_request; request = no_data }

-- The queue with a reset of the sequence number in front, if the number runs out.
abbrev pub with_reset : ℕ → UptCmd → List CommandWithData → List CommandWithData
with_reset sequence_no cmd queue =
    if ((sequence_no + 1) % 2 ^ 32 == last_sequence_no) && not (is_reset_sequence_number cmd)
    then reset_command ∷ queue
    else queue

abbrev pub insert : Bool → CommandWithData → List CommandWithData → List CommandWithData
insert true c queue = c ∷ queue
insert false c queue = queue ++ c ∷ []

unfoldable pub enqueue_command_on_io_thread : UptCmd → CommandData → Bool → Machine → Machine
unfolding check_cmd check_command_queue
enqueue_command_on_io_thread cmd d front m =
    if m.stopping || not m.port_open
    then m
    else if not (check_cmd cmd)
    then m
    else check_command_queue (record m {
      command_queue =
          insert front (record { cmd = cmd; request = d })
            (with_reset m.sequence_no cmd m.command_queue);
    })

-- The front command's frame goes to the writer; its sequence number is the new one.
unfoldable pub send_front : List CommandWithData → Clock → Machine → Machine
unfolding enqueue_write
send_front [] clock m = m
send_front (c ∷ cs) clock m =
    let (sequence_no, frame) = prepare_cmd c.cmd c.request clock m.sequence_no in
    enqueue_write frame
      (record m { command_queue = cs; current_cmd = c.cmd; sequence_no = sequence_no })

unfoldable pub pop_from_command_queue_and_enqueue_write : Clock → Machine → Machine
unfolding send_front
pop_from_command_queue_and_enqueue_write clock m = send_front m.command_queue clock m
