-- ===== src/Upt/Machine/Events.antt =====
-- Upt::stateTransitionTable, the handlers of its states, and processEvent.
use linux_pbs.Base.{true, false, Option, none, some, if◌then◌else◌}
use linux_pbs.Upt.Status
use linux_pbs.Upt.Command.{UptCmd, no_data}
use linux_pbs.Upt.Prepare.{Clock}
use linux_pbs.Upt.Machine.State.{
  State, idle, sending_request_async, waiting_for_ack, waiting_for_response, Event,
  command_enqueued, write_completed, write_failed, ack_timeout, ack_timer_cancelled_ack_received,
  response_timeout, response_timer_cancelled_rsp_received, cancel_command,
  cancel_command_clean_up_and_enqueue, write_timeout, Post, process, check_queue, enqueue, Machine,
  post, process_event,
}
use linux_pbs.Upt.Machine.Writer.{stop_serial_write_delay_timer}
use linux_pbs.Upt.Machine.Queue.{
  enqueue_command, check_command_queue, enqueue_command_on_io_thread, is_idle,
  pop_from_command_queue_and_enqueue_write,
}
use linux_pbs.Upt.Machine.Failure.{handle_cmd_error_or_timeout}

-- The rows of the table: the next state, or none where the event is ignored.
unfoldable pub transition : State → Event → Option State
transition idle command_enqueued = some sending_request_async
transition idle cancel_command = some idle
transition sending_request_async write_completed = some waiting_for_ack
transition sending_request_async write_failed = some idle
transition sending_request_async cancel_command = some State.cancel_command_request
transition sending_request_async write_timeout = some idle
transition waiting_for_ack ack_timer_cancelled_ack_received = some waiting_for_response
transition waiting_for_ack ack_timeout = some idle
transition waiting_for_ack cancel_command = some State.cancel_command_request
transition waiting_for_response response_timer_cancelled_rsp_received = some idle
transition waiting_for_response response_timeout = some idle
transition waiting_for_response cancel_command = some State.cancel_command_request
transition State.cancel_command_request cancel_command_clean_up_and_enqueue = some idle
transition _ _ = none

handle_idle_state : Clock → Event → Machine → Machine
unfolding pop_from_command_queue_and_enqueue_write enqueue_command
handle_idle_state clock command_enqueued m =
    record (pop_from_command_queue_and_enqueue_write clock m) { serial_write_timer = true }
handle_idle_state clock cancel_command m =
    enqueue_command UptCmd.cancel_command_request no_data true m
handle_idle_state clock _ m = m

handle_sending_request_async_state : Event → Machine → Machine
unfolding handle_cmd_error_or_timeout process_event
handle_sending_request_async_state write_completed m = record m {
  serial_write_timer = false;
  ack_timer = true;
}
handle_sending_request_async_state write_failed m =
    handle_cmd_error_or_timeout m.current_cmd Status.send_failed
      (record m { serial_write_timer = false })
handle_sending_request_async_state cancel_command m =
    process_event cancel_command_clean_up_and_enqueue m
handle_sending_request_async_state write_timeout m =
    handle_cmd_error_or_timeout m.current_cmd Status.send_failed m
handle_sending_request_async_state _ m = m

handle_waiting_for_ack_state : Event → Machine → Machine
unfolding handle_cmd_error_or_timeout process_event
handle_waiting_for_ack_state ack_timer_cancelled_ack_received m = record m { rsp_timer = true }
handle_waiting_for_ack_state ack_timeout m =
    handle_cmd_error_or_timeout m.current_cmd Status.ack_timeout m
handle_waiting_for_ack_state cancel_command m = process_event cancel_command_clean_up_and_enqueue m
handle_waiting_for_ack_state _ m = m

handle_waiting_for_response_state : Event → Machine → Machine
unfolding handle_cmd_error_or_timeout process_event
handle_waiting_for_response_state response_timeout m =
    handle_cmd_error_or_timeout m.current_cmd Status.rsp_timeout m
handle_waiting_for_response_state cancel_command m =
    process_event cancel_command_clean_up_and_enqueue m
handle_waiting_for_response_state _ m = m

handle_cancel_command_request_state : Event → Machine → Machine
unfolding stop_serial_write_delay_timer process_event
handle_cancel_command_request_state cancel_command_clean_up_and_enqueue m =
    process_event cancel_command (
      stop_serial_write_delay_timer
        (record m { ack_timer = false; rsp_timer = false; serial_write_timer = false }))
handle_cancel_command_request_state _ m = m

-- The handler of a state's rows.
unfoldable pub handle_state : State → Clock → Event → Machine → Machine
unfolding handle_idle_state handle_sending_request_async_state handle_waiting_for_ack_state
    handle_waiting_for_response_state handle_cancel_command_request_state
handle_state idle clock e m = handle_idle_state clock e m
handle_state sending_request_async clock e m = handle_sending_request_async_state e m
handle_state waiting_for_ack clock e m = handle_waiting_for_ack_state e m
handle_state waiting_for_response clock e m = handle_waiting_for_response_state e m
handle_state State.cancel_command_request clock e m = handle_cancel_command_request_state e m

-- The new state is set after the handler; a machine that is idle looks at its queue again.
unfoldable pub enter : State → Machine → Machine
enter s m =
    if is_idle s
    then post check_queue (record m { current_state = s })
    else record m { current_state = s }

unfoldable pub follow : Option State → Clock → Event → Machine → Machine
unfolding handle_state enter
follow none clock e m = m
follow (some s) clock e m = enter s (handle_state m.current_state clock e m)

-- The posted part of Upt::processEvent.
unfoldable pub run_event : Clock → Event → Machine → Machine
unfolding transition follow
run_event clock e m = if m.stopping then m else follow (transition m.current_state e) clock e m

-- The handler that is posted, when its turn comes.
unfoldable pub run_post : Clock → Post → Machine → Machine
unfolding run_event check_command_queue enqueue_command_on_io_thread
run_post clock (process e) m = run_event clock e m
run_post clock check_queue m = check_command_queue m
run_post clock (enqueue cmd d front) m = enqueue_command_on_io_thread cmd d front m
