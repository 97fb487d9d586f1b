-- ===== src/Eep/Client/Events.antt =====
-- EEPClient::stateTransitionTable, the handlers of its states, and processEvent.
use linux_pbs.Base.{◌+◌, true, false, not, Option, none, some, if◌then◌else◌}
use linux_pbs.Eep.Priority
use linux_pbs.Eep.CommandType.{
  start_req_cmd, MsgStatus, send_failed, rsp_timeout, uses_controller_sequence,
}
use linux_pbs.Eep.CommandData.{null}
use linux_pbs.Eep.Client.State.{
  State, idle, connecting, connected, writing_request, waiting_for_response, Event, connect,
  connect_success, connect_fail, check_command, write_command, write_completed, write_timeout,
  ack_timer_cancelled_ack_received, ack_as_rsp_received, ack_timeout,
  response_timer_cancelled_rsp_received, response_timeout, reconnect_request,
  unsolicited_request_done, Post, process, check_queue, enqueue, fail, Client, post, process_event,
  enqueue_command,
}
use linux_pbs.Eep.Client.Timers.{
  start_reconnect_timer, start_connect_timer, start_send_timer, start_response_timer,
  start_ack_timer, start_watchdog_timer, start_health_status_timer,
}
use linux_pbs.Eep.Client.Failure.{
  handle_command_error_or_timeout, notify_connection_state, begin_reconnect,
}
use linux_pbs.Eep.Client.Dispatch.{
  is_connected_state, check_command_queue, enqueue_command_on_io_thread, fail_on_io_thread,
  pop_from_command_queue_and_enqueue_write,
}

-- The rows of the table: the next state, or none where the event is ignored.
unfoldable pub transition : State → Event → Option State
transition idle connect = some connecting
transition connecting connect_success = some connected
transition connecting connect_fail = some idle
transition connected check_command = some connected
transition connected write_command = some writing_request
transition connected reconnect_request = some idle
transition writing_request write_completed = some waiting_for_response
transition writing_request write_timeout = some connected
transition writing_request reconnect_request = some idle
transition waiting_for_response ack_timer_cancelled_ack_received = some waiting_for_response
transition waiting_for_response ack_as_rsp_received = some connected
transition waiting_for_response ack_timeout = some connected
transition waiting_for_response response_timer_cancelled_rsp_received = some connected
transition waiting_for_response response_timeout = some connected
transition waiting_for_response reconnect_request = some idle
transition waiting_for_response unsolicited_request_done = some connected
transition _ _ = none

-- EEPClient::eepClientConnect.
abbrev eep_client_connect : Client → Client
eep_client_connect m = if m.stopping then m else record m { connects = m.connects + 1 }

unfoldable pub handle_idle_state : Event → Client → Client
handle_idle_state connect m = start_connect_timer (eep_client_connect m)
handle_idle_state _ m = m

unfoldable pub handle_connecting_state : Event → Client → Client
unfolding notify_connection_state enqueue_command start_watchdog_timer start_health_status_timer
handle_connecting_state connect_success m = process_event check_command (
    start_watchdog_timer (
      start_health_status_timer
        (enqueue_command start_req_cmd Priority.start null (notify_connection_state true m))))
handle_connecting_state connect_fail m = start_reconnect_timer (notify_connection_state false m)
handle_connecting_state _ m = m

unfoldable pub handle_connected_state : Event → Client → Client
unfolding check_command_queue pop_from_command_queue_and_enqueue_write begin_reconnect
handle_connected_state check_command m =
    if not m.is_connected then process_event reconnect_request m else check_command_queue m
handle_connected_state write_command m =
    if not m.is_connected
    then process_event reconnect_request m
    else start_send_timer (pop_from_command_queue_and_enqueue_write m)
handle_connected_state reconnect_request m = begin_reconnect false m
handle_connected_state _ m = m

abbrev pub reconnect_if_lost : Client → Client
reconnect_if_lost m = if not m.is_connected then process_event reconnect_request m else m

unfoldable pub handle_writing_request_state : Event → Client → Client
unfolding handle_command_error_or_timeout begin_reconnect
handle_writing_request_state write_completed m =
    if not (uses_controller_sequence m.current_cmd.type)
    then process_event unsolicited_request_done m
    else start_ack_timer m
handle_writing_request_state write_timeout m =
    handle_command_error_or_timeout m.current_cmd_requested.type send_failed (reconnect_if_lost m)
handle_writing_request_state reconnect_request m = begin_reconnect true m
handle_writing_request_state _ m = m

unfoldable pub handle_waiting_for_response_state : Event → Client → Client
unfolding handle_command_error_or_timeout begin_reconnect
handle_waiting_for_response_state ack_timer_cancelled_ack_received m = start_response_timer m
handle_waiting_for_response_state ack_timeout m =
    handle_command_error_or_timeout m.current_cmd_requested.type MsgStatus.ack_timeout
      (record m { expected_response_seq_no = none })
handle_waiting_for_response_state response_timeout m =
    handle_command_error_or_timeout m.current_cmd_requested.type rsp_timeout
      (reconnect_if_lost (record m { expected_response_seq_no = none }))
handle_waiting_for_response_state reconnect_request m = begin_reconnect true m
handle_waiting_for_response_state _ m = m

-- The handler of a state's rows.
unfoldable pub handle_state : State → Event → Client → Client
unfolding handle_idle_state handle_connecting_state handle_connected_state
    handle_writing_request_state handle_waiting_for_response_state
handle_state idle e m = handle_idle_state e m
handle_state connecting e m = handle_connecting_state e m
handle_state connected e m = handle_connected_state e m
handle_state writing_request e m = handle_writing_request_state e m
handle_state waiting_for_response e m = handle_waiting_for_response_state e m

-- The new state is set after the handler; a client that is connected looks at its queue again.
unfoldable pub enter : State → Client → Client
enter s m =
    if is_connected_state s
    then post check_queue (record m { current_state = s })
    else record m { current_state = s }

unfoldable pub follow : Option State → Event → Client → Client
unfolding handle_state enter
follow none e m = m
follow (some s) e m = enter s (handle_state m.current_state e m)

-- The posted part of processEvent.
unfoldable pub run_event : Event → Client → Client
unfolding transition follow
run_event e m = if m.stopping then m else follow (transition m.current_state e) e m

-- The handler that is posted, when its turn comes.
unfoldable pub run_post : Post → Client → Client
unfolding run_event check_command_queue enqueue_command_on_io_thread fail_on_io_thread
run_post (process e) m = run_event e m
run_post check_queue m = check_command_queue m
run_post (enqueue type priority d) m = enqueue_command_on_io_thread type priority d m
run_post (fail type status) m = fail_on_io_thread type status m
