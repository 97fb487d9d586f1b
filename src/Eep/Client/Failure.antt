-- ===== src/Eep/Client/Failure.antt =====
-- What EEPClient does where a command or the connection fails: handleCommandErrorOrTimeout,
-- notifyConnectionState, clearCommandQueue and beginReconnect.
use linux_pbs.Base.{◌+◌, Bool, true, false, none, List, [], ◌∷◌, length, leb, not, if◌then◌else◌}
use linux_pbs.Eep.CommandType.{CommandType, MsgStatus, send_failed, uses_controller_sequence}
use linux_pbs.Eep.Queue.{Command, pop_all}
use linux_pbs.Eep.Client.State.{
  Client, reconnect_request, process_event, raise, failure, connection_state,
}
use linux_pbs.Eep.Client.Timers.{start_reconnect_timer}

-- The commands whose failure is an event.
unfoldable pub is_reported : CommandType → Bool
is_reported CommandType.unknown_req_cmd = false
is_reported CommandType.ack = false
is_reported CommandType.nak = false
is_reported CommandType.health_status_req_cmd = false
is_reported CommandType.watchdog_req_cmd = false
is_reported CommandType.eep_idle = false
is_reported _ = true

-- One more watchdog without a response; the fourth reconnects.
unfoldable pub count_missed_watchdog : Client → Client
count_missed_watchdog m =
    if leb 4 (m.watchdog_missed_rsp_count + 1)
    then process_event reconnect_request (record m { watchdog_missed_rsp_count = 0 })
    else record m { watchdog_missed_rsp_count = m.watchdog_missed_rsp_count + 1 }

unfoldable pub handle_command_error_or_timeout : CommandType → MsgStatus → Client → Client
unfolding is_reported count_missed_watchdog
handle_command_error_or_timeout CommandType.watchdog_req_cmd status m = count_missed_watchdog m
handle_command_error_or_timeout type status m =
    if is_reported type then raise (failure type status) m else m

abbrev same_state : Bool → Bool → Bool
same_state true b = b
same_state false b = not b

unfoldable pub notify_connection_state : Bool → Client → Client
notify_connection_state connected m =
    if same_state m.last_connection_state connected
    then m
    else raise (connection_state connected) (record m { last_connection_state = connected })

-- The failures of the commands, one after the other.
unfoldable pub fail_all : List Command → Client → Client
unfolding handle_command_error_or_timeout
fail_all [] m = m
fail_all (c ∷ cs) m = fail_all cs (handle_command_error_or_timeout c.type send_failed m)

unfoldable pub clear_command_queue : Client → Client
unfolding fail_all pop_all
clear_command_queue m =
    fail_all (pop_all (length m.command_queue) m.command_queue) (record m { command_queue = [] })

abbrev pub cancel_timers : Client → Client
cancel_timers m = record m {
  connect_timer = false;
  send_timer = false;
  ack_timer = false;
  response_timer = false;
  watchdog_timer = false;
  health_status_timer = false;
}

unfoldable pub fail_active : Bool → Client → Client
unfolding handle_command_error_or_timeout
fail_active false m = m
fail_active true m =
    if uses_controller_sequence m.current_cmd_requested.type
    then handle_command_error_or_timeout m.current_cmd_requested.type send_failed m
    else m

unfoldable pub begin_reconnect : Bool → Client → Client
unfolding fail_active clear_command_queue notify_connection_state
begin_reconnect fail_active_request m =
    let cleared = clear_command_queue (
      fail_active fail_active_request
        (record (cancel_timers m) { expected_response_seq_no = none })) in
    let notified = notify_connection_state false cleared in
    start_reconnect_timer (record notified { closes = notified.closes + 1 })
