-- ===== src/Eep/Client/Sound/Failures.antt =====
-- What the EEP client does on failures keeps it sound.
use linux_pbs.Base.{◌+◌, Bool, true, false, not, ◌||◌, none, List, [], ◌∷◌, length, if-both, leb}
use linux_pbs.Eep.CommandType.{CommandType, MsgStatus, send_failed, uses_controller_sequence}
use linux_pbs.Eep.Queue.{Command, pop_all}
use linux_pbs.Eep.Client.State.{
  Event, write_command, reconnect_request, raise, connection_state, process, Client, process_event,
}
use linux_pbs.Eep.Client.Failure.{
  is_reported, count_missed_watchdog, handle_command_error_or_timeout, notify_connection_state,
  fail_all, clear_command_queue, cancel_timers, fail_active, begin_reconnect,
}
use linux_pbs.Eep.Client.Dispatch.{is_connected_state, announce, check_command_queue}
use linux_pbs.Eep.Client.Sound.{Sound, post-Sound}

pub process_event-Sound : (e : Event) (m : Client) → Sound m → Sound (process_event e m)
process_event-Sound e m v = post-Sound (process e) m tt v

pub handle_command_error_or_timeout-Sound :
    (type : CommandType) (status : MsgStatus) (m : Client)
    → Sound m
    → Sound (handle_command_error_or_timeout type status m)
unfolding handle_command_error_or_timeout is_reported count_missed_watchdog
handle_command_error_or_timeout-Sound CommandType.watchdog_req_cmd status m v =
    if-both Sound (leb 4 (m.watchdog_missed_rsp_count + 1))
      {no_value = record m { watchdog_missed_rsp_count = m.watchdog_missed_rsp_count + 1 }}
      (process_event-Sound reconnect_request (record m { watchdog_missed_rsp_count = 0 }) v) v
handle_command_error_or_timeout-Sound type status m v = v

pub notify_connection_state-Sound :
    (b : Bool) (m : Client) → Sound m → Sound (notify_connection_state b m)
unfolding notify_connection_state
notify_connection_state-Sound b m v =
    if-both Sound _ {yes_value = m}
      {no_value = raise (connection_state b) (record m { last_connection_state = b })} v v

announce-Sound : (queue : List Command) (m : Client) → Sound m → Sound (announce queue m)
announce-Sound [] m v = v
announce-Sound (c ∷ cs) m v = process_event-Sound write_command m v

pub check_command_queue-Sound : (m : Client) → Sound m → Sound (check_command_queue m)
unfolding check_command_queue
check_command_queue-Sound m v =
    if-both Sound (m.stopping || not (is_connected_state m.current_state)) v
      (announce-Sound m.command_queue m v)

fail_all-Sound : (cs : List Command) (m : Client) → Sound m → Sound (fail_all cs m)
unfolding fail_all
fail_all-Sound [] m v = v
fail_all-Sound (c ∷ cs) m v =
    fail_all-Sound cs (handle_command_error_or_timeout c.type send_failed m)
      (handle_command_error_or_timeout-Sound c.type send_failed m v)

fail_active-Sound : (active : Bool) (m : Client) → Sound m → Sound (fail_active active m)
unfolding fail_active
fail_active-Sound false m v = v
fail_active-Sound true m v =
    if-both Sound (uses_controller_sequence m.current_cmd_requested.type)
      (handle_command_error_or_timeout-Sound m.current_cmd_requested.type send_failed m v) v

clear_command_queue-Sound : (m : Client) → Sound m → Sound (clear_command_queue m)
unfolding clear_command_queue
clear_command_queue-Sound m (s, q, p, f) =
    fail_all-Sound (pop_all (length m.command_queue) m.command_queue)
      (record m { command_queue = [] }) (s, tt, p, f)

pub begin_reconnect-Sound :
    (active : Bool) (m : Client) → Sound m → Sound (begin_reconnect active m)
unfolding begin_reconnect
begin_reconnect-Sound active m v =
    if-both Sound notified.stopping {yes_value = record notified { closes = notified.closes + 1 }}
      {no_value = record notified { closes = notified.closes + 1; reconnect_timer = true }} sound
      sound
  where
    first : Client
    first = record (cancel_timers m) { expected_response_seq_no = none }

    notified : Client
    notified = notify_connection_state false (clear_command_queue (fail_active active first))

    sound : Sound notified
    sound =
        notify_connection_state-Sound false (clear_command_queue (fail_active active first))
          (clear_command_queue-Sound (fail_active active first) (fail_active-Sound active first v))
