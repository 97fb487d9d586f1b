-- ===== src/Eep/Client/Sound/Handlers.antt =====
-- The handlers of the EEP client send, queue and post only what fits.
use linux_pbs.Base.{
  ℕ, ◌+◌, ◌%◌, ◌^◌, true, false, not, Option, none, some, List, [], ◌∷◌, ◌++◌, All, All-append,
  arith, if-both, if◌then◌else◌,
}
use linux_pbs.Eep.Priority
use linux_pbs.Eep.CommandType.{
  CommandType, MsgStatus, send_failed, rsp_timeout, uses_controller_sequence,
}
use linux_pbs.Eep.CommandData.{CommandData, null}
use linux_pbs.Eep.CommandData.Sizes.{Fits, no_data}
use linux_pbs.Eep.Prepare.{prepare_cmd}
use linux_pbs.Eep.Queue.{Command, pop}
use linux_pbs.Eep.Queue.Order.{pop_first-All}
use linux_pbs.Eep.Client.State.{
  State, idle, connecting, connected, writing_request, waiting_for_response, Event, connect,
  connect_success, connect_fail, check_command, write_command, write_completed, write_timeout,
  ack_timer_cancelled_ack_received, ack_timeout, response_timeout, reconnect_request,
  unsolicited_request_done, Post, process, check_queue, enqueue, fail, Client, post, process_event,
  enqueue_command,
}
use linux_pbs.Eep.Client.Timers.{start_watchdog_timer, start_health_status_timer}
use linux_pbs.Eep.Client.Failure.{notify_connection_state}
use linux_pbs.Eep.Client.Dispatch.{
  is_connected_state, enqueue_command_on_io_thread, fail_on_io_thread, set_current,
  take_sequence_no, send_prepared, send_top, pop_from_command_queue_and_enqueue_write,
}
use linux_pbs.Eep.Client.Events.{
  transition, handle_idle_state, handle_connecting_state, handle_connected_state,
  handle_writing_request_state, handle_waiting_for_response_state, handle_state, enter, follow,
  run_event, run_post,
}
use linux_pbs.Eep.Client.Sound.Failures.{
  process_event-Sound, handle_command_error_or_timeout-Sound, notify_connection_state-Sound,
  check_command_queue-Sound, begin_reconnect-Sound,
}
use linux_pbs.Eep.Client.Sound.{
  IsAccepted, AcceptedIf, prepare_cmd-AcceptedIf, Fitting, PostFits, Sound, post-Sound,
  enqueue_command-Sound,
}

set_current-Sound : (c : Command) (m : Client) → Sound m → Sound (set_current c m)
unfolding set_current
set_current-Sound c m v =
    if-both Sound (uses_controller_sequence c.type)
      {yes_value = record m { current_cmd = c; current_cmd_requested = c }}
      {no_value = record m { current_cmd = c }} v v

take_sequence_no-Sound :
    (type : CommandType) (m : Client) → Sound m → Sound (take_sequence_no type m)
unfolding take_sequence_no
take_sequence_no-Sound type m v =
    if-both Sound (uses_controller_sequence type)
      {yes_value = record m {
        expected_response_seq_no = some m.sequence_no;
        sequence_no = (m.sequence_no + 1) % 65536;
      }}
      {no_value = m} (omega arith, v.1, v.2, v.3) v

send_prepared-Sound :
    (type : CommandType) (frame : Option (List ℕ)) (m : Client)
    → AcceptedIf frame
    → Sound m
    → Sound (send_prepared type frame m)
unfolding send_prepared
send_prepared-Sound type none m h v = process_event-Sound write_timeout m v
send_prepared-Sound type (some frame) m h v =
    if-both Sound taken.stopping {yes_value = taken}
      {no_value = record taken { sent = taken.sent ++ frame ∷ [] }} sound
      (sound.0, sound.1, sound.2, All-append IsAccepted taken.sent (frame ∷ []) sound.3 (h, tt))
  where
    taken : Client
    taken = take_sequence_no type m

    sound : Sound taken
    sound = take_sequence_no-Sound type m v

PopFits : Option (Command × List Command) → Type 0
PopFits none = Unit
PopFits (some (c, rest)) = Fitting c × All Fitting rest

pop-PopFits : (queue : List Command) → All Fitting queue → PopFits (pop queue)
unfolding pop PopFits
pop-PopFits [] h = tt
pop-PopFits (c ∷ cs) h = pop_first-All Fitting c cs h.0 h.1

send_top-Sound :
    (o : Option (Command × List Command)) (m : Client) → PopFits o → Sound m → Sound (send_top o m)
unfolding send_top PopFits
send_top-Sound none m h v = v
send_top-Sound (some (c, rest)) m h (s, q, p, f) =
    send_prepared-Sound c.type (prepare_cmd m.endpoint m.clock c.type c.cmd_data m.sequence_no)
      (set_current c (record m { command_queue = rest }))
      (prepare_cmd-AcceptedIf m.endpoint m.clock c.type c.cmd_data m.sequence_no h.0 s)
      (set_current-Sound c (record m { command_queue = rest }) (s, h.1, p, f))

pop_from_command_queue-Sound :
    (m : Client) → Sound m → Sound (pop_from_command_queue_and_enqueue_write m)
unfolding pop_from_command_queue_and_enqueue_write
pop_from_command_queue-Sound m v =
    send_top-Sound (pop m.command_queue) m (pop-PopFits m.command_queue v.1) v

pub enqueue_command_on_io_thread-Sound :
    (type : CommandType) (priority : ℕ) (d : CommandData) (m : Client)
    → Fits type d
    → Sound m
    → Sound (enqueue_command_on_io_thread type priority d m)
unfolding enqueue_command_on_io_thread
enqueue_command_on_io_thread-Sound type priority d m h (s, q, p, f) =
    if-both Sound m.stopping (s, q, p, f)
      (if-both Sound m.is_connected
        (check_command_queue-Sound (record counted { command_queue = m.command_queue ++ c ∷ [] })
          (s, All-append Fitting m.command_queue (c ∷ []) q (h, tt), p, f))
        (handle_command_error_or_timeout-Sound type send_failed counted (s, q, p, f)))
  where
    counted : Client
    counted = record m { command_sequence = (m.command_sequence + 1) % 2 ^ 64 }

    c : Command
    c = record { type = type; priority = priority; sequence = m.command_sequence; cmd_data = d }

pub start_watchdog_timer-Sound : (m : Client) → Sound m → Sound (start_watchdog_timer m)
unfolding start_watchdog_timer
start_watchdog_timer-Sound m v =
    if-both Sound m.stopping {yes_value = m} {no_value = record asked { watchdog_timer = true }} v
      (enqueue_command-Sound CommandType.watchdog_req_cmd Priority.watchdog null m (no_data _) v)
  where
    asked : Client
    asked = enqueue_command CommandType.watchdog_req_cmd Priority.watchdog null m

pub start_health_status_timer-Sound : (m : Client) → Sound m → Sound (start_health_status_timer m)
unfolding start_health_status_timer
start_health_status_timer-Sound m v =
    if-both Sound m.stopping {yes_value = m}
      {no_value = record asked { health_status_timer = true }} v
      (enqueue_command-Sound CommandType.health_status_req_cmd Priority.health_status null m
        (no_data _) v)
  where
    asked : Client
    asked = enqueue_command CommandType.health_status_req_cmd Priority.health_status null m

handle_connecting_state-Sound :
    (e : Event) (m : Client) → Sound m → Sound (handle_connecting_state e m)
unfolding handle_connecting_state
handle_connecting_state-Sound connect_success m v =
    process_event-Sound check_command (start_watchdog_timer healthy) (
      start_watchdog_timer-Sound healthy (
        start_health_status_timer-Sound asked (
          enqueue_command-Sound CommandType.start_req_cmd Priority.start null notified (no_data _)
            (notify_connection_state-Sound true m v))))
  where
    notified : Client
    notified = notify_connection_state true m

    asked : Client
    asked = enqueue_command CommandType.start_req_cmd Priority.start null notified

    healthy : Client
    healthy = start_health_status_timer asked
handle_connecting_state-Sound connect_fail m v =
    if-both Sound notified.stopping {yes_value = notified}
      {no_value = record notified { reconnect_timer = true }} sound sound
  where
    notified : Client
    notified = notify_connection_state false m

    sound : Sound notified
    sound = notify_connection_state-Sound false m v
handle_connecting_state-Sound _ m v = v

handle_connected_state-Sound :
    (e : Event) (m : Client) → Sound m → Sound (handle_connected_state e m)
unfolding handle_connected_state
handle_connected_state-Sound check_command m v =
    if-both Sound (not m.is_connected) (process_event-Sound reconnect_request m v)
      (check_command_queue-Sound m v)
handle_connected_state-Sound write_command m v =
    if-both Sound (not m.is_connected) (process_event-Sound reconnect_request m v) (
      if-both Sound popped.stopping {yes_value = popped}
        {no_value = record popped { send_timer = true }} sound sound)
  where
    popped : Client
    popped = pop_from_command_queue_and_enqueue_write m

    sound : Sound popped
    sound = pop_from_command_queue-Sound m v
handle_connected_state-Sound reconnect_request m v = begin_reconnect-Sound false m v
handle_connected_state-Sound _ m v = v

lost-Sound :
    (m : Client)
    → Sound m
    → Sound (if not m.is_connected then process_event reconnect_request m else m)
lost-Sound m v = if-both Sound (not m.is_connected) (process_event-Sound reconnect_request m v) v

handle_writing_request_state-Sound :
    (e : Event) (m : Client) → Sound m → Sound (handle_writing_request_state e m)
unfolding handle_writing_request_state
handle_writing_request_state-Sound write_completed m v =
    if-both Sound (not (uses_controller_sequence m.current_cmd.type))
      (process_event-Sound unsolicited_request_done m v)
      (if-both Sound m.stopping {yes_value = m} {no_value = record m { ack_timer = true }} v v)
handle_writing_request_state-Sound write_timeout m v =
    handle_command_error_or_timeout-Sound m.current_cmd_requested.type send_failed
      (if not m.is_connected then process_event reconnect_request m else m) (lost-Sound m v)
handle_writing_request_state-Sound reconnect_request m v = begin_reconnect-Sound true m v
handle_writing_request_state-Sound _ m v = v

handle_waiting_for_response_state-Sound :
    (e : Event) (m : Client) → Sound m → Sound (handle_waiting_for_response_state e m)
unfolding handle_waiting_for_response_state
handle_waiting_for_response_state-Sound ack_timer_cancelled_ack_received m v =
    if-both Sound m.stopping {yes_value = m} {no_value = record m { response_timer = true }} v v
handle_waiting_for_response_state-Sound ack_timeout m v =
    handle_command_error_or_timeout-Sound m.current_cmd_requested.type MsgStatus.ack_timeout
      (record m { expected_response_seq_no = none }) v
handle_waiting_for_response_state-Sound response_timeout m v =
    handle_command_error_or_timeout-Sound m.current_cmd_requested.type rsp_timeout
      (if not m.is_connected then process_event reconnect_request reset else reset)
      (lost-Sound reset v)
  where
    reset : Client
    reset = record m { expected_response_seq_no = none }
handle_waiting_for_response_state-Sound reconnect_request m v = begin_reconnect-Sound true m v
handle_waiting_for_response_state-Sound _ m v = v

handle_idle_state-Sound : (e : Event) (m : Client) → Sound m → Sound (handle_idle_state e m)
unfolding handle_idle_state
handle_idle_state-Sound connect m v =
    if-both Sound dialled.stopping {yes_value = dialled}
      {no_value = record dialled { connect_timer = true }} sound sound
  where
    dialled : Client
    dialled = if m.stopping then m else record m { connects = m.connects + 1 }

    sound : Sound dialled
    sound =
        if-both Sound m.stopping {yes_value = m} {no_value = record m { connects = m.connects + 1 }}
          v v
handle_idle_state-Sound _ m v = v

handle_state-Sound : (s : State) (e : Event) (m : Client) → Sound m → Sound (handle_state s e m)
unfolding handle_state
handle_state-Sound idle e m v = handle_idle_state-Sound e m v
handle_state-Sound connecting e m v = handle_connecting_state-Sound e m v
handle_state-Sound connected e m v = handle_connected_state-Sound e m v
handle_state-Sound writing_request e m v = handle_writing_request_state-Sound e m v
handle_state-Sound waiting_for_response e m v = handle_waiting_for_response_state-Sound e m v

follow-Sound : (o : Option State) (e : Event) (m : Client) → Sound m → Sound (follow o e m)
unfolding follow enter
follow-Sound none e m v = v
follow-Sound (some s) e m v =
    if-both Sound (is_connected_state s)
      {yes_value = post check_queue (record handled { current_state = s })}
      {no_value = record handled { current_state = s }}
      (post-Sound check_queue (record handled { current_state = s }) tt sound) sound
  where
    handled : Client
    handled = handle_state m.current_state e m

    sound : Sound handled
    sound = handle_state-Sound m.current_state e m v

pub run_post-Sound : (p : Post) (m : Client) → PostFits p → Sound m → Sound (run_post p m)
unfolding run_post run_event fail_on_io_thread
run_post-Sound (process e) m h v =
    if-both Sound m.stopping v (follow-Sound (transition m.current_state e) e m v)
run_post-Sound check_queue m h v = check_command_queue-Sound m v
run_post-Sound (enqueue type priority d) m h v =
    enqueue_command_on_io_thread-Sound type priority d m h v
run_post-Sound (fail type status) m h v =
    if-both Sound m.stopping v (handle_command_error_or_timeout-Sound type status m v)
