-- ===== src/Eep/Client/Alive/Reception.antt =====
-- The EEP client stays alive over its queue's handlers and what it receives.
use linux_pbs.Base.{
  ℕ, ◌+◌, ◌%◌, ◌^◌, Bool, true, false, not, ◌&&◌, ◌||◌, ◌≡◌, refl, subst, Option, none, some, List,
  [], ◌∷◌, if-both, if-by, if◌then◌else◌, ◌==◌, ltb, length, take, drop,
}
use linux_pbs.Bytes.{from_le}
use linux_pbs.Eep.MessageCode
use linux_pbs.Eep.CommandType.{CommandType, send_failed}
use linux_pbs.Eep.CommandData.{CommandData}
use linux_pbs.Eep.Frame.{MessageHeader, is_valid_check_sum, without_check_sum, parse_message}
use linux_pbs.Eep.Queue.{Command}
use linux_pbs.Eep.Client.State.{
  State, idle, connecting, connected, writing_request, waiting_for_response,
  response_timer_cancelled_rsp_received, write_command, reconnect_request, raise, response,
  unfilled, notification, Post, process, check_queue, Client, process_event,
}
use linux_pbs.Eep.Client.Failure.{handle_command_error_or_timeout}
use linux_pbs.Eep.Client.Dispatch.{
  is_connected_state, announce, check_command_queue, enqueue_command_on_io_thread,
}
use linux_pbs.Eep.Client.Inputs.{Timer}
use linux_pbs.Eep.Client.Match.{
  is_response_matched_data_type_code, is_response_notification_complete,
  does_cmd_require_notification, is_notification_received,
}
use linux_pbs.Eep.Client.Receive.{
  send_ack, send_nak, handle_invalid_message, body_size, raise_response, health_status,
  handle_parsed_response_message, notification_size, notified_cmd,
  handle_parsed_notification_message, is_valid_source_destination, is_expected, accept_response,
  accept_notification, receive_message, receive_parsed, handle_received_data,
}
use linux_pbs.Eep.Client.Alive.{
  AliveAt, Alive, stopped, waits, wakes, Extends, Extends-refl, Extends-trans, Extends-post,
  AliveAt-Extends, AliveAt-map, at_state, ends-Alive, Alive-Extends, AliveAt-post,
}
use linux_pbs.Eep.Client.Alive.Rows.{first-done}
use linux_pbs.Eep.Client.Alive.Steps.{
  enqueue_command-Extends, handle_command_error_or_timeout-Extends, check_command_queue-Extends,
}

announced : (q : List Command) (m : Client) → m.command_queue ≡ q → AliveAt connected (announce q m)
unfolding wakes
announced [] m e = waits (rw e refl)
announced (c ∷ cs) m e = AliveAt-post connected (process write_command) m refl

or-false : (a : Bool) → (a || false) ≡ true → a ≡ true
or-false true h = h
or-false false h = h

-- A look at the queue finds it empty, or announces a command.
check_connected :
    (m : Client) → m.current_state ≡ connected → AliveAt connected (check_command_queue m)
unfolding check_command_queue
check_connected m e =
    if-by (AliveAt connected) (m.stopping || not (is_connected_state m.current_state))
      (λ h.
        stopped (
          or-false m.stopping (subst (λ s. (m.stopping || not (is_connected_state s)) ≡ true) e h)))
      (λ h. announced m.command_queue m refl)

look_past :
    (s : State) (ps : List Post) (m : Client)
    → AliveAt s (record m { posted = ps })
    → AliveAt s (check_command_queue (record m { posted = ps }))
look_past s ps m a =
    AliveAt-Extends s (record m { posted = ps }) (check_command_queue (record m { posted = ps }))
      (check_command_queue-Extends (record m { posted = ps })) a

look_at :
    (s : State) (ps : List Post) (m : Client)
    → m.current_state ≡ s
    → AliveAt s (record m { posted = check_queue ∷ ps })
    → AliveAt s (check_command_queue (record m { posted = ps }))
unfolding wakes
look_at connected ps m e a = check_connected (record m { posted = ps }) e
look_at idle ps m e a = look_past idle ps m (first-done idle check_queue ps m refl a)
look_at connecting ps m e a =
    look_past connecting ps m (first-done connecting check_queue ps m refl a)
look_at writing_request ps m e a =
    look_past writing_request ps m (first-done writing_request check_queue ps m refl a)
look_at waiting_for_response ps m e a =
    look_past waiting_for_response ps m (first-done waiting_for_response check_queue ps m refl a)

pub check_command_queue-Alive :
    (ps : List Post) (m : Client)
    → Alive (record m { posted = check_queue ∷ ps })
    → Alive (check_command_queue (record m { posted = ps }))
check_command_queue-Alive ps m a =
    at_state m (check_command_queue (record m { posted = ps }))
      (check_command_queue-Extends (record m { posted = ps })).1
      (look_at m.current_state ps m refl a)

-- A command more in the queue.
pushed_at :
    (s : State) (queue : List Command) (m : Client)
    → m.current_state ≡ s
    → AliveAt s m
    → AliveAt s (check_command_queue (record m { command_queue = queue }))
pushed_at connected queue m e a = check_connected (record m { command_queue = queue }) e
pushed_at s queue m e a =
    AliveAt-Extends s (record m { command_queue = queue })
      (check_command_queue (record m { command_queue = queue }))
      (check_command_queue-Extends (record m { command_queue = queue }))
      (AliveAt-map s m (record m { command_queue = queue }) (λ h. h) (λ h. h) (λ h. h) a)

pushed-Alive :
    (queue : List Command) (m : Client)
    → Alive m
    → Alive (check_command_queue (record m { command_queue = queue }))
pushed-Alive queue m a =
    at_state m (check_command_queue (record m { command_queue = queue }))
      (check_command_queue-Extends (record m { command_queue = queue })).1
      (pushed_at m.current_state queue m refl a)

counted-Alive : (n : ℕ) (m : Client) → Alive m → Alive (record m { command_sequence = n })
counted-Alive n m a = Alive-Extends m (record m { command_sequence = n }) (Extends-refl m) a

pub enqueue_command_on_io_thread-Alive :
    (type : CommandType) (priority : ℕ) (d : CommandData) (m : Client)
    → Alive m
    → Alive (enqueue_command_on_io_thread type priority d m)
unfolding enqueue_command_on_io_thread
enqueue_command_on_io_thread-Alive type priority d m a = if-both Alive m.stopping a (
    if-both Alive m.is_connected (pushed-Alive _ counted (counted-Alive _ m a)) (
      Alive-Extends counted (handle_command_error_or_timeout type send_failed counted)
        (handle_command_error_or_timeout-Extends type send_failed counted) (counted-Alive _ m a)))
  where
    counted : Client
    counted = record m { command_sequence = (m.command_sequence + 1) % 2 ^ 64 }

send_ack-Extends : (seq_no code : ℕ) (m : Client) → Extends m (send_ack seq_no code m)
unfolding send_ack
send_ack-Extends seq_no code m = enqueue_command-Extends _ _ _ m

handle_invalid_message-Extends :
    (frame : List ℕ) (reason : ℕ) (m : Client) → Extends m (handle_invalid_message frame reason m)
unfolding handle_invalid_message send_nak
handle_invalid_message-Extends
      (d0 ∷ d1 ∷ d2 ∷ d3 ∷ d4 ∷ d5 ∷ d6 ∷ d7 ∷ d8 ∷ d9 ∷ d10 ∷ d11 ∷ d12 ∷ d13 ∷ d14 ∷ d15 ∷ rest)
      reason m =
    enqueue_command-Extends _ _ _ m
handle_invalid_message-Extends _ reason m = Extends-refl m

raise_response-Extends :
    (size : Option ℕ) (header : MessageHeader) (body : List ℕ) (m : Client)
    → Extends m (raise_response size header body m)
unfolding raise_response
raise_response-Extends none header body m = Extends-refl m
raise_response-Extends (some n) header body m =
    if-both (Extends m) (ltb (length body) n) {yes_value = raise unfilled m}
      {no_value = raise (response m.current_cmd_requested.type header body) m} (Extends-refl m)
      (Extends-refl m)

health_status-Extends : (body frame : List ℕ) (m : Client) → Extends m (health_status body frame m)
unfolding health_status
health_status-Extends body frame m =
    if-both (Extends m) (ltb (length body) 64) {yes_value = raise unfilled m}
      {no_value = record m {
        endpoint = record m.endpoint { carpark_id = from_le (take 2 (drop 6 body)) };
        status_data = frame;
      }}
      (Extends-refl m) (Extends-refl m)

handle_parsed_response_message-Extends :
    (header : MessageHeader) (body frame : List ℕ) (m : Client)
    → Extends m (handle_parsed_response_message header body frame m)
unfolding handle_parsed_response_message
handle_parsed_response_message-Extends header body frame m =
    if-both (Extends m) (header.data_type_code == MessageCode.watchdog_response)
      {yes_value = record m { watchdog_missed_rsp_count = 0 }} (Extends-refl m)
      (if-both (Extends m) (header.data_type_code == MessageCode.health_status_response)
        (health_status-Extends body frame m)
        (raise_response-Extends (body_size header.data_type_code) header body m))

handle_parsed_notification_message-Extends :
    (header : MessageHeader) (body : List ℕ) (m : Client)
    → Extends m (handle_parsed_notification_message header body m)
unfolding handle_parsed_notification_message
handle_parsed_notification_message-Extends header body m =
    if-both (Extends m) (ltb (length body) (notification_size header.data_type_code))
      {yes_value = raise unfilled m}
      {no_value = raise
        (notification (notified_cmd m.current_cmd_requested.type header.data_type_code) header body)
        m}
      (Extends-refl m) (Extends-refl m)

accept_response-Alive :
    (header : MessageHeader) (body frame : List ℕ) (m : Client)
    → Alive m
    → Alive (accept_response header body frame m)
unfolding accept_response wakes
accept_response-Alive header body frame m a =
    ends-Alive Timer.ack _ m (record handled { expected_response_seq_no = none })
      (if-both (λ e. wakes waiting_for_response (process e) ≡ true)
        ((header.data_type_code == MessageCode.ack)
          && does_cmd_require_notification m.current_cmd_requested.type)
        refl refl)
      (handle_parsed_response_message-Extends header body frame (record m { ack_timer = false }))
      refl a
  where
    handled : Client
    handled = handle_parsed_response_message header body frame (record m { ack_timer = false })

completed-Alive :
    (m : Client)
    → Alive m
    → Alive
        (process_event response_timer_cancelled_rsp_received (record m { response_timer = false }))
unfolding wakes
completed-Alive m a =
    ends-Alive Timer.response response_timer_cancelled_rsp_received m
      (record m { response_timer = false }) refl
      (Extends-refl (record m { response_timer = false })) refl a

accept_notification-Alive :
    (header : MessageHeader) (body : List ℕ) (m : Client)
    → Alive m
    → Alive (accept_notification header body m)
unfolding accept_notification
accept_notification-Alive header body m a =
    Alive-Extends completed (send_ack header.seq_no header.data_type_code handled)
      (Extends-trans completed handled (send_ack header.seq_no header.data_type_code handled)
        (handle_parsed_notification_message-Extends header body completed)
        (send_ack-Extends header.seq_no header.data_type_code handled))
      (if-both Alive
        (is_response_notification_complete m.current_cmd_requested.type header.data_type_code)
        (completed-Alive m a) a)
  where
    completed : Client
    completed =
        if is_response_notification_complete m.current_cmd_requested.type header.data_type_code
        then process_event response_timer_cancelled_rsp_received
            (record m { response_timer = false })
        else m

    handled : Client
    handled = handle_parsed_notification_message header body completed

invalid-Alive :
    (frame : List ℕ) (reason : ℕ) (m : Client)
    → Alive m
    → Alive (handle_invalid_message frame reason m)
invalid-Alive frame reason m a =
    Alive-Extends m (handle_invalid_message frame reason m)
      (handle_invalid_message-Extends frame reason m) a

receive_parsed-Alive :
    (o : Option (MessageHeader × List ℕ)) (frame : List ℕ) (m : Client)
    → Alive m
    → Alive (receive_parsed o frame m)
unfolding receive_parsed receive_message
receive_parsed-Alive none frame m a = invalid-Alive frame 0x02 m a
receive_parsed-Alive (some (header, body)) frame m a =
    if-both Alive (not (is_valid_source_destination header.source_id header.destination_id m))
      (invalid-Alive frame 0x04 m a)
      (if-both Alive
        (is_response_matched_data_type_code m.current_cmd_requested.type header.data_type_code body)
        (if-both Alive (is_expected m.expected_response_seq_no header.seq_no)
          (accept_response-Alive header body frame m a) a)
        (if-both Alive (is_notification_received header.data_type_code)
          (accept_notification-Alive header body m a) (invalid-Alive frame 0x01 m a)))

pub handle_received_data-Alive :
    (success : Bool) (frame : List ℕ) (m : Client)
    → Alive m
    → Alive (handle_received_data success frame m)
unfolding handle_received_data
handle_received_data-Alive false frame m a = if-both Alive m.stopping a (
    Alive-Extends m (process_event reconnect_request m) (Extends-post (process reconnect_request) m)
      a)
handle_received_data-Alive true frame m a =
    if-both Alive (not (is_valid_check_sum frame)) (invalid-Alive frame 0x03 m a)
      (receive_parsed-Alive (parse_message (without_check_sum frame)) frame m a)
