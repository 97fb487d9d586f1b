-- ===== src/Eep/Client/Sound/Reception.antt =====
-- What the EEP client answers to received data fits.
use linux_pbs.Base.{
  ℕ, zero, suc, ◌+◌, ◌*◌, ◌-◌, ◌<◌, refl, Bool, true, false, not, Option, none, some, List, [], ◌∷◌,
  length, take, drop, All, All-drop, ltb, ◌==◌, if-both, arith, if◌then◌else◌,
}
use linux_pbs.Bytes.{IsByte, from_le}
use linux_pbs.Eep.MessageCode
use linux_pbs.Eep.Priority
use linux_pbs.Eep.CommandType.{CommandType}
use linux_pbs.Eep.CommandData.Sizes.{fits_ack, fits_nak}
use linux_pbs.Eep.Frame.{
  MessageHeader, deserialize, parse_body, parse_message, is_valid_check_sum, without_check_sum,
}
use linux_pbs.Eep.Client.State.{
  response_timer_cancelled_rsp_received, reconnect_request, raise, response, unfilled, notification,
  Client, process_event,
}
use linux_pbs.Eep.Client.Match.{
  is_response_matched_data_type_code, is_response_notification_complete, is_notification_received,
}
use linux_pbs.Eep.Client.Receive.{
  send_ack, send_nak, handle_invalid_message, body_size, raise_response, health_status,
  handle_parsed_response_message, notification_size, notified_cmd,
  handle_parsed_notification_message, is_valid_source_destination, is_expected, accept_response,
  accept_notification, receive_message, receive_parsed, handle_received_data,
}
use linux_pbs.Eep.Client.Sound.{Sound, enqueue_command-Sound}
use linux_pbs.Eep.Client.Sound.Failures.{process_event-Sound}

All-take : (n : ℕ) (bytes : List ℕ) → All IsByte bytes → All IsByte (take n bytes)
All-take zero bytes h = tt
All-take (suc n) [] h = tt
All-take (suc n) (b ∷ bytes) h = (h.0, All-take n bytes h.1)

two_bytes :
    (low high : ℕ) (rest : List ℕ) → All IsByte (low ∷ high ∷ rest) → low + 256 * high < 65536
two_bytes low high rest (l, (h, r)) = omega arith

invalid-Sound :
    (frame : List ℕ) (reason : ℕ) (m : Client)
    → All IsByte frame
    → Sound m
    → Sound (handle_invalid_message frame reason m)
unfolding handle_invalid_message send_nak
invalid-Sound
      (d0 ∷ d1 ∷ d2 ∷ d3 ∷ d4 ∷ d5 ∷ d6 ∷ d7 ∷ d8 ∷ d9 ∷ d10 ∷ d11 ∷ d12 ∷ d13 ∷ d14 ∷ d15 ∷ rest)
      reason m h v =
    enqueue_command-Sound CommandType.nak Priority.unsolicited _ m
      (fits_nak _
        (two_bytes d12 d13 (d14 ∷ d15 ∷ rest) (
          All-drop IsByte 12
            (d0 ∷ d1 ∷ d2 ∷ d3 ∷ d4 ∷ d5 ∷ d6 ∷ d7 ∷ d8 ∷ d9 ∷ d10 ∷ d11 ∷ d12 ∷ d13 ∷ d14 ∷ d15
              ∷ rest)
            h))
        refl)
      v
invalid-Sound _ reason m h v = v

-- What parses of a list of bytes has a 16-bit sequence number.
abbrev Numbered : Option (MessageHeader × List ℕ) → Type 0
Numbered none = Unit
Numbered (some (header, body)) = header.seq_no < 65536

abbrev HeaderNumbered : Option MessageHeader → Type 0
HeaderNumbered none = Unit
HeaderNumbered (some header) = header.seq_no < 65536

deserialize-HeaderNumbered :
    (bytes : List ℕ) → All IsByte bytes → HeaderNumbered (deserialize bytes)
unfolding deserialize
deserialize-HeaderNumbered
      (d0 ∷ d1 ∷ d2 ∷ d3 ∷ d4 ∷ d5 ∷ d6 ∷ d7 ∷ d8 ∷ d9 ∷ d10 ∷ d11 ∷ d12 ∷ d13 ∷ d14 ∷ d15 ∷ rest)
      h =
    two_bytes d12 d13 (d14 ∷ d15 ∷ rest) (
      All-drop IsByte 12
        (d0 ∷ d1 ∷ d2 ∷ d3 ∷ d4 ∷ d5 ∷ d6 ∷ d7 ∷ d8 ∷ d9 ∷ d10 ∷ d11 ∷ d12 ∷ d13 ∷ d14 ∷ d15 ∷ rest)
        h)
deserialize-HeaderNumbered _ h = tt

parse_body-Numbered :
    (o : Option MessageHeader) (bytes : List ℕ) → HeaderNumbered o → Numbered (parse_body o bytes)
unfolding parse_body
parse_body-Numbered none bytes h = tt
parse_body-Numbered (some header) bytes h =
    if-both Numbered (ltb (length bytes) (16 + header.data_len)) tt h

parse_message-Numbered : (bytes : List ℕ) → All IsByte bytes → Numbered (parse_message bytes)
unfolding parse_message
parse_message-Numbered bytes h =
    parse_body-Numbered (deserialize bytes) bytes (deserialize-HeaderNumbered bytes h)

raise_response-Sound :
    (size : Option ℕ) (header : MessageHeader) (body : List ℕ) (m : Client)
    → Sound m
    → Sound (raise_response size header body m)
unfolding raise_response
raise_response-Sound none header body m v = v
raise_response-Sound (some n) header body m v =
    if-both Sound (ltb (length body) n) {yes_value = raise unfilled m}
      {no_value = raise (response m.current_cmd_requested.type header body) m} v v

health_status-Sound :
    (body frame : List ℕ) (m : Client) → Sound m → Sound (health_status body frame m)
unfolding health_status
health_status-Sound body frame m v =
    if-both Sound (ltb (length body) 64) {yes_value = raise unfilled m}
      {no_value = record m {
        endpoint = record m.endpoint { carpark_id = from_le (take 2 (drop 6 body)) };
        status_data = frame;
      }}
      v v

handle_parsed_response_message-Sound :
    (header : MessageHeader) (body frame : List ℕ) (m : Client)
    → Sound m
    → Sound (handle_parsed_response_message header body frame m)
unfolding handle_parsed_response_message
handle_parsed_response_message-Sound header body frame m v =
    if-both Sound (header.data_type_code == MessageCode.watchdog_response)
      {yes_value = record m { watchdog_missed_rsp_count = 0 }} v
      (if-both Sound (header.data_type_code == MessageCode.health_status_response)
        (health_status-Sound body frame m v)
        (raise_response-Sound (body_size header.data_type_code) header body m v))

accept_response-Sound :
    (header : MessageHeader) (body frame : List ℕ) (m : Client)
    → Sound m
    → Sound (accept_response header body frame m)
unfolding accept_response
accept_response-Sound header body frame m v =
    process_event-Sound _ (record handled { expected_response_seq_no = none })
      (handle_parsed_response_message-Sound header body frame (record m { ack_timer = false }) v)
  where
    handled : Client
    handled = handle_parsed_response_message header body frame (record m { ack_timer = false })

accept_notification-Sound :
    (header : MessageHeader) (body : List ℕ) (m : Client)
    → header.seq_no < 65536
    → Sound m
    → Sound (accept_notification header body m)
unfolding accept_notification handle_parsed_notification_message send_ack
accept_notification-Sound header body m h v =
    enqueue_command-Sound CommandType.ack Priority.unsolicited _ handled (fits_ack _ h refl) (
      if-both Sound (ltb (length body) (notification_size header.data_type_code))
        {yes_value = raise unfilled completed}
        {no_value = raise
          (notification (notified_cmd completed.current_cmd_requested.type header.data_type_code)
            header body)
          completed}
        sound sound)
  where
    completed : Client
    completed =
        if is_response_notification_complete m.current_cmd_requested.type header.data_type_code
        then process_event response_timer_cancelled_rsp_received
            (record m { response_timer = false })
        else m

    handled : Client
    handled = handle_parsed_notification_message header body completed

    sound : Sound completed
    sound =
        if-both Sound
          (is_response_notification_complete m.current_cmd_requested.type header.data_type_code)
          (process_event-Sound response_timer_cancelled_rsp_received
            (record m { response_timer = false }) v)
          v

receive_parsed-Sound :
    (o : Option (MessageHeader × List ℕ)) (frame : List ℕ) (m : Client)
    → Numbered o
    → All IsByte frame
    → Sound m
    → Sound (receive_parsed o frame m)
unfolding receive_parsed receive_message
receive_parsed-Sound none frame m n h v = invalid-Sound frame 0x02 m h v
receive_parsed-Sound (some (header, body)) frame m n h v =
    if-both Sound (not (is_valid_source_destination header.source_id header.destination_id m))
      (invalid-Sound frame 0x04 m h v)
      (if-both Sound
        (is_response_matched_data_type_code m.current_cmd_requested.type header.data_type_code body)
        (if-both Sound (is_expected m.expected_response_seq_no header.seq_no)
          (accept_response-Sound header body frame m v) v)
        (if-both Sound (is_notification_received header.data_type_code)
          (accept_notification-Sound header body m n v) (invalid-Sound frame 0x01 m h v)))

pub handle_received_data-Sound :
    (success : Bool) (frame : List ℕ) (m : Client)
    → All IsByte frame
    → Sound m
    → Sound (handle_received_data success frame m)
unfolding handle_received_data
handle_received_data-Sound false frame m h v =
    if-both Sound m.stopping v (process_event-Sound reconnect_request m v)
handle_received_data-Sound true frame m h v =
    if-both Sound (not (is_valid_check_sum frame)) (invalid-Sound frame 0x03 m h v) (
      receive_parsed-Sound (parse_message (without_check_sum frame)) frame m
        (parse_message-Numbered (without_check_sum frame) (All-take (length frame - 4) frame h)) h
        v)
