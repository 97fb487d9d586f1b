-- ===== src/Eep/Client/Receive.antt =====
-- EEPClient::handleReceivedData, handleInvalidMessage, handleParsedResponseMessage and
-- handleParsedNotificationMessage. The JSON payload of an event is a function of the command, the
-- header and the body, which the event keeps, and for the ACK of a deduction of its serial number too.
-- The settlement files of a transaction are left out.
use linux_pbs.Base.{
  ℕ, ◌+◌, ◌*◌, Bool, true, false, not, ◌&&◌, ◌||◌, Option, none, some, List, ◌∷◌, length, take,
  drop, replicate, ltb, ◌==◌, if◌then◌else◌,
}
use linux_pbs.Bytes.{from_le}
use linux_pbs.Eep.MessageCode
use linux_pbs.Eep.Priority
use linux_pbs.Eep.CommandType.{CommandType}
use linux_pbs.Eep.CommandData.{ack_data, nak_data}
use linux_pbs.Eep.Frame.{MessageHeader, is_valid_check_sum, without_check_sum, parse_message}
use linux_pbs.Eep.Client.State.{
  Client, reconnect_request, ack_timer_cancelled_ack_received, ack_as_rsp_received,
  response_timer_cancelled_rsp_received, process_event, raise, response, notification, unfilled,
  enqueue_command,
}
use linux_pbs.Eep.Client.Match.{
  is_response_matched_data_type_code, is_response_notification_complete,
  does_cmd_require_notification, is_notification_received,
}

-- EEPClient::FnSendAck.
unfoldable pub send_ack : ℕ → ℕ → Client → Client
unfolding enqueue_command
send_ack seq_no code m =
    enqueue_command CommandType.ack Priority.unsolicited
      (ack_data (record { seq_no = seq_no; req_datatype_code = code; rsv = replicate 3 0x00 })) m

-- EEPClient::FnSendNak.
unfoldable pub send_nak : ℕ → ℕ → ℕ → Client → Client
unfolding enqueue_command
send_nak seq_no code reason m =
    enqueue_command CommandType.nak Priority.unsolicited
      (nak_data (record {
        seq_no = seq_no;
        req_datatype_code = code;
        reason_code = reason;
        rsv = replicate 2 0x00;
      }))
      m

-- EEPClient::handleInvalidMessage: a frame as long as a header is answered.
unfoldable pub handle_invalid_message : List ℕ → ℕ → Client → Client
unfolding send_nak
handle_invalid_message
      (d0 ∷ d1 ∷ d2 ∷ d3 ∷ d4 ∷ d5 ∷ d6 ∷ d7 ∷ d8 ∷ d9 ∷ d10 ∷ d11 ∷ d12 ∷ d13 ∷ d14 ∷ d15 ∷ rest)
      reason m =
    send_nak (d12 + 256 * d13) d2 reason m
handle_invalid_message _ reason m = m

-- How long the body of a response or a notification has to be; none for another code.
unfoldable pub body_size : ℕ → Option ℕ
body_size code =
    if (code == MessageCode.ack)
      || (code == MessageCode.nak)
      || (code == MessageCode.start_response)
      || (code == MessageCode.stop_response)
      || (code == MessageCode.time_calibration_response)
    then some 4
    else if code == MessageCode.di_status_response
    then some 8
    else if code == MessageCode.dsrc_status_response
    then some 100
    else none

-- The event of a message whose body has to have n bytes.
unfoldable pub raise_response : Option ℕ → MessageHeader → List ℕ → Client → Client
raise_response none header body m = m
raise_response (some n) header body m =
    if ltb (length body) n
    then raise unfilled m
    else raise (response m.current_cmd_requested.type header body) m

-- The health status gives the car park's number, and is kept for FnGetStatusData.
unfoldable pub health_status : List ℕ → List ℕ → Client → Client
health_status body frame m = if ltb (length body) 64 then raise unfilled m else record m {
  endpoint = record m.endpoint { carpark_id = from_le (take 2 (drop 6 body)) };
  status_data = frame;
}

unfoldable pub handle_parsed_response_message : MessageHeader → List ℕ → List ℕ → Client → Client
unfolding body_size raise_response health_status
handle_parsed_response_message header body frame m =
    if header.data_type_code == MessageCode.watchdog_response
    then record m { watchdog_missed_rsp_count = 0 }
    else if header.data_type_code == MessageCode.health_status_response
    then health_status body frame m
    else raise_response (body_size header.data_type_code) header body m

unfoldable pub notification_size : ℕ → ℕ
notification_size code =
    if code == MessageCode.di_status_notification
    then 8
    else if code == MessageCode.obu_information_notification
    then 56
    else if code == MessageCode.transaction_data
    then 340
    else if code == MessageCode.eep_restart_inquiry
    then 4
    else if code == MessageCode.notification_log
    then 12
    else 20

-- The command that the event of a notification names.
abbrev pub notified_cmd : CommandType → ℕ → CommandType
unfolding is_response_notification_complete
notified_cmd type code =
    if is_response_notification_complete type code then type else CommandType.unknown_req_cmd

unfoldable pub handle_parsed_notification_message : MessageHeader → List ℕ → Client → Client
unfolding notification_size notified_cmd
handle_parsed_notification_message header body m =
    if ltb (length body) (notification_size header.data_type_code)
    then raise unfilled m
    else raise
        (notification (notified_cmd m.current_cmd_requested.type header.data_type_code) header body)
        m

unfoldable pub is_valid_source_destination : ℕ → ℕ → Client → Bool
is_valid_source_destination source destination m =
    (source == m.endpoint.destination_id) && (destination == m.endpoint.source_id)

abbrev pub is_expected : Option ℕ → ℕ → Bool
is_expected none seq_no = false
is_expected (some n) seq_no = seq_no == n

-- A response with the expected sequence number.
unfoldable pub accept_response : MessageHeader → List ℕ → List ℕ → Client → Client
unfolding handle_parsed_response_message does_cmd_require_notification
accept_response header body frame m =
    let handled =
      handle_parsed_response_message header body frame (record m { ack_timer = false }) in
    process_event
      (if (header.data_type_code == MessageCode.ack)
          && does_cmd_require_notification m.current_cmd_requested.type
        then ack_timer_cancelled_ack_received
        else ack_as_rsp_received)
      (record handled { expected_response_seq_no = none })

-- A notification is acknowledged, whether or not it completes a request.
unfoldable pub accept_notification : MessageHeader → List ℕ → Client → Client
unfolding is_response_notification_complete handle_parsed_notification_message send_ack
accept_notification header body m =
    let completed =
      if is_response_notification_complete m.current_cmd_requested.type header.data_type_code
      then process_event response_timer_cancelled_rsp_received (record m { response_timer = false })
      else m in
    send_ack header.seq_no header.data_type_code
      (handle_parsed_notification_message header body completed)

unfoldable pub receive_message : MessageHeader → List ℕ → List ℕ → Client → Client
unfolding is_valid_source_destination is_response_matched_data_type_code accept_response
    is_notification_received accept_notification handle_invalid_message
receive_message header body frame m =
    if not (is_valid_source_destination header.source_id header.destination_id m)
    then handle_invalid_message frame 0x04 m
    else if is_response_matched_data_type_code m.current_cmd_requested.type header.data_type_code
        body
    then (if is_expected m.expected_response_seq_no header.seq_no
        then accept_response header body frame m
        else m)
    else if is_notification_received header.data_type_code
    then accept_notification header body m
    else handle_invalid_message frame 0x01 m

unfoldable pub receive_parsed : Option (MessageHeader × List ℕ) → List ℕ → Client → Client
unfolding receive_message handle_invalid_message
receive_parsed none frame m = handle_invalid_message frame 0x02 m
receive_parsed (some (header, body)) frame m = receive_message header body frame m

unfoldable pub handle_received_data : Bool → List ℕ → Client → Client
unfolding is_valid_check_sum parse_message receive_parsed handle_invalid_message
handle_received_data false frame m = if m.stopping then m else process_event reconnect_request m
handle_received_data true frame m =
    if not (is_valid_check_sum frame)
    then handle_invalid_message frame 0x03 m
    else receive_parsed (parse_message (without_check_sum frame)) frame m
