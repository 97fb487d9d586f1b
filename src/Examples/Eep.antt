-- ===== src/Examples/Eep.antt =====
-- Runs of the EEP client.
use linux_pbs.Base.{
  ℕ, zero, suc, ◌≡◌, refl, true, false, Option, none, some, List, [], ◌∷◌, length, All, arith,
}
use mathlib.Core.List.{Perm}
use linux_pbs.Eep.MessageCode
use linux_pbs.Eep.Priority
use linux_pbs.Eep.CommandType.{CommandType, MsgStatus, send_failed, rsp_timeout}
use linux_pbs.Eep.CommandData.{null, SetDoPort, set_do_port}
use linux_pbs.Eep.CommandData.Sizes.{fits_do}
use linux_pbs.Eep.Frame.{
  Clock, Endpoint, MessageHeader, message_header, add_bytes, add_words,
  calculate_checksum_no_padding, is_valid_check_sum, deserialize, parse_body, parse_message,
}
use linux_pbs.Eep.Prepare.{
  Content, serialize, with_payload, content_of, frame_of, finish, prepare_cmd,
}
use linux_pbs.Eep.Prepare.RoundTrip.{IsFrameOf, prepare_cmd-IsFrameOf}
use linux_pbs.Eep.Queue.{Command, compare_command, pop_first, pop_all}
use linux_pbs.Eep.Queue.Order.{IsOrdered, pop_all-IsOrdered}
use linux_pbs.Eep.Client.Timeouts.{GivesUp, gives_up, gives_up-GivesUp}
use linux_pbs.Eep.Client.State.{
  writing_request, waiting_for_response, Client, started, enqueue, post,
}
use linux_pbs.Eep.Client.Failure.{begin_reconnect}
use linux_pbs.Eep.Client.Match.{
  valid_response, requested_data_type, is_valid_response, names_request,
  is_response_matched_data_type_code, does_cmd_require_notification,
}
use linux_pbs.Eep.Client.Receive.{is_valid_source_destination, handle_parsed_response_message}
use linux_pbs.Eep.Client.Inputs.{Timer, run_next, connect_ends, step, run}
use linux_pbs.Eep.Client.Exchange.{resting, command, requested, IsReply}
use linux_pbs.Eep.Client.Exchange.Completes.{exchange, exchange-resting}
use linux_pbs.Eep.Client.Reconnect.{IsReset, begin_reconnect-IsReset}
use linux_pbs.Eep.Client.Reachable.{Reachable, at_start, after}
use linux_pbs.Eep.Client.Alive.{Alive}
use linux_pbs.Eep.Client.Alive.Runs.{Reachable-Alive}
use linux_pbs.Eep.Client.Sound.{IsAccepted}
use linux_pbs.Eep.Client.Sound.Runs.{Reachable-sent}

-- Noon on New Year's Day of 2026, at station 1.
abbrev noon : Clock
noon = record { tm_mday = 1; tm_mon = 0; tm_year = 126; tm_hour = 12; tm_min = 0; tm_sec = 0 }

abbrev station : Endpoint
station = record { destination_id = 33; source_id = 97; carpark_id = 5 }

abbrev no_time : List ℕ → Option Clock
no_time s = none

abbrev start : Client
start = started station noon 0

-- n posted handlers, one after the other.
abbrev nexts : ℕ → Client → Client
unfolding step
nexts zero m = m
nexts (suc n) m = nexts n (step no_time run_next m)

nexts-Reachable : (n : ℕ) (m : Client) → Reachable no_time m → Reachable no_time (nexts n m)
unfolding nexts
nexts-Reachable zero m r = r
nexts-Reachable (suc n) m r = nexts-Reachable n (step no_time run_next m) (after m run_next r tt)

-- The connection is made, and the START request written.
abbrev talking : Client
unfolding nexts
talking = nexts 7 (step no_time (connect_ends true) (nexts 1 start))

talking-Reachable : Reachable no_time talking
unfolding talking
talking-Reachable = nexts-Reachable 7 (step no_time (connect_ends true) (nexts 1 start)) (
    after (nexts 1 start) (connect_ends true) (nexts-Reachable 1 start (at_start station noon 0))
      tt)

Reachable-Alive_example : Alive talking
Reachable-Alive_example = Reachable-Alive no_time talking talking-Reachable

Reachable-sent_example : All IsAccepted talking.sent
Reachable-sent_example = Reachable-sent no_time talking talking-Reachable

abbrev outputs : SetDoPort
outputs = record { do1 = 1; do2 = 0; do3 = 0; do4 = 1; do5 = 0; do6 = 0; rsv = 0 ∷ 0 ∷ [] }

abbrev outputs_content : Content
outputs_content = record {
  code = MessageCode.set_do_request;
  seq_no = 300;
  data_len = 8;
  payload = 1 ∷ 0 ∷ 0 ∷ 1 ∷ 0 ∷ 0 ∷ 0 ∷ 0 ∷ [];
}

prepare_cmd-IsFrameOf_example :
    (prepare_cmd station noon CommandType.do_req_cmd (set_do_port outputs) 300
      ≡ some (frame_of station noon outputs_content))
    × IsFrameOf station noon outputs_content (frame_of station noon outputs_content)
    × (outputs_content.data_len ≡ length outputs_content.payload)
unfolding content_of serialize with_payload
prepare_cmd-IsFrameOf_example =
    prepare_cmd-IsFrameOf station noon CommandType.do_req_cmd (set_do_port outputs) 300
      outputs_content (fits_do outputs refl) (omega arith) refl

abbrev waits_for : CommandType → ℕ → ℕ → Command
waits_for type priority sequence = record {
  type = type;
  priority = priority;
  sequence = sequence;
  cmd_data = null;
}

-- A health request, a stop, a start, and another stop.
abbrev four : List Command
four =
    waits_for CommandType.health_status_req_cmd Priority.health_status 4
    ∷ waits_for CommandType.stop_req_cmd Priority.normal 5
    ∷ waits_for CommandType.start_req_cmd Priority.start 6
    ∷ waits_for CommandType.stop_req_cmd Priority.normal 7
    ∷ []

pop_all-IsOrdered_example : Perm (pop_all 4 four) four × IsOrdered (pop_all 4 four)
pop_all-IsOrdered_example = pop_all-IsOrdered 4 four (omega arith)

-- A test: the start goes first, the health request last.
pop_all_test :
    pop_all 4 four
    ≡ waits_for CommandType.start_req_cmd Priority.start 6
      ∷ waits_for CommandType.stop_req_cmd Priority.normal 5
      ∷ waits_for CommandType.stop_req_cmd Priority.normal 7
      ∷ waits_for CommandType.health_status_req_cmd Priority.health_status 4
      ∷ []
unfolding pop_all pop_first compare_command
pop_all_test = refl

abbrev busy : Client
busy = record start { is_connected = true; last_connection_state = true; command_queue = four }

begin_reconnect-IsReset_example : IsReset false busy (begin_reconnect false busy)
begin_reconnect-IsReset_example = begin_reconnect-IsReset false busy refl

-- A client whose last request was a deduction.
abbrev charging : Client
charging = record start {
  is_connected = true;
  current_cmd_requested = waits_for CommandType.deduct_req_cmd Priority.normal 8;
}

gives_up-GivesUp_example :
    GivesUp MsgStatus.ack_timeout none charging
      (gives_up no_time Timer.ack waiting_for_response charging)
    × GivesUp rsp_timeout none charging
        (gives_up no_time Timer.response waiting_for_response charging)
    × GivesUp send_failed charging.expected_response_seq_no charging
        (gives_up no_time Timer.send writing_request charging)
gives_up-GivesUp_example = gives_up-GivesUp no_time charging

abbrev peer : Endpoint
peer = record { destination_id = 97; source_id = 33; carpark_id = 5 }

abbrev answer_header : MessageHeader
answer_header = record {
  destination_id = 97;
  source_id = 33;
  data_type_code = MessageCode.stop_response;
  rsv = 0;
  day = 1;
  month = 1;
  year = 2026;
  rsv1 = 0;
  second = 0;
  minute = 0;
  hour = 12;
  seq_no = 0;
  data_len = 4;
}

abbrev answer : List ℕ
unfolding frame_of
answer = frame_of peer noon (record {
  code = MessageCode.stop_response;
  seq_no = 0;
  data_len = 4;
  payload = 0 ∷ 0 ∷ 0 ∷ 0 ∷ [];
})

abbrev stop_content : Content
stop_content = record { code = MessageCode.stop_request; seq_no = 0; data_len = 0; payload = [] }

answer-IsReply :
    IsReply
      (command CommandType.stop_req_cmd Priority.normal null start)
      start
      answer
      answer_header
      (0 ∷ 0 ∷ 0 ∷ 0 ∷ [])
unfolding answer frame_of message_header calculate_checksum_no_padding add_words add_bytes
    is_valid_check_sum parse_message deserialize parse_body is_valid_source_destination
    is_response_matched_data_type_code is_valid_response valid_response names_request
    requested_data_type does_cmd_require_notification
answer-IsReply = record {
  check_ok = refl;
  parsed = refl;
  addressed = refl;
  answers = refl;
  numbered = refl;
  completes = refl;
}

exchange-resting_example :
    run no_time
      (exchange answer)
      (post (enqueue CommandType.stop_req_cmd Priority.normal null) (resting start))
    ≡ resting (
        handle_parsed_response_message answer_header (0 ∷ 0 ∷ 0 ∷ 0 ∷ []) answer (
          requested
            (command CommandType.stop_req_cmd Priority.normal null start)
            (frame_of station noon stop_content)
            start))
unfolding prepare_cmd content_of finish
exchange-resting_example =
    exchange-resting no_time CommandType.stop_req_cmd Priority.normal null
      (frame_of station noon stop_content) answer answer_header (0 ∷ 0 ∷ 0 ∷ 0 ∷ []) start refl refl
      answer-IsReply
