-- ===== src/Eep/Client/Exchange.antt =====
-- A request and its response, from a client at rest to a client at rest.
pub mod Answered
pub mod Completes
use linux_pbs.Base.{
  ℕ, ◌+◌, ◌%◌, ◌^◌, ◌≤◌, ◌≡◌, refl, if◌then◌else◌, take, drop, ◌∙◌, ap, Bool, true, false, ◌&&◌,
  Option, none, some, List, [], ◌∷◌, ◌++◌, length, ◌==◌, ==_refl, ltb, le→ltb,
}
use linux_pbs.Bytes.{from_le}
use linux_pbs.Eep.MessageCode
use linux_pbs.Eep.CommandType.{CommandType, uses_controller_sequence}
use linux_pbs.Eep.CommandData.{CommandData}
use linux_pbs.Eep.Frame.{Clock, MessageHeader, is_valid_check_sum, without_check_sum, parse_message}
use linux_pbs.Eep.Prepare.{prepare_cmd}
use linux_pbs.Eep.Queue.{Command, pop_first, pop}
use linux_pbs.Eep.Client.State.{
  connected, writing_request, waiting_for_response, write_command, write_completed,
  ack_as_rsp_received, process, check_queue, enqueue, response, raise, unfilled, Client, post,
}
use linux_pbs.Eep.Client.Timers.{start_send_timer}
use linux_pbs.Eep.Client.Dispatch.{
  check_command_queue, enqueue_command_on_io_thread, set_current, take_sequence_no, send_prepared,
  send_top, pop_from_command_queue_and_enqueue_write,
}
use linux_pbs.Eep.Client.Events.{
  transition, handle_connected_state, handle_writing_request_state,
  handle_waiting_for_response_state, handle_state, enter, follow, run_event, run_post,
}
use linux_pbs.Eep.Client.Match.{is_response_matched_data_type_code, does_cmd_require_notification}
use linux_pbs.Eep.Client.Receive.{
  body_size, health_status, raise_response, handle_parsed_response_message,
  is_valid_source_destination, accept_response, receive_message, receive_parsed,
  handle_received_data,
}
use linux_pbs.Eep.Client.Inputs.{
  Input, run_next, send_ends, receives, handle_send, run_first, step, run,
}

-- Connected, with nothing to do.
abbrev pub resting : Client → Client
resting m = record m {
  accepting_work = true;
  stopping = false;
  is_connected = true;
  current_state = connected;
  command_queue = [];
  expected_response_seq_no = none;
  send_timer = false;
  response_timer = false;
  ack_timer = false;
  posted = [];
}

-- The command that a call of enqueueCommand makes.
abbrev pub command : CommandType → ℕ → CommandData → Client → Command
command type priority d m = record {
  type = type;
  priority = priority;
  sequence = m.command_sequence;
  cmd_data = d;
}

-- Its frame was handed to the TCP client.
abbrev pub requested : Command → List ℕ → Client → Client
requested c frame m = record m {
  command_sequence = (m.command_sequence + 1) % 2 ^ 64;
  current_cmd = c;
  current_cmd_requested = c;
  sequence_no = (m.sequence_no + 1) % 65536;
  sent = m.sent ++ frame ∷ [];
}

-- The client waits for the ACK of the request.
abbrev waiting : Command → List ℕ → Client → Client
waiting c frame m = record (requested c frame (resting m)) {
  current_state = waiting_for_response;
  expected_response_seq_no = some m.sequence_no;
  ack_timer = true;
}

-- The request about to be sent, and sent.
abbrev announced : Command → Client → Client
announced c m = record (resting m) {
  command_sequence = (m.command_sequence + 1) % 2 ^ 64;
  command_queue = c ∷ [];
  posted = process write_command ∷ [];
}

abbrev writing : Command → List ℕ → Client → Client
writing c frame m = record (requested c frame (resting m)) {
  current_state = writing_request;
  expected_response_seq_no = some m.sequence_no;
  send_timer = true;
}

set_current-request :
    (c : Command) (x : Client)
    → uses_controller_sequence c.type ≡ true
    → set_current c x ≡ record x { current_cmd = c; current_cmd_requested = c }
unfolding set_current
set_current-request c x u = rw u refl

send_prepared-request :
    (type : CommandType) (frame : List ℕ) (x : Client)
    → uses_controller_sequence type ≡ true
    → send_prepared type (some frame) (record x { stopping = false }) ≡ record x {
      stopping = false;
      expected_response_seq_no = some x.sequence_no;
      sequence_no = (x.sequence_no + 1) % 65536;
      sent = x.sent ++ frame ∷ [];
    }
unfolding send_prepared take_sequence_no
send_prepared-request type frame x u = rw u refl

send_top-request :
    (c : Command) (frame : List ℕ) (x : Client)
    → uses_controller_sequence c.type ≡ true
    → prepare_cmd x.endpoint x.clock c.type c.cmd_data x.sequence_no ≡ some frame
    → send_top (some (c, [])) (record x { stopping = false }) ≡ record x {
      stopping = false;
      command_queue = [];
      current_cmd = c;
      current_cmd_requested = c;
      expected_response_seq_no = some x.sequence_no;
      sequence_no = (x.sequence_no + 1) % 65536;
      sent = x.sent ++ frame ∷ [];
    }
unfolding send_top
send_top-request c frame x u p =
    ap (λ f. send_prepared c.type f (set_current c y)) p
    ∙ ap (send_prepared c.type (some frame)) (set_current-request c y u)
    ∙ send_prepared-request c.type frame (record y { current_cmd = c; current_cmd_requested = c }) u
  where
    y : Client
    y = record x { stopping = false; command_queue = [] }

written-steps :
    (get_time : List ℕ → Option Clock) (c : Command) (frame : List ℕ) (m : Client)
    → uses_controller_sequence c.type ≡ true
    → prepare_cmd m.endpoint m.clock c.type c.cmd_data m.sequence_no ≡ some frame
    → step get_time run_next (announced c m) ≡ writing c frame m
unfolding step run_first run_post run_event transition follow handle_state handle_connected_state
    enter pop_from_command_queue_and_enqueue_write pop pop_first
written-steps get_time c frame m u p =
    ap (λ x. enter writing_request (start_send_timer x))
      (send_top-request c frame (record (announced c m) { posted = [] }) u p)

-- The write's end, and the wait for the ACK.
sent-steps :
    (get_time : List ℕ → Option Clock) (c : Command) (frame : List ℕ) (m : Client)
    → uses_controller_sequence c.type ≡ true
    → run get_time (send_ends true ∷ run_next ∷ []) (writing c frame m) ≡ waiting c frame m
unfolding run step run_first run_post run_event transition follow handle_state
    handle_writing_request_state enter handle_send
sent-steps get_time c frame m u = rw u refl

-- A response that the receiver accepts: it answers the command, with the command's sequence number.
pub record IsReply (c : Command) (m : Client) (reply : List ℕ) (h : MessageHeader) (body : List ℕ)
    : Type 0 where
  pub check_ok : is_valid_check_sum reply ≡ true
  pub parsed : parse_message (without_check_sum reply) ≡ some (h, body)
  pub addressed : is_valid_source_destination h.source_id h.destination_id m ≡ true
  pub answers : is_response_matched_data_type_code c.type h.data_type_code body ≡ true
  pub numbered : h.seq_no ≡ m.sequence_no
  pub completes :
      ((h.data_type_code == MessageCode.ack) && does_cmd_require_notification c.type) ≡ false

queued-steps :
    (get_time : List ℕ → Option Clock) (type : CommandType) (priority : ℕ) (d : CommandData)
    (m : Client)
    → step get_time run_next (post (enqueue type priority d) (resting m))
      ≡ announced (command type priority d m) m
unfolding step run_first run_post enqueue_command_on_io_thread check_command_queue
queued-steps get_time type priority d m = refl
