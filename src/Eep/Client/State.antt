-- ===== src/Eep/Client/State.antt =====
-- The members of EEPClient that its I/O thread changes, the states and events of eep_client.h, and
-- what the handlers post.
use linux_pbs.Base.{ℕ, Bool, true, false, Option, none, List, [], ◌∷◌, ◌++◌, if◌then◌else◌}
use linux_pbs.Eep.CommandType.{CommandType, MsgStatus}
use linux_pbs.Eep.CommandData.{CommandData}
use linux_pbs.Eep.Frame.{Clock, Endpoint, MessageHeader}
use linux_pbs.Eep.Queue.{Command, default_command}

-- EEPClient::STATE, without the count.
pub data State : Type 0 where
  idle connecting connected writing_request waiting_for_response : State

-- EEPClient::EVENT, without the count.
pub data Event : Type 0 where
  connect connect_success connect_fail check_command write_command write_completed : Event
  write_timeout ack_timer_cancelled_ack_received ack_as_rsp_received ack_timeout : Event
  response_timer_cancelled_rsp_received response_timeout reconnect_request : Event
  unsolicited_request_done : Event

-- A handler that waits in the io_context.
pub data Post : Type 0 where
  process : Event → Post
  check_queue : Post
  enqueue : CommandType → ℕ → CommandData → Post
  fail : CommandType → MsgStatus → Post

-- What the EventManager is given: a failed command with its status, a response or a notification of
-- the peer with the command it answers, the wrapper of a message whose body is too short, which no
-- case of the switch fills in, and the state of the connection.
pub data ClientEvent : Type 0 where
  failure : CommandType → MsgStatus → ClientEvent
  response : CommandType → MessageHeader → List ℕ → ClientEvent
  notification : CommandType → MessageHeader → List ℕ → ClientEvent
  unfilled : ClientEvent
  connection_state : Bool → ClientEvent

pub record Client : Type 0 where
  pub accepting_work : Bool
  pub stopping : Bool
  -- The addresses, and the wall clock.
  pub endpoint : Endpoint
  pub clock : Clock
  -- `client_->isConnected()`.
  pub is_connected : Bool
  pub current_state : State
  pub command_queue : List Command
  pub command_sequence : ℕ
  pub current_cmd : Command
  pub current_cmd_requested : Command
  pub sequence_no : ℕ
  pub expected_response_seq_no : Option ℕ
  pub deduct_cmd_serial_no : ℕ
  pub watchdog_missed_rsp_count : ℕ
  pub last_connection_state : Bool
  pub status_data : List ℕ
  -- The pending waits of the timers.
  pub reconnect_timer : Bool
  pub connect_timer : Bool
  pub send_timer : Bool
  pub response_timer : Bool
  pub ack_timer : Bool
  pub watchdog_timer : Bool
  pub health_status_timer : Bool
  -- The io_context's queue, first come first.
  pub posted : List Post
  -- The calls of the TCP client: the frames sent, and how often it connects and closes.
  pub sent : List (List ℕ)
  pub connects : ℕ
  pub closes : ℕ
  -- The events enqueued, newest last.
  pub events : List ClientEvent

abbrev pub post : Post → Client → Client
post p m = record m { posted = m.posted ++ p ∷ [] }

-- EEPClient::processEvent, as far as the call itself goes.
abbrev pub process_event : Event → Client → Client
process_event e m = post (process e) m

abbrev pub raise : ClientEvent → Client → Client
raise e m = record m { events = m.events ++ e ∷ [] }

-- EEPClient::enqueueCommand, as far as the call itself goes.
unfoldable pub enqueue_command : CommandType → ℕ → CommandData → Client → Client
enqueue_command type priority d m = if m.accepting_work then post (enqueue type priority d) m else m

-- EEPClient::postCommandFailure, with the module running.
unfoldable pub post_command_failure : CommandType → MsgStatus → Client → Client
post_command_failure type status m = if m.stopping then m else post (fail type status) m

-- The client that FnEEPClientInit leaves: resetRuntimeState, the I/O thread, and CONNECT.
abbrev pub started : Endpoint → Clock → ℕ → Client
started endpoint clock serial_no = record {
  accepting_work = true;
  stopping = false;
  endpoint = endpoint;
  clock = clock;
  is_connected = false;
  current_state = idle;
  command_queue = [];
  command_sequence = 0;
  current_cmd = default_command;
  current_cmd_requested = default_command;
  sequence_no = 0;
  expected_response_seq_no = none;
  deduct_cmd_serial_no = serial_no;
  watchdog_missed_rsp_count = 0;
  last_connection_state = false;
  status_data = [];
  reconnect_timer = false;
  connect_timer = false;
  send_timer = false;
  response_timer = false;
  ack_timer = false;
  watchdog_timer = false;
  health_status_timer = false;
  posted = process connect ∷ [];
  sent = [];
  connects = 0;
  closes = 0;
  events = [];
}
