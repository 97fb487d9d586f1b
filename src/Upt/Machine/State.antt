-- ===== src/Upt/Machine/State.antt =====
-- The members of Upt that its I/O thread changes, the states and events of upt.h, and what the
-- handlers post.
use linux_pbs.Base.{ℕ, Bool, true, false, List, [], ◌∷◌, ◌++◌, String, if◌then◌else◌}
use linux_pbs.Upt.Message.{Message}
use linux_pbs.Upt.Command.{UptCmd, device_status_request, CommandData, CommandWithData}
use linux_pbs.Upt.Receiver.{Receiver, idle_receiver}

-- Upt::STATE, without the count.
pub data State : Type 0 where
  idle sending_request_async waiting_for_ack waiting_for_response cancel_command_request : State

-- Upt::EVENT, without the count.
pub data Event : Type 0 where
  command_enqueued write_completed write_failed ack_timeout ack_timer_cancelled_ack_received : Event
  response_timeout response_timer_cancelled_rsp_received start_pending_response_timer : Event
  pending_response_timer_cancelled_rsp_received pending_response_timer_timeout : Event
  cancel_command cancel_command_clean_up_and_enqueue write_timeout : Event

-- A handler that waits in the io_context.
pub data Post : Type 0 where
  process : Event → Post
  check_queue : Post
  enqueue : UptCmd → CommandData → Bool → Post

pub record Machine : Type 0 where
  pub accepting_work : Bool
  pub stopping : Bool
  pub port_open : Bool
  pub command_queue : List CommandWithData
  pub current_cmd : UptCmd
  pub sequence_no : ℕ
  pub write_queue : List (List ℕ)
  pub write_in_progress : Bool
  pub write_delay_active : Bool
  pub write_timed_out : Bool
  pub rx : Receiver
  pub current_state : State
  -- Milliseconds since `lastSerialReadTime_`.
  pub read_age : ℕ
  -- The pending asynchronous waits.
  pub ack_timer : Bool
  pub rsp_timer : Bool
  pub serial_write_timer : Bool
  -- The io_context's queue, first come first.
  pub posted : List Post
  -- How many async_write calls have not completed, and the frames handed to them, newest last.
  pub writes_outstanding : ℕ
  pub wire : List (List ℕ)
  -- The calls of EventManager::FnEnqueueEvent for failures, and the messages given to
  -- handleCmdResponse, newest last.
  pub failures : List (String × ℕ)
  pub responses : List Message

abbrev pub post : Post → Machine → Machine
post p m = record m { posted = m.posted ++ p ∷ [] }

-- Upt::processEvent, as far as the call itself goes.
unfoldable pub process_event : Event → Machine → Machine
process_event e m = if m.stopping then m else post (process e) m

-- Upt::startModule with Upt::clearProtocolStateOnIoThread, the port open.
abbrev pub started : Machine
started = record {
  accepting_work = true;
  stopping = false;
  port_open = true;
  command_queue = [];
  current_cmd = device_status_request;
  sequence_no = 0;
  write_queue = [];
  write_in_progress = false;
  write_delay_active = false;
  write_timed_out = false;
  rx = idle_receiver;
  current_state = idle;
  read_age = 0;
  ack_timer = false;
  rsp_timer = false;
  serial_write_timer = false;
  posted = [];
  writes_outstanding = 0;
  wire = [];
  failures = [];
  responses = [];
}
