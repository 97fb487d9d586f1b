-- ===== src/Upt/Machine/Resting.antt =====
-- The machine between two inputs, with nothing posted and no write; runs, and frames of well-formed
-- messages.
use linux_pbs.Base.{ℕ, ◌≡◌, ◌≢◌, refl, Bool, true, false, List, [], ◌∷◌, ◌++◌, String, arith, ◌==◌}
use linux_pbs.Upt.Command.{UptCmd}
use linux_pbs.Upt.Message.{Message, message_bytes}
use linux_pbs.Upt.Transparency.{add_data_transparency}
use linux_pbs.Upt.Parser.RoundTrip.{IsMessage, parse_msg_data-add_data_transparency}
use linux_pbs.Upt.Receiver.{idle_receiver}
use linux_pbs.Upt.Receiver.Frames.{Fits, consume-add_data_transparency}
use linux_pbs.Upt.Machine.State.{State, Machine}
use linux_pbs.Upt.Machine.Receive.{
  receive_message, receive_parsed, handle_received_cmd, handle_frames, read_end,
}
use linux_pbs.Upt.Machine.Inputs.{Input, step, run}

-- What a quiet machine remembers: the last command, the sequence number, the time since the last
-- read, the frames sent, the failures raised and the responses received.
pub record Past : Type 0 where
  pub current_cmd : UptCmd
  pub sequence_no : ℕ
  pub read_age : ℕ
  pub wire : List (List ℕ)
  pub failures : List (String × ℕ)
  pub responses : List Message

-- Running, in a state, with nothing queued, nothing posted and no write.
abbrev pub resting : State → Bool → Bool → Past → Machine
resting s ack_timer rsp_timer p = record {
  accepting_work = true;
  stopping = false;
  port_open = true;
  command_queue = [];
  current_cmd = p.current_cmd;
  sequence_no = p.sequence_no;
  write_queue = [];
  write_in_progress = false;
  write_delay_active = false;
  write_timed_out = false;
  rx = idle_receiver;
  current_state = s;
  read_age = p.read_age;
  ack_timer = ack_timer;
  rsp_timer = rsp_timer;
  serial_write_timer = false;
  posted = [];
  writes_outstanding = 0;
  wire = p.wire;
  failures = p.failures;
  responses = p.responses;
}

pub differ : (a b : ℕ) → a ≢ b → (a == b) ≡ false
differ a b h = ground arith

-- A frame of a well-formed message that fits the receive buffer, in one read.
pub read_end-add_data_transparency :
    (msg : Message) (m : Machine)
    → IsMessage msg
    → Fits (message_bytes msg)
    → m.stopping ≡ false
    → read_end (add_data_transparency (message_bytes msg)) m
      ≡ receive_message msg (record m { read_age = 0; rx = idle_receiver })
unfolding read_end handle_frames handle_received_cmd receive_parsed
read_end-add_data_transparency msg m v fits r =
    rw
      (
        consume-add_data_transparency (message_bytes msg) m.rx fits,
        r,
        parse_msg_data-add_data_transparency msg v,
      )
      refl

pub run-append : (is js : List Input) (m : Machine) → run (is ++ js) m ≡ run js (run is m)
unfolding run
run-append [] js m = refl
run-append (i ∷ is) js m = run-append is js (step i m)
