-- ===== src/Upt/Machine/Sequence.antt =====
-- The sequence number: which frames it makes the machine ignore.
use linux_pbs.Base.{◌≡◌, ◌≢◌, refl, ◌∙◌, false}
use linux_pbs.Upt.Message.{Message, message_bytes}
use linux_pbs.Upt.Transparency.{add_data_transparency}
use linux_pbs.Upt.Parser.RoundTrip.{IsMessage}
use linux_pbs.Upt.Receiver.{idle_receiver}
use linux_pbs.Upt.Receiver.Frames.{Fits}
use linux_pbs.Upt.Machine.State.{Machine}
use linux_pbs.Upt.Machine.Receive.{receive_message, read_end}
use linux_pbs.Upt.Machine.Resting.{differ, read_end-add_data_transparency}

-- On a running machine, a well-formed message that fits the receive buffer and has another
-- sequence number than the machine's, in one read, changes nothing but the time of the last read,
-- and leaves the receiver waiting for a frame.
pub read_end-other_sequence :
    (msg : Message) (m : Machine)
    → IsMessage msg
    → Fits (message_bytes msg)
    → m.stopping ≡ false
    → msg.header.msg_sequence ≢ m.sequence_no
    → read_end (add_data_transparency (message_bytes msg)) m
      ≡ record m { read_age = 0; rx = idle_receiver }
unfolding receive_message
read_end-other_sequence msg m v fits r other =
    read_end-add_data_transparency msg m v fits r ∙ rw (differ msg.header.msg_sequence _ other) refl
