-- ===== src/Upt/Machine/RunsOut.antt =====
-- Where the sequence number runs out: the reset in front of the queue, and the numbers that go out.
use linux_pbs.Base.{ℕ, ◌-◌, ◌≡◌, Bool, true, false, List, [], ◌∷◌, ◌++◌}
use linux_pbs.Upt.Command.{UptCmd, CommandData, CommandWithData, last_sequence_no}
use linux_pbs.Upt.Message.{Message, message_bytes}
use linux_pbs.Upt.Transparency.{add_data_transparency}
use linux_pbs.Upt.Prepare.{Clock}
use linux_pbs.Upt.Machine.State.{idle, enqueue, Machine}
use linux_pbs.Upt.Machine.Queue.{reset_command}
use linux_pbs.Upt.Machine.Inputs.{Input, run_next}
use linux_pbs.Upt.Machine.Resting.{Past, resting}
use linux_pbs.Upt.Machine.Rounds.{rounds}

-- A call of enqueueCommand or enqueueCommandToFront was posted, with one number left before the last.
abbrev pub called : UptCmd → CommandData → Bool → Past → Machine
called cmd d front p = record (resting idle false false p) {
  sequence_no = last_sequence_no - 1;
  posted = enqueue cmd d front ∷ [];
}

-- The reset and the command, in the order in which they are queued.
abbrev pub queued : UptCmd → CommandData → Bool → List CommandWithData
queued cmd d false = reset_command ∷ record { cmd = cmd; request = d } ∷ []
queued cmd d true = record { cmd = cmd; request = d } ∷ reset_command ∷ []

-- Two messages went out, with these numbers.
abbrev pub Sends : Past → Message → ℕ → Message → ℕ → Machine → Type 0
Sends p first n second k m =
    (m.wire
      ≡ (p.wire ++ add_data_transparency (message_bytes first) ∷ [])
        ++ add_data_transparency (message_bytes second) ∷ [])
    × (first.header.msg_sequence ≡ n)
    × (second.header.msg_sequence ≡ k)
    × (m.sequence_no ≡ k)
    × (m.current_state ≡ idle)
    × (m.command_queue ≡ [])

abbrev pub calling : Clock → UptCmd → CommandData → Bool → List Input
calling clock cmd d front = run_next clock ∷ rounds clock (queued cmd d front)
