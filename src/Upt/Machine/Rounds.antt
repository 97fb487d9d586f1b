-- ===== src/Upt/Machine/Rounds.antt =====
-- A queue of commands that nobody answers, sent one after the other.
use linux_pbs.Base.{true, false, List, [], ◌∷◌, ◌++◌}
use linux_pbs.Upt.Status
use linux_pbs.Upt.Command.{CommandWithData}
use linux_pbs.Upt.Prepare.{Clock, prepare_cmd}
use linux_pbs.Upt.Machine.State.{idle, sending_request_async, Machine}
use linux_pbs.Upt.Machine.Writer.{done}
use linux_pbs.Upt.Machine.Failure.{failure_event, raise}
use linux_pbs.Upt.Machine.Inputs.{Input, run_next, write_ends, ack_timer_ends}
use linux_pbs.Upt.Machine.Resting.{Past, resting}
use linux_pbs.Upt.Machine.Cancel.{again}

-- The queue's command was announced.
abbrev pub announced : List CommandWithData → Past → Machine
announced queue p = record (resting idle false false p) {
  command_queue = queue;
  posted = again queue;
}

-- The front command is sent, its write completes, its acknowledgement does not come, and the machine
-- looks at its queue again.
abbrev pub round : Clock → List Input
round clock =
    run_next clock
    ∷ write_ends done
    ∷ run_next clock
    ∷ ack_timer_ends done
    ∷ run_next clock
    ∷ run_next clock
    ∷ []

-- What a machine remembers of a round.
abbrev pub sent_by : Clock → CommandWithData → Past → Past
sent_by clock c p = record p {
  current_cmd = c.cmd;
  sequence_no = (prepare_cmd c.cmd c.request clock p.sequence_no).0;
  wire = p.wire ++ (prepare_cmd c.cmd c.request clock p.sequence_no).1 ∷ [];
  failures = raise (failure_event c.cmd) Status.ack_timeout p.failures;
}

-- The front command's frame is with async_write.
on_its_way : Clock → CommandWithData → List CommandWithData → Past → Machine
on_its_way clock c cs p = record (resting sending_request_async false false p) {
  command_queue = cs;
  current_cmd = c.cmd;
  sequence_no = (prepare_cmd c.cmd c.request clock p.sequence_no).0;
  write_queue = (prepare_cmd c.cmd c.request clock p.sequence_no).1 ∷ [];
  write_in_progress = true;
  serial_write_timer = true;
  writes_outstanding = 1;
  wire = p.wire ++ (prepare_cmd c.cmd c.request clock p.sequence_no).1 ∷ [];
}

abbrev pub rounds : Clock → List CommandWithData → List Input
rounds clock [] = []
rounds clock (c ∷ cs) = round clock ++ rounds clock cs

abbrev pub all_sent : Clock → List CommandWithData → Past → Past
all_sent clock [] p = p
all_sent clock (c ∷ cs) p = all_sent clock cs (sent_by clock c p)
