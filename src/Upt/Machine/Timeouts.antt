-- ===== src/Upt/Machine/Timeouts.antt =====
-- A command that is not answered ends: the machine returns to idle and reports the failure once.
use linux_pbs.Base.{ℕ, ◌≡◌, refl, true, false, [], ◌∷◌}
use linux_pbs.Upt.Status
use linux_pbs.Upt.Prepare.{Clock}
use linux_pbs.Upt.Machine.State.{
  State, idle, sending_request_async, waiting_for_ack, waiting_for_response, check_queue, Machine,
  process_event,
}
use linux_pbs.Upt.Machine.Writer.{
  Outcome, done, failed, pop_write, write_end, handle_serial_write_timeout,
}
use linux_pbs.Upt.Machine.Failure.{failure_event, raise, handle_cmd_error_or_timeout}
use linux_pbs.Upt.Machine.Events.{transition, handle_state, enter, follow, run_event, run_post}
use linux_pbs.Upt.Machine.Inputs.{
  Input, run_next, write_ends, ack_timer_ends, rsp_timer_ends, serial_write_timer_ends, run_first,
  step, run,
}

-- A timer that ends without an abort, the state that waits for it, and the status of the failure.
pub data Expires : Input → State → ℕ → Type 0 where
  ack_done : Expires (ack_timer_ends done) waiting_for_ack Status.ack_timeout
  ack_failed : Expires (ack_timer_ends failed) waiting_for_ack Status.ack_timeout
  rsp_done : Expires (rsp_timer_ends done) waiting_for_response Status.rsp_timeout
  rsp_failed : Expires (rsp_timer_ends failed) waiting_for_response Status.rsp_timeout

-- The machine is idle, will look at its queue, and one failure of its command was raised.
abbrev pub GivesUp : Machine → ℕ → Machine → Type 0
GivesUp m status n =
    (n.current_state ≡ idle)
    × (n.posted ≡ check_queue ∷ [])
    × (n.failures ≡ raise (failure_event m.current_cmd) status m.failures)
    × (n.command_queue ≡ m.command_queue)

-- A running machine that waits for an acknowledgement or a response with no handler posted, and
-- whose timer for it ends, also with an error other than an abort: after the one posted handler it
-- is idle, with its command's failure event, if it has one, raised once under the timer's status,
-- its queue of commands kept, and a look at that queue posted.
pub wait-GivesUp :
    (m : Machine) (i : Input) (s : State) (status : ℕ) (clock : Clock)
    → Expires i s status
    → m.stopping ≡ false
    → m.current_state ≡ s
    → m.posted ≡ []
    → GivesUp m status (run (i ∷ run_next clock ∷ []) m)
unfolding run step process_event run_first run_post run_event follow transition handle_state enter
    handle_cmd_error_or_timeout
wait-GivesUp m _ _ _ clock ack_done r c p = rw (r, p, c) (refl, refl, refl, refl)
wait-GivesUp m _ _ _ clock ack_failed r c p = rw (r, p, c) (refl, refl, refl, refl)
wait-GivesUp m _ _ _ clock rsp_done r c p = rw (r, p, c) (refl, refl, refl, refl)
wait-GivesUp m _ _ _ clock rsp_failed r c p = rw (r, p, c) (refl, refl, refl, refl)

-- A running machine in SENDING_REQUEST_ASYNC with a write in progress and no handler posted, whose
-- write timer ends: however the write then completes, after the one posted handler the machine is
-- idle, the failure event of its command, if it has one, was raised once with SEND_FAILED, the
-- queue of commands is kept, the frame has left the write queue, and no write is in progress or
-- timed out.
pub write-GivesUp :
    (m : Machine) (o : Outcome) (clock : Clock)
    → m.stopping ≡ false
    → m.current_state ≡ sending_request_async
    → m.write_in_progress ≡ true
    → m.posted ≡ []
    → let n = run (serial_write_timer_ends done ∷ write_ends o ∷ run_next clock ∷ []) m in
      GivesUp m Status.send_failed n
      × (n.write_queue ≡ pop_write m.write_queue)
      × (n.write_in_progress ≡ false)
      × (n.write_timed_out ≡ false)
unfolding run step handle_serial_write_timeout write_end process_event run_first run_post run_event
    follow transition handle_state enter handle_cmd_error_or_timeout
write-GivesUp m o clock r c w p = rw (r, w, p, c) ((refl, refl, refl, refl), refl, refl, refl)
