-- ===== src/Upt/Machine/Inputs.antt =====
-- What can happen to the machine from outside, one step at a time.
use linux_pbs.Base.{ℕ, ◌+◌, ◌-◌, false, List, [], ◌∷◌}
use linux_pbs.Upt.Command.{UptCmd, CommandData}
use linux_pbs.Upt.Prepare.{Clock}
use linux_pbs.Upt.Machine.State.{
  ack_timeout, response_timeout, cancel_command, Post, Machine, process_event,
}
use linux_pbs.Upt.Machine.Writer.{
  Outcome, aborted, write_end, delay_end, handle_serial_write_timeout,
}
use linux_pbs.Upt.Machine.Queue.{enqueue_command}
use linux_pbs.Upt.Machine.Events.{run_post}
use linux_pbs.Upt.Machine.Receive.{read_end}

pub data Input : Type 0 where
  -- The FnUptSend… calls, and FnUptSendDeviceCancelCommandRequest.
  send : UptCmd → CommandData → Input
  cancel : Input
  -- The io_context runs the first posted handler, at some time of day.
  run_next : Clock → Input
  -- Completions.
  write_ends delay_ends serial_write_timer_ends ack_timer_ends rsp_timer_ends : Outcome → Input
  read_ends : List ℕ → Input
  passes : ℕ → Input

-- Upt::handleAckTimeout; a timer's error counts as a timeout.
handle_ack_timeout : Outcome → Machine → Machine
unfolding process_event
handle_ack_timeout aborted m = m
handle_ack_timeout _ m = process_event ack_timeout (record m { ack_timer = false })

-- Upt::handleCmdResponseTimeout.
handle_cmd_response_timeout : Outcome → Machine → Machine
unfolding process_event
handle_cmd_response_timeout aborted m = m
handle_cmd_response_timeout _ m = process_event response_timeout (record m { rsp_timer = false })

unfoldable pub run_first : Clock → List Post → Machine → Machine
unfolding run_post
run_first clock [] m = m
run_first clock (p ∷ ps) m = run_post clock p (record m { posted = ps })

unfoldable pub step : Input → Machine → Machine
unfolding enqueue_command process_event run_first write_end delay_end handle_serial_write_timeout
    handle_ack_timeout handle_cmd_response_timeout read_end
step (send cmd d) m = enqueue_command cmd d false m
step cancel m = process_event cancel_command m
step (run_next clock) m = run_first clock m.posted m
step (write_ends o) m = write_end o (record m { writes_outstanding = m.writes_outstanding - 1 })
step (delay_ends o) m = delay_end o m
step (serial_write_timer_ends o) m =
    handle_serial_write_timeout o (record m { serial_write_timer = false })
step (ack_timer_ends o) m = handle_ack_timeout o m
step (rsp_timer_ends o) m = handle_cmd_response_timeout o m
step (read_ends bytes) m = read_end bytes m
step (passes ms) m = record m { read_age = m.read_age + ms }

unfoldable pub run : List Input → Machine → Machine
unfolding step
run [] m = m
run (i ∷ is) m = run is (step i m)
