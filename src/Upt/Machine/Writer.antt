-- ===== src/Upt/Machine/Writer.antt =====
-- The serial writer: enqueueWrite, startWrite, writeEnd, stopSerialWriteDelayTimer and the timeout of
-- a write.
use linux_pbs.Base.{ℕ, ◌+◌, Bool, true, false, not, ◌||◌, List, [], ◌∷◌, ◌++◌, ltb, if◌then◌else◌}
use linux_pbs.Upt.Machine.State.{
  Machine, write_completed, write_failed, write_timeout, process_event,
}

-- The `boost::system::error_code` of a completion: none, operation_aborted, or another.
pub data Outcome : Type 0 where
  done aborted failed : Outcome

-- kSerialWriteGap, in milliseconds.
abbrev pub serial_write_gap : ℕ
serial_write_gap = 2000

-- The delay before the write, or the write of the queue's front.
write_front : List ℕ → Machine → Machine
write_front front m =
    if ltb m.read_age serial_write_gap
    then record m { write_in_progress = true; write_delay_active = true }
    else record m {
      write_in_progress = true;
      write_delay_active = false;
      writes_outstanding = m.writes_outstanding + 1;
      wire = m.wire ++ front ∷ [];
    }

write_queued : List (List ℕ) → Machine → Machine
unfolding write_front
write_queued [] m = record m { write_in_progress = false }
write_queued (front ∷ rest) m = write_front front m

unfoldable pub start_write : Machine → Machine
unfolding write_queued
start_write m =
    if m.stopping || not m.port_open
    then record m { write_in_progress = false }
    else write_queued m.write_queue m

is_empty : List ℕ → Bool
is_empty [] = true
is_empty (x ∷ xs) = false

unfoldable pub enqueue_write : List ℕ → Machine → Machine
unfolding is_empty start_write
enqueue_write bytes m =
    if m.stopping || is_empty bytes
    then m
    else let queued = record m { write_queue = m.write_queue ++ bytes ∷ [] } in
      if m.write_in_progress then queued else start_write queued

-- `if (!writeQueue_.empty()) writeQueue_.pop()`.
abbrev pub pop_write : List (List ℕ) → List (List ℕ)
pop_write [] = []
pop_write (front ∷ rest) = rest

-- The completion handler of async_write. An abort outside a timeout counts as a failure.
write_result : Outcome → Machine → Machine
unfolding process_event
write_result done m = process_event write_completed m
write_result aborted m = process_event write_failed m
write_result failed m = process_event write_failed m

unfoldable pub write_end : Outcome → Machine → Machine
unfolding write_result process_event
write_end outcome m =
    if m.stopping
    then record m { write_in_progress = false; write_delay_active = false; write_timed_out = false }
    else let popped = record m {
      write_queue = pop_write m.write_queue;
      write_in_progress = false;
    } in
      if m.write_timed_out
      then process_event write_timeout (record popped { write_timed_out = false })
      else write_result outcome popped

-- The handler of the delay timer.
unfoldable pub delay_end : Outcome → Machine → Machine
unfolding process_event start_write
delay_end aborted m = record m { write_delay_active = false }
delay_end done m =
    let n = record m { write_delay_active = false } in if m.stopping then n else start_write n
delay_end failed m =
    let n = record m { write_delay_active = false } in
    if m.stopping then n else process_event write_failed (record n { write_in_progress = false })

unfoldable pub stop_serial_write_delay_timer : Machine → Machine
stop_serial_write_delay_timer m = if not m.write_delay_active then m else record m {
  write_delay_active = false;
  write_queue = pop_write m.write_queue;
  write_in_progress = false;
}

-- Upt::handleSerialWriteTimeout: the write is cancelled, and its completion reports the timeout.
unfoldable pub handle_serial_write_timeout : Outcome → Machine → Machine
handle_serial_write_timeout aborted m = m
handle_serial_write_timeout _ m =
    if m.stopping || not m.write_in_progress then m else record m { write_timed_out = true }
