-- ===== src/Upt/Machine/Invariant.antt =====
-- What holds in every state that the Upt machine reaches.
use linux_pbs.Base.{
  ℕ, ◌-◌, ◌<◌, ◌≡◌, refl, false, ◌||◌, List, [], ◌∷◌, ◌++◌, arith, if-both, ◌==◌, Option, none,
  some,
}
use linux_pbs.Upt.Status
use linux_pbs.Upt.Message.{Message}
use linux_pbs.Upt.Parser.{parse_msg_data}
use linux_pbs.Upt.Prepare.{Clock}
use linux_pbs.Upt.Receiver.{consume_received_bytes}
use linux_pbs.Upt.Receiver.Frames.{consume_received_bytes-Receives}
use linux_pbs.Upt.Machine.State.{Post, Machine, process_event, started}
use linux_pbs.Upt.Machine.Writer.{
  Outcome, done, aborted, failed, start_write, write_end, delay_end, handle_serial_write_timeout,
}
use linux_pbs.Upt.Machine.Writes.{late_after, write_end-Writes, delay_end-Writes}
use linux_pbs.Upt.Machine.Receive.{
  class_ack, class_rsp, is_msg_status_valid, receive_ack, receive_response, receive_class,
  receive_demands, receive_message, receive_parsed, handle_received_cmd, handle_frames, read_end,
}
use linux_pbs.Upt.Machine.Inputs.{
  Input, send, cancel, run_next, write_ends, delay_ends, serial_write_timer_ends, ack_timer_ends,
  rsp_timer_ends, read_ends, passes, run_first, step,
}
use linux_pbs.Upt.Machine.Preserves.{Inv, process_event-Inv, enqueue_command-Inv, run_post-Inv}

receive_class-Inv :
    {late : ℕ} (msg : Message) (m : Machine) → Inv late m → Inv late (receive_class msg m)
unfolding receive_class receive_ack receive_response
receive_class-Inv msg m v =
    if-both (Inv _) (msg.header.msg_class == class_ack)
      (if-both (Inv _) (is_msg_status_valid msg.header.msg_status)
        (process_event-Inv _ (record m { ack_timer = false }) v)
        (process_event-Inv _ (record m { ack_timer = false }) v))
      (if-both (Inv _) (msg.header.msg_class == class_rsp)
        (process_event-Inv _ (record m { responses = m.responses ++ msg ∷ []; rsp_timer = false })
          v)
        v)

receive_demands-Inv :
    {late : ℕ} (status : ℕ) (m : Machine) → Inv late m → Inv late (receive_demands status m)
unfolding receive_demands
receive_demands-Inv status m v =
    if-both (Inv _) (status == Status.sof_logon_required)
      (enqueue_command-Inv _ _ _ _
        (if-both (Inv _) (status == Status.invalid_parameter) (enqueue_command-Inv _ _ _ m v) v))
      (if-both (Inv _) (status == Status.invalid_parameter) (enqueue_command-Inv _ _ _ m v) v)

receive_parsed-Inv :
    {late : ℕ} (p : Option (ℕ × Message)) (m : Machine) → Inv late m → Inv late (receive_parsed p m)
unfolding receive_parsed receive_message
receive_parsed-Inv none m v = v
receive_parsed-Inv (some (status, msg)) m v =
    if-both (Inv _) (status == Status.success)
      (if-both (Inv _) (msg.header.msg_sequence == m.sequence_no)
        (receive_demands-Inv msg.header.msg_status (receive_class msg m)
          (receive_class-Inv msg m v))
        v)
      v

handle_frames-Inv :
    {late : ℕ} (fs : List (List ℕ)) (m : Machine) → Inv late m → Inv late (handle_frames fs m)
unfolding handle_frames handle_received_cmd
handle_frames-Inv [] m v = v
handle_frames-Inv (f ∷ fs) m v = handle_frames-Inv fs _ (receive_parsed-Inv (parse_msg_data f) m v)

read_end-Inv : {late : ℕ} (bytes : List ℕ) (m : Machine) → Inv late m → Inv late (read_end bytes m)
unfolding read_end
read_end-Inv bytes m (w, r, n) =
    if-both (Inv _) m.stopping (w, r, n)
      (handle_frames-Inv (consume_received_bytes bytes m.rx).1
        (record m { read_age = 0; rx = (consume_received_bytes bytes m.rx).0 })
        (w, (consume_received_bytes-Receives bytes m.rx r).0, n))

-- A write ends only after it began. Every timer may end in every way at every time: a wait that was
-- cancelled may already have expired, and then its handler still runs with success.
abbrev pub Admissible : Input → Machine → Type 0
Admissible (write_ends o) m = 0 < m.writes_outstanding
Admissible _ m = Unit {0}

write_end_same :
    (o : Outcome) (m : Machine)
    → ((write_end o m).rx ≡ m.rx) × ((write_end o m).sequence_no ≡ m.sequence_no)
unfolding write_end process_event
write_end_same done m = ground arith
write_end_same aborted m = ground arith
write_end_same failed m = ground arith

delay_end_same :
    (o : Outcome) (m : Machine)
    → ((delay_end o m).rx ≡ m.rx) × ((delay_end o m).sequence_no ≡ m.sequence_no)
unfolding delay_end process_event start_write
delay_end_same done m = ground arith
delay_end_same aborted m = ground arith
delay_end_same failed m = ground arith

write_end-Inv :
    {late : ℕ} (o : Outcome) (m : Machine)
    → 0 < m.writes_outstanding
    → Inv late m
    → Inv late (write_end o (record m { writes_outstanding = m.writes_outstanding - 1 }))
write_end-Inv o m h (w, r, n) =
    let (rx, counted) =
      write_end_same o (record m { writes_outstanding = m.writes_outstanding - 1 }) in
    (write_end-Writes _ o m h w, rw rx r, rw counted n)

delay_end-Inv :
    (late : ℕ) (o : Outcome) (m : Machine)
    → Inv late m
    → Inv (late_after o m.writes_outstanding late) (delay_end o m)
delay_end-Inv late o m (w, r, n) =
    let (rx, counted) = delay_end_same o m in (delay_end-Writes late o m w, rw rx r, rw counted n)

timer_ends-Inv :
    {late : ℕ} (o : Outcome) (m : Machine)
    → Inv late m
    → Inv late (handle_serial_write_timeout o (record m { serial_write_timer = false }))
unfolding handle_serial_write_timeout
timer_ends-Inv aborted m v = v
timer_ends-Inv done m v = if-both (Inv _) (m.stopping || _) v v
timer_ends-Inv failed m v = if-both (Inv _) (m.stopping || _) v v

run_first-Inv :
    {late : ℕ} (clock : Clock) (ps : List Post) (m : Machine)
    → Inv late m
    → Inv late (run_first clock ps m)
unfolding run_first
run_first-Inv clock [] m v = v
run_first-Inv clock (p ∷ ps) m v = run_post-Inv clock p (record m { posted = ps }) v

-- The late ends of delay waits so far.
abbrev pub counted : Input → Machine → ℕ → ℕ
counted (delay_ends o) m late = late_after o m.writes_outstanding late
counted _ m late = late

step-Inv :
    (late : ℕ) (i : Input) (m : Machine)
    → Admissible i m
    → Inv late m
    → Inv (counted i m late) (step i m)
unfolding step
step-Inv late (send cmd d) m h v = enqueue_command-Inv cmd d false m v
step-Inv late cancel m h v = process_event-Inv _ m v
step-Inv late (run_next clock) m h v = run_first-Inv clock m.posted m v
step-Inv late (write_ends o) m h v = write_end-Inv o m h v
step-Inv late (delay_ends o) m h v = delay_end-Inv late o m v
step-Inv late (serial_write_timer_ends o) m h v = timer_ends-Inv o m v
step-Inv late (ack_timer_ends aborted) m h v = v
step-Inv late (ack_timer_ends _) m h v = process_event-Inv _ (record m { ack_timer = false }) v
step-Inv late (rsp_timer_ends aborted) m h v = v
step-Inv late (rsp_timer_ends _) m h v = process_event-Inv _ (record m { rsp_timer = false }) v
step-Inv late (read_ends bytes) m h v = read_end-Inv bytes m v
step-Inv late (passes ms) m h v = v

-- The states that admissible inputs lead to, from the one that startModule leaves, and how many of the
-- inputs were a delay wait that ended, but not with an abort, while an async_write had not completed.
pub data Reachable : ℕ → Machine → Type 0 where
  at_start : Reachable 0 started
  after :
      (late : ℕ) (m : Machine) (i : Input)
      → Reachable late m
      → Admissible i m
      → Reachable (counted i m late) (step i m)

-- In every state that inputs reach from the machine's start, whichever way each timer's wait ends, a
-- cancelled one's included, and when, where only a write that began may end: a write in progress has
-- its frame in the write queue; and the async_writes that have not completed, with one more if a delay
-- runs, are at most one for a write in progress, none otherwise, and one for each time so far that the
-- delay's wait ended, but not with an abort, while an async_write had not completed. So without such an
-- end at most one async_write is outstanding, only while a write is in progress, and none while a delay
-- runs. The receive buffer has its shape, and the sequence number is below 2 ^ 32.
pub Reachable-Inv : (late : ℕ) (m : Machine) → Reachable late m → Inv late m
Reachable-Inv _ _ at_start = (
  record { running = refl; front_kept = ground arith; few_writes = omega arith },
  refl,
  omega arith,
)
Reachable-Inv _ _ (after late m i r h) = step-Inv late i m h (Reachable-Inv late m r)
