-- ===== src/Upt/Machine/Preserves.antt =====
-- The operations of the machine keep its invariant.
use linux_pbs.Base.{
  ℕ, ◌^◌, ◌<◌, ◌≡◌, Bool, not, ◌||◌, List, [], ◌∷◌, arith, if-both, Option, none, some,
}
use linux_pbs.Upt.Command.{UptCmd, CommandData, CommandWithData, check_cmd}
use linux_pbs.Upt.Prepare.{Clock, prepare_cmd}
use linux_pbs.Upt.Prepare.RoundTrip.{next_sequence_no-lt}
use linux_pbs.Upt.Receiver.Frames.{IsValid}
use linux_pbs.Upt.Machine.State.{
  State, idle, sending_request_async, waiting_for_ack, waiting_for_response, Event, Post, process,
  check_queue, enqueue, Machine, process_event, command_enqueued, cancel_command,
  cancel_command_clean_up_and_enqueue,
}
use linux_pbs.Upt.Machine.Writer.{start_write, enqueue_write, stop_serial_write_delay_timer}
use linux_pbs.Upt.Machine.Writes.{
  Writes, enqueue_write-Writes, stop_serial_write_delay_timer-Writes,
}
use linux_pbs.Upt.Machine.Queue.{
  enqueue_command, check_command_queue, enqueue_command_on_io_thread, announce, send_front, is_idle,
  pop_from_command_queue_and_enqueue_write,
}
use linux_pbs.Upt.Machine.Failure.{handle_cmd_error_or_timeout}
use linux_pbs.Upt.Machine.Events.{transition, handle_state, enter, follow, run_event, run_post}

-- The writer has few writes on their way, the receiver is in shape, and the sequence number is
-- a uint32.
abbrev pub Inv : ℕ → Machine → Type 0
Inv late m = Writes late m × IsValid m.rx × (m.sequence_no < 2 ^ 32)

pub process_event-Inv :
    {late : ℕ} (e : Event) (m : Machine) → Inv late m → Inv late (process_event e m)
unfolding process_event
process_event-Inv e m v = if-both (Inv _) m.stopping v v

pub enqueue_command-Inv :
    {late : ℕ} (cmd : UptCmd) (d : CommandData) (front : Bool) (m : Machine)
    → Inv late m
    → Inv late (enqueue_command cmd d front m)
unfolding enqueue_command
enqueue_command-Inv cmd d front m v = if-both (Inv _) m.accepting_work v v

-- The writer leaves the receiver and the sequence number alone.
enqueue_write_same :
    (bytes : List ℕ) (m : Machine)
    → ((enqueue_write bytes m).rx ≡ m.rx) × ((enqueue_write bytes m).sequence_no ≡ m.sequence_no)
unfolding enqueue_write start_write
enqueue_write_same bytes m = ground arith

enqueue_write-Inv :
    {late : ℕ} (bytes : List ℕ) (m : Machine) → Inv late m → Inv late (enqueue_write bytes m)
enqueue_write-Inv bytes m (w, r, n) =
    let (rx, counted) = enqueue_write_same bytes m in
    (enqueue_write-Writes _ bytes m w, rw rx r, rw counted n)

announce-Inv :
    {late : ℕ} (queue : List CommandWithData) (m : Machine)
    → Inv late m
    → Inv late (announce queue m)
unfolding announce
announce-Inv [] m v = v
announce-Inv (c ∷ cs) m v = process_event-Inv _ m v

check_command_queue-Inv : {late : ℕ} (m : Machine) → Inv late m → Inv late (check_command_queue m)
unfolding check_command_queue
check_command_queue-Inv m v = if-both (Inv _) (m.stopping || _) v (announce-Inv m.command_queue m v)

enqueue_command_on_io_thread-Inv :
    {late : ℕ} (cmd : UptCmd) (d : CommandData) (front : Bool) (m : Machine)
    → Inv late m
    → Inv late (enqueue_command_on_io_thread cmd d front m)
unfolding enqueue_command_on_io_thread
enqueue_command_on_io_thread-Inv cmd d front m v =
    if-both (Inv _) (m.stopping || _) v
      (if-both (Inv _) (not (check_cmd cmd)) v (check_command_queue-Inv _ v))

send_front-Inv :
    {late : ℕ} (queue : List CommandWithData) (clock : Clock) (m : Machine)
    → Inv late m
    → Inv late (send_front queue clock m)
unfolding send_front prepare_cmd
send_front-Inv [] clock m v = v
send_front-Inv (c ∷ cs) clock m (w, r, n) =
    enqueue_write-Inv _ _ (w, r, (next_sequence_no-lt c.cmd m.sequence_no n).0)

stop_delay-Inv : {late : ℕ} (m : Machine) → Inv late m → Inv late (stop_serial_write_delay_timer m)
unfolding stop_serial_write_delay_timer
stop_delay-Inv m v = (stop_serial_write_delay_timer-Writes _ m v.0, ground arith, ground arith)

-- The rows of the table call these handlers alone.
handle_state-Inv :
    {late : ℕ} (s : State) (clock : Clock) (e : Event) (m : Machine)
    → Inv late m
    → Inv late (handle_state s clock e m)
unfolding handle_state handle_cmd_error_or_timeout pop_from_command_queue_and_enqueue_write
handle_state-Inv idle clock command_enqueued m v = send_front-Inv m.command_queue clock m v
handle_state-Inv idle clock cancel_command m v = enqueue_command-Inv _ _ _ m v
handle_state-Inv idle clock _ m v = v
handle_state-Inv sending_request_async clock cancel_command m v = process_event-Inv _ m v
handle_state-Inv sending_request_async clock _ m v = v
handle_state-Inv waiting_for_ack clock cancel_command m v = process_event-Inv _ m v
handle_state-Inv waiting_for_ack clock _ m v = v
handle_state-Inv waiting_for_response clock cancel_command m v = process_event-Inv _ m v
handle_state-Inv waiting_for_response clock _ m v = v
handle_state-Inv State.cancel_command_request clock cancel_command_clean_up_and_enqueue m v =
    process_event-Inv _ _ (stop_delay-Inv _ v)
handle_state-Inv State.cancel_command_request clock _ m v = v

enter-Inv : {late : ℕ} (s : State) (m : Machine) → Inv late m → Inv late (enter s m)
unfolding enter
enter-Inv s m v = if-both (Inv _) (is_idle s) v v

follow-Inv :
    {late : ℕ} (s : Option State) (clock : Clock) (e : Event) (m : Machine)
    → Inv late m
    → Inv late (follow s clock e m)
unfolding follow
follow-Inv none clock e m v = v
follow-Inv (some s) clock e m v =
    enter-Inv s (handle_state m.current_state clock e m)
      (handle_state-Inv m.current_state clock e m v)

pub run_post-Inv :
    {late : ℕ} (clock : Clock) (p : Post) (m : Machine) → Inv late m → Inv late (run_post clock p m)
unfolding run_post run_event
run_post-Inv clock (process e) m v =
    if-both (Inv _) m.stopping v (follow-Inv (transition m.current_state e) clock e m v)
run_post-Inv clock check_queue m v = check_command_queue-Inv m v
run_post-Inv clock (enqueue cmd d front) m v = enqueue_command_on_io_thread-Inv cmd d front m v
