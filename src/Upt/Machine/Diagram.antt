-- ===== src/Upt/Machine/Diagram.antt =====
-- The state changes along the rows of stateTransitionTable alone.
use linux_pbs.Base.{
  ℕ, ◌-◌, ◌≡◌, refl, sym, ap, ◌⊎◌, inl, inr, Bool, false, not, ◌||◌, List, [], ◌∷◌, ◌==◌, Option,
  none, some, if-both, arith,
}
use linux_pbs.Upt.Status
use linux_pbs.Upt.Command.{UptCmd, CommandData, CommandWithData, check_cmd}
use linux_pbs.Upt.Message.{Message}
use linux_pbs.Upt.Parser.{parse_msg_data}
use linux_pbs.Upt.Prepare.{Clock}
use linux_pbs.Upt.Receiver.{consume_received_bytes}
use linux_pbs.Upt.Machine.State.{
  State, Event, Post, process, check_queue, enqueue, Machine, process_event,
}
use linux_pbs.Upt.Machine.Writer.{
  Outcome, done, aborted, failed, start_write, write_end, delay_end, handle_serial_write_timeout,
}
use linux_pbs.Upt.Machine.Queue.{
  enqueue_command, check_command_queue, announce, enqueue_command_on_io_thread, is_idle,
}
use linux_pbs.Upt.Machine.Events.{transition, handle_state, enter, follow, run_event, run_post}
use linux_pbs.Upt.Machine.Receive.{
  class_ack, class_rsp, is_msg_status_valid, receive_ack, receive_response, receive_class,
  receive_demands, receive_message, receive_parsed, handle_received_cmd, handle_frames, read_end,
}
use linux_pbs.Upt.Machine.Inputs.{
  Input, send, cancel, run_next, write_ends, delay_ends, serial_write_timer_ends, ack_timer_ends,
  rsp_timer_ends, read_ends, passes, run_first, step,
}

-- The machine is in a state.
abbrev At : State → Machine → Type 0
At s m = m.current_state ≡ s

process_event-At : (s : State) (e : Event) (m : Machine) → At s m → At s (process_event e m)
unfolding process_event
process_event-At s e m v = if-both (At s) m.stopping v v

enqueue_command-At :
    (s : State) (cmd : UptCmd) (d : CommandData) (front : Bool) (m : Machine)
    → At s m
    → At s (enqueue_command cmd d front m)
unfolding enqueue_command
enqueue_command-At s cmd d front m v = if-both (At s) m.accepting_work v v

announce-At :
    (s : State) (queue : List CommandWithData) (m : Machine) → At s m → At s (announce queue m)
unfolding announce
announce-At s [] m v = v
announce-At s (c ∷ cs) m v = process_event-At s _ m v

check_command_queue-At : (s : State) (m : Machine) → At s m → At s (check_command_queue m)
unfolding check_command_queue
check_command_queue-At s m v =
    if-both (At s) (m.stopping || _) v (announce-At s m.command_queue m v)

enqueue_command_on_io_thread-At :
    (s : State) (cmd : UptCmd) (d : CommandData) (front : Bool) (m : Machine)
    → At s m
    → At s (enqueue_command_on_io_thread cmd d front m)
unfolding enqueue_command_on_io_thread
enqueue_command_on_io_thread-At s cmd d front m v =
    if-both (At s) (m.stopping || _) v
      (if-both (At s) (not (check_cmd cmd)) v (check_command_queue-At s _ v))

receive_class-At : (s : State) (msg : Message) (m : Machine) → At s m → At s (receive_class msg m)
unfolding receive_class receive_ack receive_response
receive_class-At s msg m v =
    if-both (At s) (msg.header.msg_class == class_ack)
      (if-both (At s) (is_msg_status_valid msg.header.msg_status) (process_event-At s _ _ v)
        (process_event-At s _ _ v))
      (if-both (At s) (msg.header.msg_class == class_rsp) (process_event-At s _ _ v) v)

receive_demands-At :
    (s : State) (status : ℕ) (m : Machine) → At s m → At s (receive_demands status m)
unfolding receive_demands
receive_demands-At s status m v =
    let reset =
      if-both (At s) (status == Status.invalid_parameter) (enqueue_command-At s _ _ _ m v) v in
    if-both (At s) (status == Status.sof_logon_required) (enqueue_command-At s _ _ _ _ reset) reset

receive_parsed-At :
    (s : State) (p : Option (ℕ × Message)) (m : Machine) → At s m → At s (receive_parsed p m)
unfolding receive_parsed receive_message
receive_parsed-At s none m v = v
receive_parsed-At s (some (status, msg)) m v =
    if-both (At s) (status == Status.success)
      (if-both (At s) (msg.header.msg_sequence == m.sequence_no)
        (receive_demands-At s msg.header.msg_status (receive_class msg m)
          (receive_class-At s msg m v))
        v)
      v

handle_frames-At :
    (s : State) (fs : List (List ℕ)) (m : Machine) → At s m → At s (handle_frames fs m)
unfolding handle_frames handle_received_cmd
handle_frames-At s [] m v = v
handle_frames-At s (f ∷ fs) m v =
    handle_frames-At s fs _ (receive_parsed-At s (parse_msg_data f) m v)

-- The event that an input brings to the table, if any: the posted one whose turn it is.
pub data Turns : Input → List Post → Event → Type 0 where
  its_turn :
      (clock : Clock) (e : Event) (ps : List Post) → Turns (run_next clock) (process e ∷ ps) e

-- Either nothing changes the state, or one row of the table does.
abbrev pub Follows : Input → Machine → Machine → Type 0
Follows i m n =
    (n.current_state ≡ m.current_state)
    ⊎ ((e : Event) × (Turns i m.posted e × (transition m.current_state e ≡ some n.current_state)))

enter_state : (s : State) (m : Machine) → (enter s m).current_state ≡ s
unfolding enter
enter_state s m = if-both (At s) (is_idle s) refl refl

follow_row :
    (row : Option State) (clock : Clock) (e : Event) (m : Machine)
    → ((follow row clock e m).current_state ≡ m.current_state)
      ⊎ (row ≡ some (follow row clock e m).current_state)
unfolding follow
follow_row none clock e m = inl refl
follow_row (some s) clock e m =
    inr (ap some (sym (enter_state s (handle_state m.current_state clock e m))))

run_event_row :
    (clock : Clock) (e : Event) (m : Machine)
    → ((run_event clock e m).current_state ≡ m.current_state)
      ⊎ (transition m.current_state e ≡ some (run_event clock e m).current_state)
unfolding run_event
run_event_row clock e m =
    if-both
      (λ (n : Machine).
        (n.current_state ≡ m.current_state) ⊎ (transition m.current_state e ≡ some n.current_state))
      m.stopping (inl refl) (follow_row (transition m.current_state e) clock e m)

run_first-Follows :
    (clock : Clock) (ps : List Post) (m : Machine)
    → m.posted ≡ ps
    → Follows (run_next clock) m (run_first clock ps m)
unfolding run_first run_post
run_first-Follows clock [] m e = inl refl
run_first-Follows clock (process ev ∷ ps) m e =
    elim (run_event_row clock ev (record m { posted = ps })) [
      | inl same ↦ inl same
      | inr row ↦ inr (ev, (rw e (its_turn clock ev ps), row))
    ]
run_first-Follows clock (check_queue ∷ ps) m e = inl (check_command_queue-At m.current_state _ refl)
run_first-Follows clock (enqueue cmd d front ∷ ps) m e =
    inl (enqueue_command_on_io_thread-At m.current_state cmd d front _ refl)

write_end-At : (o : Outcome) (m : Machine) → At m.current_state (write_end o m)
unfolding write_end process_event
write_end-At done m = ground arith
write_end-At aborted m = ground arith
write_end-At failed m = ground arith

delay_end-At : (o : Outcome) (m : Machine) → At m.current_state (delay_end o m)
unfolding delay_end process_event start_write
delay_end-At done m = ground arith
delay_end-At aborted m = ground arith
delay_end-At failed m = ground arith

-- Whatever happens to the machine, its state stays, or the input runs a posted event that the table
-- has a row for in the present state, and the new state is the row's. No call, completion, timer or
-- received frame changes the state by itself.
pub step-Follows : (i : Input) (m : Machine) → Follows i m (step i m)
unfolding step handle_serial_write_timeout read_end
step-Follows (send cmd d) m = inl (enqueue_command-At _ cmd d false m refl)
step-Follows cancel m = inl (process_event-At _ _ m refl)
step-Follows (run_next clock) m = run_first-Follows clock m.posted m refl
step-Follows (write_ends o) m =
    inl (write_end-At o (record m { writes_outstanding = m.writes_outstanding - 1 }))
step-Follows (delay_ends o) m = inl (delay_end-At o m)
step-Follows (serial_write_timer_ends aborted) m = inl refl
step-Follows (serial_write_timer_ends _) m =
    inl (if-both (At m.current_state) (m.stopping || _) refl refl)
step-Follows (ack_timer_ends aborted) m = inl refl
step-Follows (ack_timer_ends _) m = inl (process_event-At _ _ _ refl)
step-Follows (rsp_timer_ends aborted) m = inl refl
step-Follows (rsp_timer_ends _) m = inl (process_event-At _ _ _ refl)
step-Follows (read_ends bytes) m = inl (
    if-both (At m.current_state) m.stopping refl (
      handle_frames-At m.current_state (consume_received_bytes bytes m.rx).1
        (record m { read_age = 0; rx = (consume_received_bytes bytes m.rx).0 }) refl))
step-Follows (passes ms) m = inl refl
