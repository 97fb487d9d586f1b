-- ===== src/Eep/Client/Alive/Runs.antt =====
-- The EEP client never waits for ever: in every state that it reaches, something will move it on.
use linux_pbs.Base.{
  ℕ, Bool, true, false, ◌≡◌, refl, subst, ◌+◌, ◌%◌, Option, none, some, List, [], ◌∷◌, if-both,
}
use linux_pbs.Eep.Priority
use linux_pbs.Eep.CommandType.{CommandType, send_failed}
use linux_pbs.Eep.CommandData.{CommandData}
use linux_pbs.Eep.Frame.{Clock}
use linux_pbs.Eep.Client.State.{
  State, Event, connect_fail, write_timeout, ack_timeout, response_timeout, Post, process,
  check_queue, enqueue, fail, Client,
}
use linux_pbs.Eep.Client.Dispatch.{fail_on_io_thread, shutdown_on_io_thread}
use linux_pbs.Eep.Client.Events.{run_post}
use linux_pbs.Eep.Client.Requests.{Request, enqueue_or_fail, send_deduct, send_request}
use linux_pbs.Eep.Client.Inputs.{
  Outcome, expired, aborted, failed, Timer, Input, request, run_next, connect_ends, send_ends,
  receives, disconnects, timer_ends, clock_shows, close, shut_down, handle_connect, handle_send,
  handle_timeout, timer_end, run_first, step,
}
use linux_pbs.Eep.Client.Reachable.{Admissible, Reachable, at_start, after}
use linux_pbs.Eep.Client.Timers.{start_watchdog_timer, start_health_status_timer}
use linux_pbs.Eep.Client.Alive.{
  Alive, stopped, woken, wakes, Extends, Extends-refl, Alive-Extends, ends-Alive, cancel,
}
use linux_pbs.Eep.Client.Alive.Steps.{
  enqueue_command-Extends, post_command_failure-Extends, fail_on_io_thread-Extends,
  start_watchdog_timer-Extends, start_health_status_timer-Extends,
}
use linux_pbs.Eep.Client.Alive.Rows.{first-done, run_event-Alive}
use linux_pbs.Eep.Client.Alive.Reception.{
  check_command_queue-Alive, enqueue_command_on_io_thread-Alive, handle_received_data-Alive,
}

run_post-Alive :
    (p : Post) (ps : List Post) (m : Client)
    → Alive (record m { posted = p ∷ ps })
    → Alive (run_post p (record m { posted = ps }))
unfolding run_post wakes
run_post-Alive (process e) ps m a = run_event-Alive e ps m a
run_post-Alive check_queue ps m a = check_command_queue-Alive ps m a
run_post-Alive (enqueue type priority d) ps m a =
    enqueue_command_on_io_thread-Alive type priority d (record m { posted = ps })
      (first-done m.current_state (enqueue type priority d) ps m refl a)
run_post-Alive (fail type status) ps m a =
    Alive-Extends rest (fail_on_io_thread type status rest)
      (fail_on_io_thread-Extends type status rest)
      (first-done m.current_state (fail type status) ps m refl a)
  where
    rest : Client
    rest = record m { posted = ps }

run_first-Alive : (ps : List Post) (m : Client) → m.posted ≡ ps → Alive m → Alive (run_first ps m)
unfolding run_first
run_first-Alive [] m e a = a
run_first-Alive (p ∷ ps) m e a =
    run_post-Alive p ps m (subst (λ q. Alive (record m { posted = q })) e a)

handle_timeout-Alive :
    (t : Timer) (o : Outcome) (m : Client)
    → Admissible (timer_ends t o) m
    → Alive m
    → Alive (handle_timeout t o m)
unfolding handle_timeout wakes
handle_timeout-Alive Timer.reconnect expired m h a =
    ends-Alive Timer.reconnect Event.connect m (cancel Timer.reconnect m) refl
      (Extends-refl (cancel Timer.reconnect m)) refl a
handle_timeout-Alive Timer.connect o m h a =
    ends-Alive Timer.connect connect_fail m (cancel Timer.connect m) refl
      (Extends-refl (cancel Timer.connect m)) refl a
handle_timeout-Alive Timer.send o m h a =
    ends-Alive Timer.send write_timeout m (cancel Timer.send m) refl
      (Extends-refl (cancel Timer.send m)) refl a
handle_timeout-Alive Timer.response o m h a =
    ends-Alive Timer.response response_timeout m (cancel Timer.response m) refl
      (Extends-refl (cancel Timer.response m)) refl a
handle_timeout-Alive Timer.ack o m h a =
    ends-Alive Timer.ack ack_timeout m (cancel Timer.ack m) refl (Extends-refl (cancel Timer.ack m))
      refl a
handle_timeout-Alive Timer.watchdog expired m h a =
    Alive-Extends m (start_watchdog_timer (cancel Timer.watchdog m))
      (start_watchdog_timer-Extends (cancel Timer.watchdog m)) a
handle_timeout-Alive Timer.health_status expired m h a =
    Alive-Extends m (start_health_status_timer (cancel Timer.health_status m))
      (start_health_status_timer-Extends (cancel Timer.health_status m)) a
handle_timeout-Alive Timer.reconnect failed m h a = absurd h
handle_timeout-Alive _ _ m h a = a

timer_end-Alive :
    (t : Timer) (o : Outcome) (m : Client)
    → Admissible (timer_ends t o) m
    → Alive m
    → Alive (timer_end t o m)
unfolding timer_end
timer_end-Alive t aborted m h a = a
timer_end-Alive t expired m h a = if-both Alive m.stopping a (handle_timeout-Alive t expired m h a)
timer_end-Alive t failed m h a = absurd h

enqueue_or_fail-Extends :
    (type : CommandType) (d : Option CommandData) (m : Client)
    → Extends m (enqueue_or_fail type d m)
unfolding enqueue_or_fail
enqueue_or_fail-Extends type none m = post_command_failure-Extends type send_failed m
enqueue_or_fail-Extends type (some d) m = enqueue_command-Extends type d Priority.normal m

send_deduct-Extends : (d : Option CommandData) (m : Client) → Extends m (send_deduct d m)
unfolding send_deduct
send_deduct-Extends none m = post_command_failure-Extends _ send_failed m
send_deduct-Extends (some d) m =
    enqueue_command-Extends _ d Priority.normal
      (record m { deduct_cmd_serial_no = (m.deduct_cmd_serial_no + 1) % 65536 })

send_request-Extends :
    (get_time : List ℕ → Option Clock) (r : Request) (m : Client)
    → Extends m (send_request get_time r m)
unfolding send_request
send_request-Extends get_time (Request.deduct label fee entry leaving) m = send_deduct-Extends _ m
send_request-Extends get_time (Request.deduct_stop label serial_no) m =
    enqueue_or_fail-Extends _ _ m
send_request-Extends get_time (Request.transaction label serial_no) m =
    enqueue_or_fail-Extends _ _ m
send_request-Extends get_time
      (Request.cpo_info_display label data_type line1 line2 line3 line4 line5) m =
    enqueue_or_fail-Extends _ _ m
send_request-Extends get_time (Request.carpark_process_complete label outcome fee) m =
    enqueue_or_fail-Extends _ _ m
send_request-Extends get_time (Request.dsrc_process_complete label) m =
    enqueue_or_fail-Extends _ _ m
send_request-Extends get_time (Request.stop_related_info label) m = enqueue_or_fail-Extends _ _ m
send_request-Extends get_time (Request.set_carpark_availability available total) m =
    enqueue_or_fail-Extends _ _ m
send_request-Extends get_time _ m = enqueue_command-Extends _ _ _ m

connect_ends-Alive : (success : Bool) (m : Client) → Alive m → Alive (handle_connect success m)
unfolding handle_connect wakes
connect_ends-Alive success m a =
    ends-Alive Timer.connect _ m (cancel Timer.connect m)
      (if-both (λ e. wakes State.connecting (process e) ≡ true) success refl refl)
      (Extends-refl (cancel Timer.connect m)) refl a

send_ends-Alive : (success : Bool) (m : Client) → Alive m → Alive (handle_send success m)
unfolding handle_send wakes
send_ends-Alive success m a =
    ends-Alive Timer.send _ m (cancel Timer.send m)
      (if-both (λ e. wakes State.writing_request (process e) ≡ true) success refl refl)
      (Extends-refl (cancel Timer.send m)) refl a

step-Alive :
    (get_time : List ℕ → Option Clock) (i : Input) (m : Client)
    → Admissible i m
    → Alive m
    → Alive (step get_time i m)
unfolding step shutdown_on_io_thread
step-Alive get_time (request r) m h a =
    Alive-Extends m (send_request get_time r m) (send_request-Extends get_time r m) a
step-Alive get_time run_next m h a = run_first-Alive m.posted m refl a
step-Alive get_time (connect_ends success) m h a =
    if-both Alive m.stopping known
      (connect_ends-Alive success (record m { is_connected = success }) known)
  where
    known : Alive (record m { is_connected = success })
    known = Alive-Extends m (record m { is_connected = success }) (Extends-refl m) a
step-Alive get_time (send_ends success) m h a =
    if-both Alive m.stopping a (send_ends-Alive success m a)
step-Alive get_time (receives success frame) m h a =
    if-both Alive m.stopping a (handle_received_data-Alive success frame m a)
step-Alive get_time disconnects m h a =
    Alive-Extends m (record m { is_connected = false }) (Extends-refl m) a
step-Alive get_time (timer_ends t o) m h a = timer_end-Alive t o m h a
step-Alive get_time (clock_shows c) m h a =
    Alive-Extends m (record m { clock = c }) (Extends-refl m) a
step-Alive get_time close m h a = stopped refl
step-Alive get_time shut_down m h a = stopped h

-- In every state that admissible inputs reach, one of these holds: the client is being closed; the
-- timer of its state runs, or it is connected with an empty queue; or a posted handler waits that it
-- will follow, an event of its state's rows or, when connected, a look at the queue.
pub Reachable-Alive :
    (get_time : List ℕ → Option Clock) (m : Client) → Reachable get_time m → Alive m
unfolding wakes
Reachable-Alive get_time _ (at_start e clock serial_no) = woken refl
Reachable-Alive get_time _ (after m i r h) =
    step-Alive get_time i m h (Reachable-Alive get_time m r)
