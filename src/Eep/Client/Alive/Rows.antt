-- ===== src/Eep/Client/Alive/Rows.antt =====
-- Every row of the EEP client's transition table leads to a state that the client leaves by itself.
use linux_pbs.Base.{
  Bool, true, false, not, ◌||◌, ◌≡◌, refl, subst, ◌∙◌, Option, none, some, List, ◌∷◌, if-both,
  if-by,
}
use linux_pbs.Eep.CommandType.{uses_controller_sequence}
use linux_pbs.Eep.Client.State.{
  State, idle, connecting, connected, writing_request, waiting_for_response, Event, connect,
  connect_success, connect_fail, check_command, write_command, write_completed, write_timeout,
  ack_timer_cancelled_ack_received, ack_as_rsp_received, ack_timeout,
  response_timer_cancelled_rsp_received, response_timeout, reconnect_request,
  unsolicited_request_done, Post, process, check_queue, Client,
}
use linux_pbs.Eep.Client.Events.{
  transition, handle_idle_state, handle_connecting_state, handle_connected_state,
  handle_writing_request_state, handle_waiting_for_response_state, handle_state, enter, follow,
  run_event,
}
use linux_pbs.Eep.Client.Alive.{AliveAt, Alive, stopped, waits, woken, wakes, any, AliveAt-post}
use linux_pbs.Eep.Client.Alive.Steps.{
  notify_connection_state-Extends, begin_reconnect-timer, pop_from_command_queue-stopping,
}

-- A client that enters CONNECTED looks at its queue.
enter-connected : (m : Client) → Alive (enter connected m)
unfolding enter wakes
enter-connected m = AliveAt-post connected check_queue (record m { current_state = connected }) refl

-- Any other state is entered as it is.
enter-other : (s : State) (m : Client) → AliveAt s m → Alive (enter s m)
unfolding enter
enter-other connected m a = enter-connected m
enter-other idle m (stopped h) = stopped h
enter-other idle m (waits h) = waits h
enter-other idle m (woken h) = woken h
enter-other connecting m (stopped h) = stopped h
enter-other connecting m (waits h) = waits h
enter-other connecting m (woken h) = woken h
enter-other writing_request m (stopped h) = stopped h
enter-other writing_request m (waits h) = waits h
enter-other writing_request m (woken h) = woken h
enter-other waiting_for_response m (stopped h) = stopped h
enter-other waiting_for_response m (waits h) = waits h
enter-other waiting_for_response m (woken h) = woken h

writing :
    (m : Client)
    → m.stopping ≡ false
    → AliveAt writing_request (handle_connected_state write_command m)
unfolding handle_connected_state wakes
writing m h =
    if-both (AliveAt writing_request) (not m.is_connected)
      (AliveAt-post writing_request (process reconnect_request) m refl)
      (waits (rw (pop_from_command_queue-stopping m ∙ h) refl))

waiting :
    (m : Client)
    → m.stopping ≡ false
    → AliveAt waiting_for_response (handle_writing_request_state write_completed m)
unfolding handle_writing_request_state wakes
waiting m h =
    if-both (AliveAt waiting_for_response) (not (uses_controller_sequence m.current_cmd.type))
      (AliveAt-post waiting_for_response (process unsolicited_request_done) m refl)
      (waits (rw h refl))

or-true : (b : Bool) → (b || true) ≡ true
or-true true = refl
or-true false = refl

waiting_on :
    (m : Client)
    → m.stopping ≡ false
    → AliveAt waiting_for_response
        (handle_waiting_for_response_state ack_timer_cancelled_ack_received m)
unfolding handle_waiting_for_response_state
waiting_on m h = waits (rw h (or-true m.ack_timer))

dialling : (m : Client) → m.stopping ≡ false → AliveAt connecting (handle_idle_state connect m)
unfolding handle_idle_state
dialling m h = waits (rw h refl)

unavailable :
    (m : Client) → m.stopping ≡ false → AliveAt idle (handle_connecting_state connect_fail m)
unfolding handle_connecting_state
unavailable m h = waits (rw ((notify_connection_state-Extends false m).0 ∙ h) refl)

reconnecting_connected :
    (m : Client) → m.stopping ≡ false → AliveAt idle (handle_connected_state reconnect_request m)
unfolding handle_connected_state
reconnecting_connected m h = waits (begin_reconnect-timer false m h)

reconnecting_writing :
    (m : Client)
    → m.stopping ≡ false
    → AliveAt idle (handle_writing_request_state reconnect_request m)
unfolding handle_writing_request_state
reconnecting_writing m h = waits (begin_reconnect-timer true m h)

reconnecting_waiting :
    (m : Client)
    → m.stopping ≡ false
    → AliveAt idle (handle_waiting_for_response_state reconnect_request m)
unfolding handle_waiting_for_response_state
reconnecting_waiting m h = waits (begin_reconnect-timer true m h)

-- Where a row leads.
abbrev Next : Option State → State → Event → Client → Type 0
Next none s e m = Unit
Next (some t) s e m = Alive (enter t (handle_state s e m))

-- A row's handler leaves the next state alive.
row : (s : State) (e : Event) (m : Client) → m.stopping ≡ false → Next (transition s e) s e m
unfolding transition handle_state
row idle connect m h = enter-other connecting (handle_idle_state connect m) (dialling m h)
row connecting connect_success m h = enter-connected (handle_connecting_state connect_success m)
row connecting connect_fail m h =
    enter-other idle (handle_connecting_state connect_fail m) (unavailable m h)
row connected check_command m h = enter-connected (handle_connected_state check_command m)
row connected write_command m h =
    enter-other writing_request (handle_connected_state write_command m) (writing m h)
row connected reconnect_request m h =
    enter-other idle (handle_connected_state reconnect_request m) (reconnecting_connected m h)
row writing_request write_completed m h =
    enter-other waiting_for_response (handle_writing_request_state write_completed m) (waiting m h)
row writing_request write_timeout m h =
    enter-connected (handle_writing_request_state write_timeout m)
row writing_request reconnect_request m h =
    enter-other idle (handle_writing_request_state reconnect_request m) (reconnecting_writing m h)
row waiting_for_response ack_timer_cancelled_ack_received m h =
    enter-other waiting_for_response
      (handle_waiting_for_response_state ack_timer_cancelled_ack_received m) (waiting_on m h)
row waiting_for_response ack_as_rsp_received m h = enter-connected m
row waiting_for_response ack_timeout m h =
    enter-connected (handle_waiting_for_response_state ack_timeout m)
row waiting_for_response response_timer_cancelled_rsp_received m h = enter-connected m
row waiting_for_response response_timeout m h =
    enter-connected (handle_waiting_for_response_state response_timeout m)
row waiting_for_response reconnect_request m h =
    enter-other idle (handle_waiting_for_response_state reconnect_request m)
      (reconnecting_waiting m h)
row waiting_for_response unsolicited_request_done m h = enter-connected m
row _ _ m h = tt

-- A handler that would not be followed makes no difference.
pub first-done :
    (s : State) (p : Post) (ps : List Post) (m : Client)
    → wakes s p ≡ false
    → AliveAt s (record m { posted = p ∷ ps })
    → AliveAt s (record m { posted = ps })
first-done s p ps m h (stopped e) = stopped e
first-done s p ps m h (waits e) = waits e
first-done s p ps m h (woken e) = woken (subst (λ b. (b || any (wakes s) ps) ≡ true) h e)

follow-Alive :
    (e : Event) (ps : List Post) (m : Client) (o : Option State)
    → transition m.current_state e ≡ o
    → m.stopping ≡ false
    → Alive (record m { posted = process e ∷ ps })
    → Alive (follow o e (record m { posted = ps }))
unfolding follow wakes
follow-Alive e ps m none r h a = first-done m.current_state (process e) ps m (rw r refl) a
follow-Alive e ps m (some t) r h a =
    subst (λ o. Next o m.current_state e (record m { posted = ps })) r
      (row m.current_state e (record m { posted = ps }) h)

pub run_event-Alive :
    (e : Event) (ps : List Post) (m : Client)
    → Alive (record m { posted = process e ∷ ps })
    → Alive (run_event e (record m { posted = ps }))
unfolding run_event
run_event-Alive e ps m a =
    if-by Alive m.stopping stopped
      (λ h. follow-Alive e ps m (transition m.current_state e) refl h a)
