-- ===== src/Eep/Client/Inputs.antt =====
-- What can happen to the EEP client from outside, one step at a time.
use linux_pbs.Base.{ℕ, Bool, true, false, Option, List, [], ◌∷◌, if◌then◌else◌}
use linux_pbs.Eep.Frame.{Clock}
use linux_pbs.Eep.Client.State.{
  Event, connect_success, connect_fail, write_completed, write_timeout, ack_timeout,
  response_timeout, Post, Client, process_event,
}
use linux_pbs.Eep.Client.Timers.{start_watchdog_timer, start_health_status_timer}
use linux_pbs.Eep.Client.Dispatch.{shutdown_on_io_thread}
use linux_pbs.Eep.Client.Events.{run_post}
use linux_pbs.Eep.Client.Receive.{handle_received_data}
use linux_pbs.Eep.Client.Requests.{Request, send_request}

-- How an asynchronous wait ends.
pub data Outcome : Type 0 where
  expired aborted failed : Outcome

pub data Timer : Type 0 where
  reconnect connect send response ack watchdog health_status : Timer

pub data Input : Type 0 where
  -- A call of an FnSend… function.
  request : Request → Input
  -- The io_context runs the first posted handler.
  run_next : Input
  -- The callbacks of the TCP client: whether it connected, whether it sent, what it received, and that
  -- it closed or failed.
  connect_ends send_ends : Bool → Input
  receives : Bool → List ℕ → Input
  disconnects : Input
  timer_ends : Timer → Outcome → Input
  -- The wall clock.
  clock_shows : Clock → Input
  -- FnEEPClientClose up to its post, and the posted part, once all posted before it is ignored.
  close shut_down : Input

-- EEPClient::handleConnect.
unfoldable pub handle_connect : Bool → Client → Client
handle_connect success m =
    process_event (if success then connect_success else connect_fail)
      (record m { connect_timer = false })

-- EEPClient::handleSend.
unfoldable pub handle_send : Bool → Client → Client
handle_send success m =
    process_event (if success then write_completed else write_timeout)
      (record m { send_timer = false })

-- The handler of a wait that was not aborted; an error counts as a timeout where a timer reports one.
unfoldable pub handle_timeout : Timer → Outcome → Client → Client
unfolding start_watchdog_timer start_health_status_timer
handle_timeout Timer.reconnect expired m =
    process_event Event.connect (record m { reconnect_timer = false })
handle_timeout Timer.reconnect failed m = record m { reconnect_timer = false }
handle_timeout Timer.connect _ m = process_event connect_fail (record m { connect_timer = false })
handle_timeout Timer.send _ m = process_event write_timeout (record m { send_timer = false })
handle_timeout Timer.response _ m =
    process_event response_timeout (record m { response_timer = false })
handle_timeout Timer.ack _ m = process_event ack_timeout (record m { ack_timer = false })
handle_timeout Timer.watchdog expired m = start_watchdog_timer (record m { watchdog_timer = false })
handle_timeout Timer.health_status expired m =
    start_health_status_timer (record m { health_status_timer = false })
handle_timeout _ _ m = m

unfoldable pub timer_end : Timer → Outcome → Client → Client
unfolding handle_timeout
timer_end t aborted m = m
timer_end t o m = if m.stopping then m else handle_timeout t o m

unfoldable pub run_first : List Post → Client → Client
unfolding run_post
run_first [] m = m
run_first (p ∷ ps) m = run_post p (record m { posted = ps })

unfoldable pub step : (List ℕ → Option Clock) → Input → Client → Client
unfolding send_request run_first handle_connect handle_send handle_received_data timer_end
    shutdown_on_io_thread
step get_time (request r) m = send_request get_time r m
step get_time run_next m = run_first m.posted m
step get_time (connect_ends success) m =
    let known = record m { is_connected = success } in
    if m.stopping then known else handle_connect success known
step get_time (send_ends success) m = if m.stopping then m else handle_send success m
step get_time (receives success frame) m =
    if m.stopping then m else handle_received_data success frame m
step get_time disconnects m = record m { is_connected = false }
step get_time (timer_ends t o) m = timer_end t o m
step get_time (clock_shows c) m = record m { clock = c }
step get_time close m = record m { accepting_work = false; stopping = true }
step get_time shut_down m = shutdown_on_io_thread m

unfoldable pub run : (List ℕ → Option Clock) → List Input → Client → Client
unfolding step
run get_time [] m = m
run get_time (i ∷ is) m = run get_time is (step get_time i m)
