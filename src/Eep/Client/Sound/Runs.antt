-- ===== src/Eep/Client/Sound/Runs.antt =====
-- In every state that the EEP client reaches, all that it has sent is what a peer accepts.
use linux_pbs.Base.{ℕ, false, Option, List, [], ◌∷◌, All, if-both, arith, if◌then◌else◌}
use linux_pbs.Eep.Frame.{Clock}
use linux_pbs.Eep.Client.State.{
  Event, connect_success, connect_fail, write_completed, write_timeout, Post, Client,
}
use linux_pbs.Eep.Client.Dispatch.{shutdown_on_io_thread}
use linux_pbs.Eep.Client.Inputs.{
  Outcome, expired, aborted, failed, Timer, Input, request, run_next, connect_ends, send_ends,
  receives, disconnects, timer_ends, clock_shows, close, shut_down, handle_connect, handle_send,
  handle_timeout, timer_end, run_first, step,
}
use linux_pbs.Eep.Client.Reachable.{Admissible, Reachable, at_start, after}
use linux_pbs.Eep.Client.Sound.{IsAccepted, PostFits, Sound}
use linux_pbs.Eep.Client.Sound.Failures.{process_event-Sound}
use linux_pbs.Eep.Client.Sound.Reception.{handle_received_data-Sound}
use linux_pbs.Eep.Client.Sound.Handlers.{
  start_watchdog_timer-Sound, start_health_status_timer-Sound, run_post-Sound,
}
use linux_pbs.Eep.Client.Sound.Requests.{send_request-Sound}

handle_timeout-Sound :
    (t : Timer) (o : Outcome) (m : Client) → Sound m → Sound (handle_timeout t o m)
unfolding handle_timeout
handle_timeout-Sound Timer.reconnect expired m v =
    process_event-Sound Event.connect (record m { reconnect_timer = false }) v
handle_timeout-Sound Timer.connect o m v =
    process_event-Sound connect_fail (record m { connect_timer = false }) v
handle_timeout-Sound Timer.send o m v =
    process_event-Sound write_timeout (record m { send_timer = false }) v
handle_timeout-Sound Timer.response o m v =
    process_event-Sound Event.response_timeout (record m { response_timer = false }) v
handle_timeout-Sound Timer.ack o m v =
    process_event-Sound Event.ack_timeout (record m { ack_timer = false }) v
handle_timeout-Sound Timer.watchdog expired m v =
    start_watchdog_timer-Sound (record m { watchdog_timer = false }) v
handle_timeout-Sound Timer.health_status expired m v =
    start_health_status_timer-Sound (record m { health_status_timer = false }) v
handle_timeout-Sound Timer.reconnect failed m v = v
handle_timeout-Sound _ _ m v = v

timer_end-Sound : (t : Timer) (o : Outcome) (m : Client) → Sound m → Sound (timer_end t o m)
unfolding timer_end
timer_end-Sound t aborted m v = v
timer_end-Sound t expired m v = if-both Sound m.stopping v (handle_timeout-Sound t expired m v)
timer_end-Sound t failed m v = if-both Sound m.stopping v (handle_timeout-Sound t failed m v)

run_first-Sound : (ps : List Post) (m : Client) → All PostFits ps → Sound m → Sound (run_first ps m)
unfolding run_first
run_first-Sound [] m h v = v
run_first-Sound (p ∷ ps) m h (s, q, r, f) =
    run_post-Sound p (record m { posted = ps }) h.0 (s, q, h.1, f)

step-Sound :
    (get_time : List ℕ → Option Clock) (i : Input) (m : Client)
    → Admissible i m
    → Sound m
    → Sound (step get_time i m)
unfolding step shutdown_on_io_thread handle_connect handle_send
step-Sound get_time (request r) m h v = send_request-Sound get_time r m v
step-Sound get_time run_next m h v = run_first-Sound m.posted m v.2 v
step-Sound get_time (connect_ends success) m h v =
    if-both Sound m.stopping {yes_value = record m { is_connected = success }} v (
      process_event-Sound (if success then connect_success else connect_fail)
        (record m { is_connected = success; connect_timer = false }) v)
step-Sound get_time (send_ends success) m h v = if-both Sound m.stopping v (
    process_event-Sound (if success then write_completed else write_timeout)
      (record m { send_timer = false }) v)
step-Sound get_time (receives success frame) m h v =
    if-both Sound m.stopping v (handle_received_data-Sound success frame m h v)
step-Sound get_time disconnects m h v = v
step-Sound get_time (timer_ends t o) m h v = timer_end-Sound t o m v
step-Sound get_time (clock_shows c) m h v = v
step-Sound get_time close m h v = v
step-Sound get_time shut_down m h (s, q, p, f) = (s, tt, p, f)

Reachable-Sound : (get_time : List ℕ → Option Clock) (m : Client) → Reachable get_time m → Sound m
Reachable-Sound get_time _ (at_start e clock serial_no) = (omega arith, tt, (tt, tt), tt)
Reachable-Sound get_time _ (after m i r h) =
    step-Sound get_time i m h (Reachable-Sound get_time m r)

-- In every state that admissible inputs reach, every frame that the client has handed to the TCP
-- client passes the checks of a receiver: its check code is valid, its header and body parse, and the
-- frame is exactly as long as the header's data length says. This is so for each request, with
-- whatever strings it was called, for the periodic ones, and for the ACKs and NAKs.
pub Reachable-sent :
    (get_time : List ℕ → Option Clock) (m : Client) → Reachable get_time m → All IsAccepted m.sent
Reachable-sent get_time m r = (Reachable-Sound get_time m r).3
