-- ===== src/Eep/Client/Alive/Steps.antt =====
-- What the helpers of the EEP client's handlers leave alone.
use linux_pbs.Base.{
  Bool, true, false, not, ◌||◌, ◌≡◌, refl, ◌∙◌, Option, none, some, List, [], ◌∷◌, ◌+◌, leb, length,
  if-both,
}
use linux_pbs.Eep.CommandType.{CommandType, MsgStatus, send_failed, uses_controller_sequence}
use linux_pbs.Eep.CommandData.{CommandData}
use linux_pbs.Eep.Queue.{Command, pop, pop_all}
use linux_pbs.Eep.Client.State.{Client, enqueue_command, post_command_failure}
use linux_pbs.Eep.Client.Timers.{start_watchdog_timer, start_health_status_timer}
use linux_pbs.Eep.Client.Failure.{
  is_reported, count_missed_watchdog, handle_command_error_or_timeout, notify_connection_state,
  fail_all, clear_command_queue, cancel_timers, fail_active, begin_reconnect,
}
use linux_pbs.Eep.Client.Dispatch.{
  is_connected_state, announce, check_command_queue, fail_on_io_thread, set_current,
  take_sequence_no, send_prepared, send_top, pop_from_command_queue_and_enqueue_write,
}
use linux_pbs.Eep.Client.Alive.{Extends, Extends-refl, Extends-trans, Extends-post}

pub enqueue_command-Extends :
    (type : CommandType) (d : CommandData) (priority : _) (m : Client)
    → Extends m (enqueue_command type priority d m)
unfolding enqueue_command
enqueue_command-Extends type d priority m =
    if-both (Extends m) m.accepting_work (Extends-post _ m) (Extends-refl m)

pub post_command_failure-Extends :
    (type : CommandType) (status : MsgStatus) (m : Client)
    → Extends m (post_command_failure type status m)
unfolding post_command_failure
post_command_failure-Extends type status m =
    if-both (Extends m) m.stopping (Extends-refl m) (Extends-post _ m)

-- The count of missed watchdogs.
count_missed_watchdog-Extends : (m : Client) → Extends m (count_missed_watchdog m)
unfolding count_missed_watchdog
count_missed_watchdog-Extends m =
    if-both (Extends m) (leb 4 (m.watchdog_missed_rsp_count + 1))
      (Extends-post _ (record m { watchdog_missed_rsp_count = 0 })) (Extends-refl m)

pub handle_command_error_or_timeout-Extends :
    (type : CommandType) (status : MsgStatus) (m : Client)
    → Extends m (handle_command_error_or_timeout type status m)
unfolding handle_command_error_or_timeout is_reported
handle_command_error_or_timeout-Extends CommandType.watchdog_req_cmd status m =
    count_missed_watchdog-Extends m
handle_command_error_or_timeout-Extends type status m = Extends-refl m

pub notify_connection_state-Extends :
    (connected : Bool) (m : Client) → Extends m (notify_connection_state connected m)
unfolding notify_connection_state
notify_connection_state-Extends connected m =
    if-both (Extends m) _ (Extends-refl m) (Extends-refl m)

announce-Extends : (queue : List Command) (m : Client) → Extends m (announce queue m)
announce-Extends [] m = Extends-refl m
announce-Extends (c ∷ cs) m = Extends-post _ m

pub check_command_queue-Extends : (m : Client) → Extends m (check_command_queue m)
unfolding check_command_queue
check_command_queue-Extends m =
    if-both (Extends m) (m.stopping || not (is_connected_state m.current_state)) (Extends-refl m)
      (announce-Extends m.command_queue m)

pub fail_on_io_thread-Extends :
    (type : CommandType) (status : MsgStatus) (m : Client)
    → Extends m (fail_on_io_thread type status m)
unfolding fail_on_io_thread
fail_on_io_thread-Extends type status m =
    if-both (Extends m) m.stopping (Extends-refl m)
      (handle_command_error_or_timeout-Extends type status m)

-- The periodic timers keep no state alive.
pub start_watchdog_timer-Extends : (m : Client) → Extends m (start_watchdog_timer m)
unfolding start_watchdog_timer
start_watchdog_timer-Extends m =
    if-both (Extends m) m.stopping (Extends-refl m) (enqueue_command-Extends _ _ _ m)

pub start_health_status_timer-Extends : (m : Client) → Extends m (start_health_status_timer m)
unfolding start_health_status_timer
start_health_status_timer-Extends m =
    if-both (Extends m) m.stopping (Extends-refl m) (enqueue_command-Extends _ _ _ m)

fail_all-Extends : (cs : List Command) (m : Client) → Extends m (fail_all cs m)
unfolding fail_all
fail_all-Extends [] m = Extends-refl m
fail_all-Extends (c ∷ cs) m =
    Extends-trans m failed (fail_all cs failed)
      (handle_command_error_or_timeout-Extends c.type send_failed m) (fail_all-Extends cs failed)
  where
    failed : Client
    failed = handle_command_error_or_timeout c.type send_failed m

fail_active-Extends : (active : Bool) (m : Client) → Extends m (fail_active active m)
unfolding fail_active
fail_active-Extends false m = Extends-refl m
fail_active-Extends true m =
    if-both (Extends m) (uses_controller_sequence m.current_cmd_requested.type)
      (handle_command_error_or_timeout-Extends _ send_failed m) (Extends-refl m)

clear_command_queue-stopping : (m : Client) → (clear_command_queue m).stopping ≡ m.stopping
unfolding clear_command_queue
clear_command_queue-stopping m =
    (fail_all-Extends (pop_all (length m.command_queue) m.command_queue)
      (record m { command_queue = [] })).0

-- A client that reconnects waits for its reconnect timer.
pub begin_reconnect-timer :
    (active : Bool) (m : Client)
    → m.stopping ≡ false
    → (begin_reconnect active m).reconnect_timer ≡ true
unfolding begin_reconnect
begin_reconnect-timer active m h = rw same refl
  where
    first : Client
    first = record (cancel_timers m) { expected_response_seq_no = none }

    cleared : Client
    cleared = clear_command_queue (fail_active active first)

    same : (notify_connection_state false cleared).stopping ≡ false
    same =
        (notify_connection_state-Extends false cleared).0
        ∙ clear_command_queue-stopping (fail_active active first)
        ∙ (fail_active-Extends active first).0
        ∙ h

set_current-stopping : (c : Command) (m : Client) → (set_current c m).stopping ≡ m.stopping
unfolding set_current
set_current-stopping c m =
    if-both (λ (n : Client). n.stopping ≡ m.stopping) (uses_controller_sequence c.type) refl refl

take_sequence_no-stopping :
    (type : CommandType) (m : Client) → (take_sequence_no type m).stopping ≡ m.stopping
unfolding take_sequence_no
take_sequence_no-stopping type m =
    if-both (λ (n : Client). n.stopping ≡ m.stopping) (uses_controller_sequence type) refl refl

send_prepared-stopping :
    (type : CommandType) (frame : Option (List _)) (m : Client)
    → (send_prepared type frame m).stopping ≡ m.stopping
unfolding send_prepared
send_prepared-stopping type none m = refl
send_prepared-stopping type (some frame) m =
    if-both (λ (n : Client). n.stopping ≡ m.stopping) (take_sequence_no type m).stopping
      (take_sequence_no-stopping type m) (take_sequence_no-stopping type m)

send_top-stopping :
    (o : Option (Command × List Command)) (m : Client) → (send_top o m).stopping ≡ m.stopping
unfolding send_top
send_top-stopping none m = refl
send_top-stopping (some (c, rest)) m =
    send_prepared-stopping c.type _ _ ∙ set_current-stopping c (record m { command_queue = rest })

pub pop_from_command_queue-stopping :
    (m : Client) → (pop_from_command_queue_and_enqueue_write m).stopping ≡ m.stopping
unfolding pop_from_command_queue_and_enqueue_write
pop_from_command_queue-stopping m = send_top-stopping (pop m.command_queue) m
