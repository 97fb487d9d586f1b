-- ===== src/Eep/Client/Timers.antt =====
-- The start functions of the timers of EEPClient: none once the client stops. The two periodic
-- timers send their request first.
use linux_pbs.Base.{true, if◌then◌else◌}
use linux_pbs.Eep.Priority
use linux_pbs.Eep.CommandType.{watchdog_req_cmd, health_status_req_cmd}
use linux_pbs.Eep.CommandData.{null}
use linux_pbs.Eep.Client.State.{Client, enqueue_command}

abbrev pub start_reconnect_timer : Client → Client
start_reconnect_timer m = if m.stopping then m else record m { reconnect_timer = true }

abbrev pub start_connect_timer : Client → Client
start_connect_timer m = if m.stopping then m else record m { connect_timer = true }

abbrev pub start_send_timer : Client → Client
start_send_timer m = if m.stopping then m else record m { send_timer = true }

abbrev pub start_response_timer : Client → Client
start_response_timer m = if m.stopping then m else record m { response_timer = true }

abbrev pub start_ack_timer : Client → Client
start_ack_timer m = if m.stopping then m else record m { ack_timer = true }

-- With FnSendWatchdogReq.
unfoldable pub start_watchdog_timer : Client → Client
unfolding enqueue_command
start_watchdog_timer m =
    if m.stopping then m else record (enqueue_command watchdog_req_cmd Priority.watchdog null m) {
      watchdog_timer = true;
    }

-- With FnSendHealthStatusReq.
unfoldable pub start_health_status_timer : Client → Client
unfolding enqueue_command
start_health_status_timer m =
    if m.stopping
    then m
    else record (enqueue_command health_status_req_cmd Priority.health_status null m) {
      health_status_timer = true;
    }
