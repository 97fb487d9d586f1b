-- ===== src/Eep/Client/Reconnect.antt =====
-- What beginReconnect leaves, and which failures it reports.
use linux_pbs.Base.{
  ◌+◌, ◌≡◌, refl, sym, ap, ◌∙◌, Bool-cases, inl, inr, Bool, true, false, none, List, [], ◌∷◌, ◌++◌,
  length, append-nil, append_assoc, if-both, leb, if◌then◌else◌,
}
use linux_pbs.Eep.CommandType.{CommandType, MsgStatus, send_failed, uses_controller_sequence}
use linux_pbs.Eep.Queue.{Command, pop_all}
use linux_pbs.Eep.Client.State.{
  Client, process_event, reconnect_request, ClientEvent, failure, connection_state,
}
use linux_pbs.Eep.Client.Failure.{
  is_reported, count_missed_watchdog, handle_command_error_or_timeout, notify_connection_state,
  fail_all, clear_command_queue, cancel_timers, fail_active, begin_reconnect,
}

-- The event of a failed command, if it has one.
abbrev pub failure_of : CommandType → MsgStatus → List ClientEvent
unfolding is_reported
failure_of type status = if is_reported type then failure type status ∷ [] else []

abbrev pub failures_of : List Command → List ClientEvent
unfolding is_reported
failures_of [] = []
failures_of (c ∷ cs) = failure_of c.type send_failed ++ failures_of cs

-- What a failure leaves alone.
abbrev pub Keeps : Client → Client → Type 0
Keeps m n =
    (n.command_queue ≡ m.command_queue)
    × (n.expected_response_seq_no ≡ m.expected_response_seq_no)
    × (n.closes ≡ m.closes)
    × (n.last_connection_state ≡ m.last_connection_state)
    × (n.stopping ≡ m.stopping)
    × (n.sent ≡ m.sent)
    × (n.current_cmd_requested ≡ m.current_cmd_requested)

Keeps-refl : (m : Client) → Keeps m m
Keeps-refl m = (refl, refl, refl, refl, refl, refl, refl)

Keeps-trans : (l m n : Client) → Keeps l m → Keeps m n → Keeps l n
Keeps-trans l m n (a, b, c, d, e, f, g) (a2, b2, c2, d2, e2, f2, g2) =
    (a2 ∙ a, b2 ∙ b, c2 ∙ c, d2 ∙ d, e2 ∙ e, f2 ∙ f, g2 ∙ g)

pub handle_command_error_or_timeout-Keeps :
    (type : CommandType) (status : MsgStatus) (m : Client)
    → Keeps m (handle_command_error_or_timeout type status m)
unfolding handle_command_error_or_timeout is_reported count_missed_watchdog
handle_command_error_or_timeout-Keeps CommandType.watchdog_req_cmd status m =
    if-both (Keeps m) (leb 4 (m.watchdog_missed_rsp_count + 1))
      {yes_value = process_event reconnect_request (record m { watchdog_missed_rsp_count = 0 })}
      {no_value = record m { watchdog_missed_rsp_count = m.watchdog_missed_rsp_count + 1 }}
      (Keeps-refl m) (Keeps-refl m)
handle_command_error_or_timeout-Keeps type status m = Keeps-refl m

pub handle_command_error_or_timeout-events :
    (type : CommandType) (status : MsgStatus) (m : Client)
    → (handle_command_error_or_timeout type status m).events ≡ m.events ++ failure_of type status
unfolding handle_command_error_or_timeout is_reported count_missed_watchdog
handle_command_error_or_timeout-events CommandType.unknown_req_cmd status m =
    sym (append-nil m.events)
handle_command_error_or_timeout-events CommandType.ack status m = sym (append-nil m.events)
handle_command_error_or_timeout-events CommandType.nak status m = sym (append-nil m.events)
handle_command_error_or_timeout-events CommandType.health_status_req_cmd status m =
    sym (append-nil m.events)
handle_command_error_or_timeout-events CommandType.eep_idle status m = sym (append-nil m.events)
handle_command_error_or_timeout-events CommandType.watchdog_req_cmd status m =
    if-both (λ (n : Client). n.events ≡ m.events ++ []) (leb 4 (m.watchdog_missed_rsp_count + 1))
      (sym (append-nil m.events)) (sym (append-nil m.events))
handle_command_error_or_timeout-events type status m = refl

fail_all-Keeps : (cs : List Command) (m : Client) → Keeps m (fail_all cs m)
unfolding fail_all
fail_all-Keeps [] m = Keeps-refl m
fail_all-Keeps (c ∷ cs) m =
    Keeps-trans m failed (fail_all cs failed)
      (handle_command_error_or_timeout-Keeps c.type send_failed m) (fail_all-Keeps cs failed)
  where
    failed : Client
    failed = handle_command_error_or_timeout c.type send_failed m

fail_all-events :
    (cs : List Command) (m : Client) → (fail_all cs m).events ≡ m.events ++ failures_of cs
unfolding fail_all
fail_all-events [] m = sym (append-nil m.events)
fail_all-events (c ∷ cs) m =
    fail_all-events cs (handle_command_error_or_timeout c.type send_failed m)
    ∙ ap (λ es. es ++ failures_of cs) (handle_command_error_or_timeout-events c.type send_failed m)
    ∙ append_assoc m.events (failure_of c.type send_failed) (failures_of cs)

-- The failure of the command that waits for its response.
abbrev pub active_failure : Bool → Client → List ClientEvent
unfolding is_reported
active_failure false m = []
active_failure true m =
    if uses_controller_sequence m.current_cmd_requested.type
    then failure_of m.current_cmd_requested.type send_failed
    else []

fail_active-Keeps : (active : Bool) (m : Client) → Keeps m (fail_active active m)
unfolding fail_active
fail_active-Keeps false m = Keeps-refl m
fail_active-Keeps true m =
    if-both (Keeps m) (uses_controller_sequence m.current_cmd_requested.type)
      (handle_command_error_or_timeout-Keeps m.current_cmd_requested.type send_failed m)
      (Keeps-refl m)

fail_active-events :
    (active : Bool) (m : Client)
    → (fail_active active m).events ≡ m.events ++ active_failure active m
unfolding fail_active
fail_active-events false m = sym (append-nil m.events)
fail_active-events true m =
    elim (Bool-cases (uses_controller_sequence m.current_cmd_requested.type)) [
      | inl e ↦
          rw e (handle_command_error_or_timeout-events m.current_cmd_requested.type send_failed m)
      | inr e ↦ rw e (sym (append-nil m.events))
    ]

-- The event that the connection is lost, unless that is known.
abbrev pub lost_event : Bool → List ClientEvent
lost_event true = connection_state false ∷ []
lost_event false = []

notify_connection_state-lost :
    (m : Client)
    → ((notify_connection_state false m).events ≡ m.events ++ lost_event m.last_connection_state)
      × ((notify_connection_state false m).last_connection_state ≡ false)
      × ((notify_connection_state false m).command_queue ≡ m.command_queue)
      × ((notify_connection_state false m).expected_response_seq_no ≡ m.expected_response_seq_no)
      × ((notify_connection_state false m).closes ≡ m.closes)
      × ((notify_connection_state false m).stopping ≡ m.stopping)
      × ((notify_connection_state false m).sent ≡ m.sent)
unfolding notify_connection_state
notify_connection_state-lost m = elim (Bool-cases m.last_connection_state) [
  | inl e ↦ rw e (refl, refl, refl, refl, refl, refl, refl)
  | inr e ↦ rw e (sym (append-nil m.events), refl, refl, refl, refl, refl, refl)
]

-- What beginReconnect leaves of a client.
pub record IsReset (active : Bool) (m n : Client) : Type 0 where
  pub queue_empty : n.command_queue ≡ []
  pub nothing_expected : n.expected_response_seq_no ≡ none
  pub redials : n.reconnect_timer ≡ true
  pub closes_once : n.closes ≡ m.closes + 1
  pub sends_nothing : n.sent ≡ m.sent
  pub disconnected : n.last_connection_state ≡ false
  pub told :
      n.events
      ≡ m.events
        ++ active_failure active m
        ++ failures_of (pop_all (length m.command_queue) m.command_queue)
        ++ lost_event m.last_connection_state

abbrev forgotten : Client → Client
forgotten m = record (cancel_timers m) { expected_response_seq_no = none }

clear_command_queue-Keeps :
    (m : Client) → Keeps (record m { command_queue = [] }) (clear_command_queue m)
unfolding clear_command_queue
clear_command_queue-Keeps m =
    fail_all-Keeps (pop_all (length m.command_queue) m.command_queue)
      (record m { command_queue = [] })

clear_command_queue-events :
    (m : Client)
    → (clear_command_queue m).events
      ≡ m.events ++ failures_of (pop_all (length m.command_queue) m.command_queue)
unfolding clear_command_queue
clear_command_queue-events m =
    fail_all-events (pop_all (length m.command_queue) m.command_queue)
      (record m { command_queue = [] })

cleared-events :
    (active : Bool) (m : Client)
    → (clear_command_queue (fail_active active (forgotten m))).events
      ≡ m.events
        ++ active_failure active m
        ++ failures_of (pop_all (length m.command_queue) m.command_queue)
unfolding active_failure
cleared-events active m =
    clear_command_queue-events f
    ∙ ap (λ q. f.events ++ failures_of (pop_all (length q) q)) (fail_active-Keeps active first).0
    ∙ ap (λ es. es ++ failures_of (pop_all (length m.command_queue) m.command_queue)) (told active)
  where
    first : Client
    first = forgotten m

    f : Client
    f = fail_active active first

    told : (b : Bool) → (fail_active b first).events ≡ m.events ++ active_failure b m
    told false = fail_active-events false first
    told true = fail_active-events true first

-- When a connected, writing or waiting client reconnects, each command of the queue, and the one
-- that waits for its response if asked for, is reported as failed exactly once where its type is one
-- that is reported, in the order of the queue's priorities, then the loss of the connection if it was
-- not known; the queue is empty, no response is expected, nothing is sent, the TCP client is closed
-- once, and the reconnect timer runs. The client is not being closed.
pub begin_reconnect-IsReset :
    (active : Bool) (m : Client) → m.stopping ≡ false → IsReset active m (begin_reconnect active m)
unfolding begin_reconnect
begin_reconnect-IsReset active m h =
    let kept = fail_active-Keeps active (forgotten m) in
    let emptied = clear_command_queue-Keeps (fail_active active (forgotten m)) in
    let lost = notify_connection_state-lost cleared in
    let runs = lost.5 ∙ emptied.4 ∙ kept.4 ∙ h in
    rw runs record {
      queue_empty = lost.2 ∙ emptied.0;
      nothing_expected = lost.3 ∙ emptied.1 ∙ kept.1;
      redials = refl;
      closes_once = ap (λ n. n + 1) (lost.4 ∙ emptied.2 ∙ kept.2);
      sends_nothing = lost.6 ∙ emptied.5 ∙ kept.5;
      disconnected = lost.1;
      told = lost.0 ∙ rw (cleared-events active m, emptied.3 ∙ kept.3) refl;
    }
  where
    cleared : Client
    cleared = clear_command_queue (fail_active active (forgotten m))
