-- ===== src/Eep/Client/Timeouts.antt =====
-- What the EEP client does when nothing comes back in time.
use linux_pbs.Base.{ℕ, ◌≡◌, refl, if-both, not, false, Option, none, List, [], ◌∷◌, ◌++◌}
use linux_pbs.Eep.CommandType.{MsgStatus, send_failed, rsp_timeout}
use linux_pbs.Eep.Frame.{Clock}
use linux_pbs.Eep.Client.State.{
  State, connected, writing_request, waiting_for_response, Client, process_event, reconnect_request,
}
use linux_pbs.Eep.Client.Failure.{handle_command_error_or_timeout}
use linux_pbs.Eep.Client.Events.{
  transition, reconnect_if_lost, handle_writing_request_state, handle_waiting_for_response_state,
  handle_state, enter, follow, run_event, run_post,
}
use linux_pbs.Eep.Client.Reconnect.{
  failure_of, handle_command_error_or_timeout-Keeps, handle_command_error_or_timeout-events,
}
use linux_pbs.Eep.Client.Inputs.{
  Timer, expired, timer_ends, run_next, handle_timeout, timer_end, run_first, step, run,
}

-- The client is in a state, is not being closed, and has nothing posted.
abbrev pub in_state : State → Client → Client
in_state s m = record m { current_state = s; stopping = false; posted = [] }

-- The timer's end, and the event that it posts.
abbrev pub gives_up : (List ℕ → Option Clock) → Timer → State → Client → Client
unfolding run
gives_up get_time t s m = run get_time (timer_ends t expired ∷ run_next ∷ []) (in_state s m)

-- The request is reported as failed, where its type is one that is reported; the client is connected
-- again, sends nothing and expects what is said.
abbrev pub GivesUp : MsgStatus → Option ℕ → Client → Client → Type 0
GivesUp status expected m n =
    (n.current_state ≡ connected)
    × (n.events ≡ m.events ++ failure_of m.current_cmd_requested.type status)
    × (n.expected_response_seq_no ≡ expected)
    × (n.sent ≡ m.sent)
    × (n.command_queue ≡ m.command_queue)

failed-GivesUp :
    (status : MsgStatus) (m : Client)
    → GivesUp status m.expected_response_seq_no m
        (enter connected (handle_command_error_or_timeout m.current_cmd_requested.type status m))
unfolding enter
failed-GivesUp status m = (
  refl,
  handle_command_error_or_timeout-events m.current_cmd_requested.type status m,
  (handle_command_error_or_timeout-Keeps m.current_cmd_requested.type status m).1,
  (handle_command_error_or_timeout-Keeps m.current_cmd_requested.type status m).5,
  (handle_command_error_or_timeout-Keeps m.current_cmd_requested.type status m).0,
)

-- The same where the client first asks for a reconnect if the connection is lost.
lost-GivesUp :
    (status : MsgStatus) (m : Client)
    → GivesUp status m.expected_response_seq_no m (
        enter connected (
          handle_command_error_or_timeout m.current_cmd_requested.type status
            (reconnect_if_lost m)))
lost-GivesUp status m =
    if-both
      (λ x.
        GivesUp status m.expected_response_seq_no m
          (enter connected (handle_command_error_or_timeout m.current_cmd_requested.type status x)))
      (not m.is_connected) {yes_value = process_event reconnect_request m} {no_value = m}
      (failed-GivesUp status (process_event reconnect_request m)) (failed-GivesUp status m)

-- From a client that is not being closed and has nothing posted: where the acknowledgement timer or the
-- response timer of a client that waits for its response expires, or the send timer of one that is
-- writing, and the event that this posts is followed, then the last request, even where what is written
-- is an ACK or a NAK, is reported as failed exactly once, with the status of that timer, if its type is
-- one that is reported; the client is in the connected state, nothing was sent, and its queue is as
-- before. A client that waited expects no response any more; one that was writing still has the
-- sequence number that it expected.
pub gives_up-GivesUp :
    (get_time : List ℕ → Option Clock) (m : Client)
    → GivesUp MsgStatus.ack_timeout none m (gives_up get_time Timer.ack waiting_for_response m)
      × GivesUp rsp_timeout none m (gives_up get_time Timer.response waiting_for_response m)
      × GivesUp send_failed m.expected_response_seq_no m
          (gives_up get_time Timer.send writing_request m)
unfolding run step timer_end handle_timeout run_first run_post run_event transition follow
    handle_state handle_waiting_for_response_state handle_writing_request_state
gives_up-GivesUp get_time m = (
  failed-GivesUp MsgStatus.ack_timeout (record (in_state waiting_for_response m) {
    ack_timer = false;
    expected_response_seq_no = none;
  }),
  lost-GivesUp rsp_timeout (record (in_state waiting_for_response m) {
    response_timer = false;
    expected_response_seq_no = none;
  }),
  lost-GivesUp send_failed (record (in_state writing_request m) { send_timer = false }),
)
