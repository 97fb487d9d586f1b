-- ===== src/Eep/Client/Exchange/Completes.antt =====
-- The whole exchange of a request and its response.
use linux_pbs.Base.{
  ℕ, ◌≡◌, refl, ◌∙◌, ap, true, false, ◌&&◌, Option, none, some, List, [], ◌∷◌, ◌==◌, ==_refl,
  if◌then◌else◌,
}
use linux_pbs.Eep.MessageCode
use linux_pbs.Eep.CommandType.{CommandType, uses_controller_sequence}
use linux_pbs.Eep.CommandData.{CommandData}
use linux_pbs.Eep.Frame.{Clock, MessageHeader, is_valid_check_sum, without_check_sum, parse_message}
use linux_pbs.Eep.Prepare.{prepare_cmd}
use linux_pbs.Eep.Queue.{Command}
use linux_pbs.Eep.Client.State.{
  ack_timer_cancelled_ack_received, ack_as_rsp_received, process, enqueue, Client, post,
}
use linux_pbs.Eep.Client.Dispatch.{check_command_queue}
use linux_pbs.Eep.Client.Events.{
  transition, handle_waiting_for_response_state, handle_state, enter, follow, run_event, run_post,
}
use linux_pbs.Eep.Client.Match.{is_response_matched_data_type_code, does_cmd_require_notification}
use linux_pbs.Eep.Client.Receive.{
  handle_parsed_response_message, is_valid_source_destination, is_expected, accept_response,
  receive_message, receive_parsed, handle_received_data,
}
use linux_pbs.Eep.Client.Inputs.{Input, run_next, send_ends, receives, run_first, step, run}
use linux_pbs.Eep.Client.Exchange.Answered.{answered, handle_parsed-answered}
use linux_pbs.Eep.Client.Exchange.{
  resting, command, requested, waiting, IsReply, queued-steps, written-steps, sent-steps,
}

receive_message-accepts :
    (h : MessageHeader) (body frame : List ℕ) (x : Client)
    → is_valid_source_destination h.source_id h.destination_id x ≡ true
    → is_response_matched_data_type_code x.current_cmd_requested.type h.data_type_code body ≡ true
    → is_expected x.expected_response_seq_no h.seq_no ≡ true
    → receive_message h body frame x ≡ accept_response h body frame x
unfolding receive_message
receive_message-accepts h body frame x a b c = rw (a, b, c) refl

handle_received_data-accepts :
    (h : MessageHeader) (body frame : List ℕ) (x : Client)
    → is_valid_check_sum frame ≡ true
    → parse_message (without_check_sum frame) ≡ some (h, body)
    → handle_received_data true frame x ≡ receive_message h body frame x
unfolding handle_received_data receive_parsed
handle_received_data-accepts h body frame x c p = rw (c, p) refl

accepted :
    (get_time : List ℕ → Option Clock) (c : Command) (frame reply : List ℕ) (h : MessageHeader)
    (body : List ℕ) (m : Client)
    → ((h.data_type_code == MessageCode.ack) && does_cmd_require_notification c.type) ≡ false
    → accept_response h body reply (waiting c frame m)
      ≡ post
          (process ack_as_rsp_received)
          (answered none (handle_parsed_response_message h body reply (requested c frame m)))
unfolding accept_response
accepted get_time c frame reply h body m e =
    ap
      (λ b.
        post (process (if b then ack_timer_cancelled_ack_received else ack_as_rsp_received))
          (record (handle_parsed_response_message h body reply (answered (some m.sequence_no) x)) {
            expected_response_seq_no = none;
          }))
      e
    ∙ ap (λ y. post (process ack_as_rsp_received) (record y { expected_response_seq_no = none }))
        (handle_parsed-answered (some m.sequence_no) h body reply x)
  where
    x : Client
    x = requested c frame m

-- The response is handled, and its event posted.
handled :
    (get_time : List ℕ → Option Clock) (c : Command) (frame reply : List ℕ) (h : MessageHeader)
    (body : List ℕ) (m : Client)
    → IsReply c m reply h body
    → step get_time (receives true reply) (waiting c frame m)
      ≡ post
          (process ack_as_rsp_received)
          (answered none (handle_parsed_response_message h body reply (requested c frame m)))
unfolding step is_valid_source_destination
handled get_time c frame reply h body m r =
    handle_received_data-accepts h body reply w r.check_ok r.parsed
    ∙ receive_message-accepts h body reply w r.addressed r.answers
        (rw r.numbered (==_refl m.sequence_no))
    ∙ accepted get_time c frame reply h body m r.completes
  where
    w : Client
    w = waiting c frame m

finished :
    (get_time : List ℕ → Option Clock) (y : Client)
    → run get_time (run_next ∷ run_next ∷ []) (post (process ack_as_rsp_received) (answered none y))
      ≡ resting y
unfolding run step run_first run_post run_event transition follow handle_state
    handle_waiting_for_response_state enter check_command_queue
finished get_time y = refl

-- The steps of an exchange: the enqueued command is queued, written and sent, the response arrives,
-- its event is followed, and the queue is looked at.
abbrev pub exchange : List ℕ → List Input
exchange reply =
    run_next ∷ run_next ∷ send_ends true ∷ run_next ∷ receives true reply ∷ run_next ∷ run_next ∷ []

-- From a client that is connected, not closing, with an empty queue and nothing posted, a request is
-- posted to the queue, its frame prepared, handed to the TCP client and sent; a response with a valid
-- check code arrives, from the right address, that answers the command with the sequence number of
-- its frame and is no ACK of a command that a notification completes. Then the client has handed over
-- exactly this frame, has handled exactly this response, has raised the sequence number by one modulo
-- 2 ^ 16, and is again connected, with an empty queue and nothing posted or expected.
pub exchange-resting :
    (get_time : List ℕ → Option Clock) (type : CommandType) (priority : ℕ) (d : CommandData)
    (frame reply : List ℕ) (h : MessageHeader) (body : List ℕ) (m : Client)
    → uses_controller_sequence type ≡ true
    → prepare_cmd m.endpoint m.clock type d m.sequence_no ≡ some frame
    → IsReply (command type priority d m) m reply h body
    → run get_time (exchange reply) (post (enqueue type priority d) (resting m))
      ≡ resting (
          handle_parsed_response_message h body reply
            (requested (command type priority d m) frame m))
unfolding run
exchange-resting get_time type priority d frame reply h body m u p r =
    ap (run get_time (run_next ∷ rest)) (queued-steps get_time type priority d m)
    ∙ ap (run get_time rest) (written-steps get_time c frame m u p)
    ∙ ap (run get_time (receives true reply ∷ run_next ∷ run_next ∷ []))
        (sent-steps get_time c frame m u)
    ∙ ap (run get_time (run_next ∷ run_next ∷ [])) (handled get_time c frame reply h body m r)
    ∙ finished get_time (handle_parsed_response_message h body reply (requested c frame m))
  where
    c : Command
    c = command type priority d m

    rest : List Input
    rest = send_ends true ∷ run_next ∷ receives true reply ∷ run_next ∷ run_next ∷ []
