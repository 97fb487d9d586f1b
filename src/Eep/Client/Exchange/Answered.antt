-- ===== src/Eep/Client/Exchange/Answered.antt =====
-- Handling a response commutes with what the rest of the exchange changes.
use linux_pbs.Base.{
  ℕ, ◌≡◌, refl, ◌∙◌, ap, Bool, true, false, Option, none, some, List, [], length, take, drop, ltb,
  ◌==◌, if◌then◌else◌,
}
use linux_pbs.Bytes.{from_le}
use linux_pbs.Eep.MessageCode
use linux_pbs.Eep.Frame.{MessageHeader}
use linux_pbs.Eep.Client.State.{waiting_for_response, response, raise, unfilled, Client}
use linux_pbs.Eep.Client.Receive.{
  body_size, health_status, raise_response, handle_parsed_response_message,
}

if-map {ℓ} :
    {X : Type ℓ} (f : X → X) (test : Bool) (x y : X)
    → (if test then f x else f y) ≡ f (if test then x else y)
if-map f true x y = refl
if-map f false x y = refl

-- The client between the response and the end of its exchange, over what handling it changed.
abbrev pub answered : Option ℕ → Client → Client
answered expected x = record x {
  accepting_work = true;
  stopping = false;
  is_connected = true;
  current_state = waiting_for_response;
  command_queue = [];
  expected_response_seq_no = expected;
  send_timer = false;
  response_timer = false;
  ack_timer = false;
  posted = [];
}

raise_response-answered :
    (e : Option ℕ) (size : Option ℕ) (h : MessageHeader) (body : List ℕ) (x : Client)
    → raise_response size h body (answered e x) ≡ answered e (raise_response size h body x)
unfolding raise_response
raise_response-answered e none h body x = refl
raise_response-answered e (some n) h body x =
    if-map (answered e) (ltb (length body) n) (raise unfilled x)
      (raise (response x.current_cmd_requested.type h body) x)

health_status-answered :
    (e : Option ℕ) (body frame : List ℕ) (x : Client)
    → health_status body frame (answered e x) ≡ answered e (health_status body frame x)
unfolding health_status
health_status-answered e body frame x =
    if-map (answered e) (ltb (length body) 64) (raise unfilled x) (record x {
      endpoint = record x.endpoint { carpark_id = from_le (take 2 (drop 6 body)) };
      status_data = frame;
    })

pub handle_parsed-answered :
    (e : Option ℕ) (h : MessageHeader) (body frame : List ℕ) (x : Client)
    → handle_parsed_response_message h body frame (answered e x)
      ≡ answered e (handle_parsed_response_message h body frame x)
unfolding handle_parsed_response_message
handle_parsed-answered e h body frame x =
    ap
      (λ y.
        if h.data_type_code == MessageCode.watchdog_response
        then answered e (record x { watchdog_missed_rsp_count = 0 })
        else y)
      other
    ∙ if-map (answered e) (h.data_type_code == MessageCode.watchdog_response)
        (record x { watchdog_missed_rsp_count = 0 })
        (if h.data_type_code == MessageCode.health_status_response
          then health_status body frame x
          else raise_response (body_size h.data_type_code) h body x)
  where
    other :
        (if h.data_type_code == MessageCode.health_status_response
          then health_status body frame (answered e x)
          else raise_response (body_size h.data_type_code) h body (answered e x))
        ≡ answered e (
            if h.data_type_code == MessageCode.health_status_response
            then health_status body frame x
            else raise_response (body_size h.data_type_code) h body x)
    other =
        ap
          (λ y.
            if h.data_type_code == MessageCode.health_status_response
            then y
            else raise_response (body_size h.data_type_code) h body (answered e x))
          (health_status-answered e body frame x)
        ∙ ap
            (λ y.
              if h.data_type_code == MessageCode.health_status_response
              then answered e (health_status body frame x)
              else y)
            (raise_response-answered e (body_size h.data_type_code) h body x)
        ∙ if-map (answered e) (h.data_type_code == MessageCode.health_status_response)
            (health_status body frame x) (raise_response (body_size h.data_type_code) h body x)
