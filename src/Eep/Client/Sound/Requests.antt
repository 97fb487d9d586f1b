-- ===== src/Eep/Client/Sound/Requests.antt =====
-- What the FnSend… functions post fits: every array has the size of its struct's.
use linux_pbs.Base.{
  ℕ, zero, suc, ◌+◌, ◌%◌, ◌≡◌, refl, ap, Option, none, some, List, ◌++◌, length, replicate, if-both,
  arith, length-take, length-append,
}
use linux_pbs.Eep.Priority
use linux_pbs.Eep.CommandType.{CommandType, MsgStatus, send_failed}
use linux_pbs.Eep.CommandData.{CommandData, null}
use linux_pbs.Eep.CommandData.Sizes.{
  Sized, Fits, no_data, fits_di, fits_do, fits_deduct, fits_deduct_stop, fits_transaction,
  fits_display, fits_carpark, fits_dsrc, fits_stop, fits_time, fits_lots, fits_restart,
}
use linux_pbs.Eep.Frame.{Clock}
use linux_pbs.Eep.Text.{stoi_uint8}
use linux_pbs.Eep.Text.Sizes.{
  Gives, convert_hex_string_to_byte_array-Gives, decimal_string_to_two_bytes-Gives,
}
use linux_pbs.Eep.Client.State.{Client, fail, post_command_failure}
use linux_pbs.Eep.Client.Requests.{
  Request, enqueue_or_fail, di_port_config, do_port, deduct_of, send_deduct, deduct_stop_of,
  transaction_of, display_line, display_of, carpark_of, dsrc_of, stop_related_of, calibration_of,
  availability_of, send_request,
}
use linux_pbs.Eep.Client.Sound.{Sound, post-Sound, enqueue_command-Sound}

-- A command's data, if its arguments are accepted.
abbrev FitsIf : CommandType → Option CommandData → Type 0
FitsIf type none = Unit
FitsIf type (some d) = Fits type d

deduct_of-FitsIf :
    (serial_no : ℕ) (label fee : Option (List ℕ)) (entry leaving : Option Clock)
    → Gives 5 label
    → Gives 2 fee
    → FitsIf CommandType.deduct_req_cmd (deduct_of serial_no label fee entry leaving)
unfolding deduct_of
deduct_of-FitsIf serial_no (some label) (some fee) (some entry) (some leaving) l f =
    fits_deduct _ (refl, (refl, l, refl), f, refl, refl, refl)
deduct_of-FitsIf serial_no _ _ _ _ l f = tt

deduct_stop_of-FitsIf :
    (serial_no : ℕ) (label : Option (List ℕ))
    → Gives 5 label
    → FitsIf CommandType.deduct_stop_req_cmd (deduct_stop_of serial_no label)
unfolding deduct_stop_of
deduct_stop_of-FitsIf serial_no none l = tt
deduct_stop_of-FitsIf serial_no (some label) l = fits_deduct_stop _ refl (refl, l, refl)

transaction_of-FitsIf :
    (serial_no : ℕ) (label : Option (List ℕ))
    → Gives 5 label
    → FitsIf CommandType.transaction_req_cmd (transaction_of serial_no label)
unfolding transaction_of
transaction_of-FitsIf serial_no none l = tt
transaction_of-FitsIf serial_no (some label) l = fits_transaction _ refl (refl, l, refl)

length-replicate : (n c : ℕ) → length (replicate n c) ≡ n
length-replicate zero c = refl
length-replicate (suc n) c = ap suc (length-replicate n c)

display_line-Sized : (width : ℕ) (line : List ℕ) → Sized width (display_line width line)
unfolding display_line
display_line-Sized width line = omega (
  arith,
  length-take width (line ++ replicate width 0x20),
  length-append line (replicate width 0x20),
  length-replicate width 0x20,
)

display_of-FitsIf :
    (label : Option (List ℕ)) (data_type : Option ℕ) (l1 l2 l3 l4 l5 : List ℕ)
    → Gives 5 label
    → FitsIf CommandType.cpo_info_display_req_cmd (display_of label data_type l1 l2 l3 l4 l5)
unfolding display_of
display_of-FitsIf (some label) (some data_type) l1 l2 l3 l4 l5 l = fits_display _ (
  (refl, l, refl),
  refl,
  refl,
  refl,
  (
    display_line-Sized 21 l1,
    display_line-Sized 21 l2,
    display_line-Sized 21 l3,
    display_line-Sized 21 l4,
    display_line-Sized 21 l5,
  ),
  refl,
)
display_of-FitsIf (some label) none l1 l2 l3 l4 l5 l = tt
display_of-FitsIf none _ l1 l2 l3 l4 l5 l = tt

carpark_of-FitsIf :
    (label : Option (List ℕ)) (outcome : Option ℕ) (fee : Option (List ℕ))
    → Gives 5 label
    → Gives 2 fee
    → FitsIf CommandType.carpark_process_complete_notification_req_cmd
        (carpark_of label outcome fee)
unfolding carpark_of
carpark_of-FitsIf (some label) (some outcome) (some fee) l f = fits_carpark _ (refl, l, refl) f
carpark_of-FitsIf _ _ _ l f = tt

dsrc_of-FitsIf :
    (label : Option (List ℕ))
    → Gives 5 label
    → FitsIf CommandType.dsrc_process_complete_notification_req_cmd (dsrc_of label)
unfolding dsrc_of
dsrc_of-FitsIf none l = tt
dsrc_of-FitsIf (some label) l = fits_dsrc _ (refl, l, refl)

stop_related_of-FitsIf :
    (label : Option (List ℕ))
    → Gives 5 label
    → FitsIf CommandType.stop_req_of_related_info_distribution_cmd (stop_related_of label)
unfolding stop_related_of
stop_related_of-FitsIf none l = tt
stop_related_of-FitsIf (some label) l = fits_stop _ (refl, l, refl)

availability_of-FitsIf :
    (available total : Option (List ℕ))
    → Gives 2 available
    → Gives 2 total
    → FitsIf CommandType.set_carpark_avail_req_cmd (availability_of available total)
unfolding availability_of
availability_of-FitsIf (some available) (some total) a t = fits_lots _ a t refl
availability_of-FitsIf _ _ a t = tt

post_command_failure-Sound :
    (type : CommandType) (status : MsgStatus) (m : Client)
    → Sound m
    → Sound (post_command_failure type status m)
unfolding post_command_failure
post_command_failure-Sound type status m v =
    if-both Sound m.stopping v (post-Sound (fail type status) m tt v)

enqueue_or_fail-Sound :
    (type : CommandType) (d : Option CommandData) (m : Client)
    → FitsIf type d
    → Sound m
    → Sound (enqueue_or_fail type d m)
unfolding enqueue_or_fail
enqueue_or_fail-Sound type none m h v = post_command_failure-Sound type send_failed m v
enqueue_or_fail-Sound type (some d) m h v = enqueue_command-Sound type Priority.normal d m h v

send_deduct-Sound :
    (d : Option CommandData) (m : Client)
    → FitsIf CommandType.deduct_req_cmd d
    → Sound m
    → Sound (send_deduct d m)
unfolding send_deduct
send_deduct-Sound none m h v = post_command_failure-Sound CommandType.deduct_req_cmd send_failed m v
send_deduct-Sound (some d) m h v =
    enqueue_command-Sound CommandType.deduct_req_cmd Priority.normal d
      (record m { deduct_cmd_serial_no = (m.deduct_cmd_serial_no + 1) % 65536 }) h v

pub send_request-Sound :
    (get_time : List ℕ → Option Clock) (r : Request) (m : Client)
    → Sound m
    → Sound (send_request get_time r m)
unfolding send_request di_port_config do_port calibration_of
send_request-Sound get_time Request.time_calibration m v =
    enqueue_command-Sound _ Priority.normal _ m (fits_time _ refl) v
send_request-Sound get_time (Request.set_do d1 d2 d3 d4 d5 d6) m v =
    enqueue_command-Sound _ Priority.normal _ m (fits_do _ refl) v
send_request-Sound get_time (Request.set_di_port_config p1 p2 p3 p4 p5) m v =
    enqueue_command-Sound _ Priority.normal _ m (fits_di _ (refl, refl, refl, refl, refl, refl)) v
send_request-Sound get_time (Request.deduct label fee entry leaving) m v =
    send_deduct-Sound _ m
      (deduct_of-FitsIf m.deduct_cmd_serial_no _ _ (get_time entry) (get_time leaving)
        (convert_hex_string_to_byte_array-Gives label 5) (decimal_string_to_two_bytes-Gives fee))
      v
send_request-Sound get_time (Request.deduct_stop label serial_no) m v =
    enqueue_or_fail-Sound _ _ m
      (deduct_stop_of-FitsIf serial_no _ (convert_hex_string_to_byte_array-Gives label 5)) v
send_request-Sound get_time (Request.transaction label serial_no) m v =
    enqueue_or_fail-Sound _ _ m
      (transaction_of-FitsIf serial_no _ (convert_hex_string_to_byte_array-Gives label 5)) v
send_request-Sound get_time (Request.cpo_info_display label data_type l1 l2 l3 l4 l5) m v =
    enqueue_or_fail-Sound _ _ m
      (display_of-FitsIf _ (stoi_uint8 data_type) l1 l2 l3 l4 l5
        (convert_hex_string_to_byte_array-Gives label 5))
      v
send_request-Sound get_time (Request.carpark_process_complete label outcome fee) m v =
    enqueue_or_fail-Sound _ _ m
      (carpark_of-FitsIf _ (stoi_uint8 outcome) _ (convert_hex_string_to_byte_array-Gives label 5)
        (decimal_string_to_two_bytes-Gives fee))
      v
send_request-Sound get_time (Request.dsrc_process_complete label) m v =
    enqueue_or_fail-Sound _ _ m (dsrc_of-FitsIf _ (convert_hex_string_to_byte_array-Gives label 5))
      v
send_request-Sound get_time (Request.stop_related_info label) m v =
    enqueue_or_fail-Sound _ _ m
      (stop_related_of-FitsIf _ (convert_hex_string_to_byte_array-Gives label 5)) v
send_request-Sound get_time (Request.set_carpark_availability available total) m v =
    enqueue_or_fail-Sound _ _ m
      (availability_of-FitsIf _ _ (decimal_string_to_two_bytes-Gives available)
        (decimal_string_to_two_bytes-Gives total))
      v
send_request-Sound get_time (Request.restart_inquiry_response outcome) m v =
    enqueue_command-Sound _ Priority.normal _ m (fits_restart _ refl) v
send_request-Sound get_time _ m v = enqueue_command-Sound _ _ null m (no_data _) v
