-- ===== src/Eep/Prepare/RoundTrip.antt =====
-- The frame of every command that the client sends is accepted, and gives back the command's content.
use linux_pbs.Base.{
  ℕ, ◌<◌, ◌≡◌, refl, true, Option, none, some, List, [], length, arith, length-append, ◌==◌,
  if-both, sym, subst,
}
use linux_pbs.Eep.CommandData.Sizes.Lengths.{
  ports-Sized, deduct-Sized, display-Sized, labelled-Sized, numbered-Sized,
}
use linux_pbs.Eep.CommandType.{CommandType}
use linux_pbs.Eep.CommandData.{CommandData, null}
use linux_pbs.Eep.CommandData.Sizes.{
  Fits, no_data, fits_ack, fits_nak, fits_di, fits_do, fits_deduct, fits_deduct_stop,
  fits_transaction, fits_display, fits_carpark, fits_dsrc, fits_stop, fits_time, fits_lots,
  fits_restart,
}
use linux_pbs.Eep.Frame.{
  calculate_checksum_no_padding, Clock, Endpoint, is_valid_check_sum, parse_message,
  without_check_sum,
}
use linux_pbs.Eep.Frame.RoundTrip.{
  header_of, is_valid_check_sum_lem, without_check_sum_lem, parse_message_lem,
}
use linux_pbs.Eep.Prepare.{
  Content, content_of, serialize, with_payload, ack_content, nak_content, watchdog_content, message,
  frame_of, finish, prepare_cmd,
}

-- The length field is the payload's length, and both 16-bit fields fit.
pub record IsContent (c : Content) : Type 0 where
  pub len_ok : c.data_len ≡ length c.payload
  pub len_fits : c.data_len < 65536
  pub seq_fits : c.seq_no < 65536

abbrev pub Good : Option Content → Type 0
Good none = Unit
Good (some c) = IsContent c

empty-IsContent :
    (code seq_no : ℕ)
    → seq_no < 65536
    → IsContent (record { code = code; seq_no = seq_no; data_len = 0; payload = [] })
empty-IsContent code seq_no n = record { len_ok = refl; len_fits = omega arith; seq_fits = n }

without_data :
    (type : CommandType) (carpark_id seq_no : ℕ)
    → seq_no < 65536
    → Good (content_of type null carpark_id seq_no)
unfolding content_of serialize with_payload ack_content nak_content watchdog_content
without_data CommandType.watchdog_req_cmd carpark_id seq_no n =
    if-both Good (carpark_id == 0) tt
      (record { len_ok = refl; len_fits = omega arith; seq_fits = n })
without_data CommandType.health_status_req_cmd carpark_id seq_no n = empty-IsContent _ _ n
without_data CommandType.start_req_cmd carpark_id seq_no n = empty-IsContent _ _ n
without_data CommandType.stop_req_cmd carpark_id seq_no n = empty-IsContent _ _ n
without_data CommandType.di_req_cmd carpark_id seq_no n = empty-IsContent _ _ n
without_data CommandType.get_obu_info_req_cmd carpark_id seq_no n = empty-IsContent _ _ n
without_data CommandType.get_obu_info_stop_req_cmd carpark_id seq_no n = empty-IsContent _ _ n
without_data CommandType.dsrc_status_req_cmd carpark_id seq_no n = empty-IsContent _ _ n
without_data CommandType.cd_download_req_cmd carpark_id seq_no n = empty-IsContent _ _ n
without_data CommandType.unknown_req_cmd carpark_id seq_no n = tt
without_data CommandType.ack carpark_id seq_no n = tt
without_data CommandType.nak carpark_id seq_no n = tt
without_data CommandType.do_req_cmd carpark_id seq_no n = tt
without_data CommandType.set_di_port_config_cmd carpark_id seq_no n = tt
without_data CommandType.deduct_req_cmd carpark_id seq_no n = tt
without_data CommandType.deduct_stop_req_cmd carpark_id seq_no n = tt
without_data CommandType.transaction_req_cmd carpark_id seq_no n = tt
without_data CommandType.cpo_info_display_req_cmd carpark_id seq_no n = tt
without_data CommandType.carpark_process_complete_notification_req_cmd carpark_id seq_no n = tt
without_data CommandType.dsrc_process_complete_notification_req_cmd carpark_id seq_no n = tt
without_data CommandType.stop_req_of_related_info_distribution_cmd carpark_id seq_no n = tt
without_data CommandType.time_calibration_req_cmd carpark_id seq_no n = tt
without_data CommandType.set_carpark_avail_req_cmd carpark_id seq_no n = tt
without_data CommandType.eep_restart_inquiry_req_cmd carpark_id seq_no n = tt
without_data CommandType.eep_idle carpark_id seq_no n = tt

pub content_of-Good :
    {type : CommandType} {d : CommandData} (carpark_id seq_no : ℕ)
    → Fits type d
    → seq_no < 65536
    → Good (content_of type d carpark_id seq_no)
unfolding content_of serialize with_payload ack_content nak_content
content_of-Good carpark_id seq_no (no_data type) n = without_data type carpark_id seq_no n
content_of-Good carpark_id seq_no (fits_ack d s r) n = record {
  len_ok = omega (arith, r);
  len_fits = omega arith;
  seq_fits = s;
}
content_of-Good carpark_id seq_no (fits_nak d s r) n = record {
  len_ok = omega (arith, r);
  len_fits = omega arith;
  seq_fits = s;
}
content_of-Good carpark_id seq_no (fits_di d s) n = record {
  len_ok = sym (ports-Sized d s);
  len_fits = omega arith;
  seq_fits = n;
}
content_of-Good carpark_id seq_no (fits_do d s) n = record {
  len_ok = omega (arith, s);
  len_fits = omega arith;
  seq_fits = n;
}
content_of-Good carpark_id seq_no (fits_deduct d s) n = record {
  len_ok = sym (deduct-Sized d s);
  len_fits = omega arith;
  seq_fits = n;
}
content_of-Good carpark_id seq_no (fits_deduct_stop d s l) n = record {
  len_ok = sym (numbered-Sized _ _ _ _ s l);
  len_fits = omega arith;
  seq_fits = n;
}
content_of-Good carpark_id seq_no (fits_transaction d s l) n = record {
  len_ok = sym (numbered-Sized _ _ _ _ s l);
  len_fits = omega arith;
  seq_fits = n;
}
content_of-Good carpark_id seq_no (fits_display d s) n = record {
  len_ok = sym (display-Sized d s);
  len_fits = omega arith;
  seq_fits = n;
}
content_of-Good carpark_id seq_no (fits_carpark d (r, l, r1) a) n = record {
  len_ok = simp (length-append, r, l, r1, a) refl;
  len_fits = omega arith;
  seq_fits = n;
}
content_of-Good carpark_id seq_no (fits_dsrc d l) n = record {
  len_ok = sym (labelled-Sized 8 _ _ _ l);
  len_fits = omega arith;
  seq_fits = n;
}
content_of-Good carpark_id seq_no (fits_stop d l) n = record {
  len_ok = sym (labelled-Sized 8 _ _ _ l);
  len_fits = omega arith;
  seq_fits = n;
}
content_of-Good carpark_id seq_no (fits_time d s) n = record {
  len_ok = simp (length-append, s) refl;
  len_fits = omega arith;
  seq_fits = n;
}
content_of-Good carpark_id seq_no (fits_lots d s t r) n = record {
  len_ok = simp (length-append, s, t, r) refl;
  len_fits = omega arith;
  seq_fits = n;
}
content_of-Good carpark_id seq_no (fits_restart d r) n = record {
  len_ok = omega (arith, r);
  len_fits = omega arith;
  seq_fits = n;
}

-- What a peer reads: a valid check code, and the header with its content.
pub record IsFrameOf (e : Endpoint) (clock : Clock) (c : Content) (frame : List ℕ) : Type 0 where
  pub check_ok : is_valid_check_sum frame ≡ true
  pub parsed :
      parse_message (without_check_sum frame)
      ≡ some (header_of e clock c.code c.seq_no c.data_len, c.payload)

pub frame_of-IsFrameOf :
    (e : Endpoint) (clock : Clock) (c : Content)
    → IsContent c
    → IsFrameOf e clock c (frame_of e clock c)
unfolding frame_of
frame_of-IsFrameOf e clock c h = record {
  check_ok = is_valid_check_sum_lem (message e clock c);
  parsed =
      rw
        (without_check_sum_lem (message e clock c)
          (calculate_checksum_no_padding (message e clock c)))
        (parse_message_lem e clock c.code c.seq_no c.data_len c.payload h.seq_fits h.len_fits
          h.len_ok);
}

-- prepareCmd of a command whose data fits, with a sequence number below 65536, gives the frame of its
-- content where it has one; a receiver finds its check code valid, and reads back the header with the
-- addresses, the date, the code and the sequence number, and the content, of exactly the header's
-- length.
pub prepare_cmd-IsFrameOf :
    (e : Endpoint) (clock : Clock) (type : CommandType) (d : CommandData) (seq_no : ℕ) (c : Content)
    → Fits type d
    → seq_no < 65536
    → content_of type d e.carpark_id seq_no ≡ some c
    → (prepare_cmd e clock type d seq_no ≡ some (frame_of e clock c))
      × IsFrameOf e clock c (frame_of e clock c)
      × (c.data_len ≡ length c.payload)
unfolding prepare_cmd finish
prepare_cmd-IsFrameOf e clock type d seq_no c h n r =
    (rw r refl, frame_of-IsFrameOf e clock c good, good.len_ok)
  where
    good : IsContent c
    good = subst Good r (content_of-Good e.carpark_id seq_no h n)
