-- ===== src/Upt/Prepare/Sizes.antt =====
-- The payload fields that a command sends, and their sizes.
use linux_pbs.Base.{
  ℕ, ◌+◌, ◌^◌, ◌<◌, ◌≡◌, refl, Option, none, some, List, [], ◌∷◌, All, length, length-append, arith,
}
use linux_pbs.Bytes.{IsByte}
use linux_pbs.Upt.Message.{PayloadField, set_field_data, field_bytes, payload_bytes}
use linux_pbs.Upt.Parser.Fields.{IsField, length-field_bytes}
use linux_pbs.Upt.Command.{
  UptCmd, device_status_request, device_reset_request, device_time_sync_request,
  device_logon_request, device_tms_request, device_settlement_request,
  device_reset_sequence_number_request, device_retrieve_last_transaction_status_request,
  device_retrieve_last_settlement_request, card_detect_request, payment_mode_auto_request,
  cancel_command_request, top_up_nets_ncc_by_nets_eft_request, top_up_nets_nfp_by_nets_eft_request,
  nets, upos, CommandData, no_data, host_request, amount_request,
}
use linux_pbs.Upt.Prepare.{Clock, Request, create_payload, request_of}

-- What the clock's functions return: a 64-bit count, "%Y%m%d" and "%H%M%S".
pub record IsClock (c : Clock) : Type 0 where
  pub seconds_range : c.seconds < 2 ^ 64
  pub date_size : length c.date ≡ 8
  pub date_bytes : All IsByte c.date
  pub time_size : length c.time ≡ 6
  pub time_bytes : All IsByte c.time

-- A merchant reference of twelve bytes, as its field wants.
abbrev pub IsRequestData : CommandData → Type 0
IsRequestData (amount_request amount ref) = (length ref ≡ 12) × All IsByte ref
IsRequestData _ = Unit {0}

-- A field as the parser wants it, of bytes.
abbrev pub IsSent : PayloadField → Type 0
IsSent f = IsField f × All IsByte f.field_data

pub record IsRequest (r : Request) : Type 0 where
  pub type_range : r.msg_type < 2 ^ 32
  pub code_range : r.msg_code < 2 ^ 32
  pub sent : All IsSent r.fields
  pub total_size : r.total ≡ 64 + length (payload_bytes r.fields)
  pub total_range : r.total < 2 ^ 32

abbrev pub Good : Option Request → Type 0
Good none = Unit {0}
Good (some r) = IsRequest r

abbrev lengths : List PayloadField → ℕ
lengths [] = 0
lengths (f ∷ fs) = f.payload_field_length + lengths fs

length-payload_bytes :
    (fs : List PayloadField) → All IsSent fs → length (payload_bytes fs) ≡ lengths fs
unfolding payload_bytes
length-payload_bytes [] v = refl
length-payload_bytes (f ∷ fs) v = omega (
  arith,
  length-append (field_bytes f) (payload_bytes fs),
  length-field_bytes f v.0.0,
  length-payload_bytes fs v.1,
)

make-IsRequest :
    (t c total : ℕ) (fs : List PayloadField)
    → t < 2 ^ 32
    → c < 2 ^ 32
    → All IsSent fs
    → total ≡ 64 + lengths fs
    → total < 2 ^ 32
    → IsRequest (record { msg_type = t; msg_code = c; fields = fs; total = total })
make-IsRequest t c total fs p q sent e h = record {
  type_range = p;
  code_range = q;
  sent = sent;
  total_size = omega (arith, length-payload_bytes fs sent);
  total_range = h;
}

-- Every command's request is one that the parser takes, if its data are in range.
pub request_of-Good :
    (cmd : UptCmd) (d : CommandData) (c : Clock)
    → IsClock c
    → IsRequestData d
    → Good (request_of cmd d c)
unfolding request_of create_payload set_field_data payload_bytes field_bytes
request_of-Good device_status_request d c v w = omega arith
request_of-Good device_reset_request d c v w = omega arith
request_of-Good device_time_sync_request d c v w =
    rw (v.date_size, v.time_size)
      (make-IsRequest _ _ 128 _ (omega arith) (omega arith) (ground arith) (omega arith)
        (omega arith))
request_of-Good device_logon_request d c v w = omega arith
request_of-Good device_tms_request d c v w = omega arith
request_of-Good device_settlement_request no_data c v w = omega arith
request_of-Good device_settlement_request (host_request nets) c v w = omega arith
request_of-Good device_settlement_request (host_request upos) c v w = omega arith
request_of-Good device_settlement_request (amount_request n ref) c v w = omega arith
request_of-Good device_reset_sequence_number_request d c v w = omega arith
request_of-Good device_retrieve_last_transaction_status_request no_data c v w = omega arith
request_of-Good device_retrieve_last_transaction_status_request (host_request nets) c v w =
    omega arith
request_of-Good device_retrieve_last_transaction_status_request (host_request upos) c v w =
    omega arith
request_of-Good device_retrieve_last_transaction_status_request (amount_request n ref) c v w =
    omega arith
request_of-Good device_retrieve_last_settlement_request d c v w = omega arith
request_of-Good card_detect_request d c v w = omega arith
request_of-Good payment_mode_auto_request no_data c v w = omega arith
request_of-Good payment_mode_auto_request (host_request h) c v w = omega arith
request_of-Good payment_mode_auto_request (amount_request n ref) c v w = rw w.0 (
    make-IsRequest _ _ 128 _ (omega arith) (omega arith) (ground arith) (omega arith) (omega arith))
request_of-Good cancel_command_request d c v w = omega arith
request_of-Good top_up_nets_ncc_by_nets_eft_request no_data c v w = omega arith
request_of-Good top_up_nets_ncc_by_nets_eft_request (host_request h) c v w = omega arith
request_of-Good top_up_nets_ncc_by_nets_eft_request (amount_request n ref) c v w = rw w.0 (
    make-IsRequest _ _ 128 _ (omega arith) (omega arith) (ground arith) (omega arith) (omega arith))
request_of-Good top_up_nets_nfp_by_nets_eft_request no_data c v w = omega arith
request_of-Good top_up_nets_nfp_by_nets_eft_request (host_request h) c v w = omega arith
request_of-Good top_up_nets_nfp_by_nets_eft_request (amount_request n ref) c v w = rw w.0 (
    make-IsRequest _ _ 128 _ (omega arith) (omega arith) (ground arith) (omega arith) (omega arith))
request_of-Good _ d c v w = tt
