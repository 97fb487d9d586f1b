-- ===== src/Upt/Prepare/RoundTrip.antt =====
-- The frame of every implemented command is one that the parser accepts, and gives back.
use linux_pbs.Base.{ℕ, ◌^◌, ◌<◌, ◌≡◌, ◌≢◌, refl, ap, some, List, [], ◌∷◌, All, All-append, arith}
use linux_pbs.Bytes.{IsByte}
use linux_pbs.Crc.Reference.{crc32-lt}
use linux_pbs.Upt.Status
use linux_pbs.Upt.Message.{
  MessageHeader, PayloadField, Message, new_message, checked_header_bytes, header_bytes,
  field_bytes, payload_bytes, message_bytes, calculate_integrity_crc32,
}
use linux_pbs.Upt.Parser.{parse_msg_data}
use linux_pbs.Upt.Parser.Fields.{IsField}
use linux_pbs.Upt.Parser.RoundTrip.{IsMessage, parse_msg_data-add_data_transparency}
use linux_pbs.Upt.Command.{UptCmd, CommandData, increment_sequence_no}
use linux_pbs.Upt.Prepare.{
  Clock, Request, request_of, next_sequence_no, common_header, with_request, prepare_msg,
  prepare_cmd,
}
use linux_pbs.Upt.Prepare.Sizes.{IsClock, IsRequestData, IsSent, IsRequest, request_of-Good}

pub next_sequence_no-lt :
    (cmd : UptCmd) (n : ℕ)
    → n < 2 ^ 32
    → (next_sequence_no cmd n < 2 ^ 32) × (next_sequence_no cmd n ≢ 0)
unfolding next_sequence_no increment_sequence_no
next_sequence_no-lt cmd n h = ground arith

field_bytes-IsByte : (f : PayloadField) → IsSent f → All IsByte (field_bytes f)
unfolding field_bytes
field_bytes-IsByte f v = ground arith

payload_bytes-IsByte : (fs : List PayloadField) → All IsSent fs → All IsByte (payload_bytes fs)
unfolding payload_bytes
payload_bytes-IsByte [] v = tt
payload_bytes-IsByte (f ∷ fs) v =
    All-append IsByte (field_bytes f) (payload_bytes fs) (field_bytes-IsByte f v.0)
      (payload_bytes-IsByte fs v.1)

checked-IsByte :
    (h : MessageHeader) → All IsByte h.encryption_mac → All IsByte (checked_header_bytes h)
checked-IsByte h v = ground arith

fields_of_sent : (fs : List PayloadField) → All IsSent fs → All IsField fs
fields_of_sent [] v = tt
fields_of_sent (f ∷ fs) v = (v.0.0, fields_of_sent fs v.1)

calculate_integrity_crc32-lt :
    (m : Message)
    → All IsByte m.header.encryption_mac
    → All IsSent m.payloads
    → calculate_integrity_crc32 m < 2 ^ 32
unfolding calculate_integrity_crc32
calculate_integrity_crc32-lt m p q = crc32-lt _ (
    All-append IsByte (checked_header_bytes m.header) (payload_bytes m.payloads)
      (checked-IsByte m.header p) (payload_bytes-IsByte m.payloads q))

-- The message whose CRC the command computes.
abbrev filled : Request → Clock → ℕ → Message
filled r clock n = record {
  header = record (common_header clock n) { msg_type = r.msg_type; msg_code = r.msg_code };
  payloads = r.fields;
}

with_request-IsMessage :
    (r : Request) (clock : Clock) (n : ℕ)
    → IsClock clock
    → IsRequest r
    → n < 2 ^ 32
    → IsMessage (with_request r (record new_message { header = common_header clock n }))
unfolding message_bytes header_bytes calculate_integrity_crc32
with_request-IsMessage r clock n c v h = record {
  header_ok = omega (arith, calculate_integrity_crc32-lt (filled r clock n) (omega arith) v.sent);
  fields_ok = fields_of_sent r.fields v.sent;
  length_ok = omega (arith, v.total_size);
  crc_ok = refl;
}

prepare_msg-some :
    (cmd : UptCmd) (d : CommandData) (clock : Clock) (n : ℕ) (r : Request)
    → request_of cmd d clock ≡ some r
    → prepare_msg cmd d clock n
      ≡ with_request r
          (record new_message { header = common_header clock (next_sequence_no cmd n) })
unfolding prepare_msg
prepare_msg-some cmd d clock n r e = rw (e, prepare_msg)

-- The frame that an implemented command sends is parsed with SUCCESS into the command's message, and
-- its sequence number is the new one of the sender, between 1 and 2 ^ 32 - 1. The sender's number is
-- a uint32, the clock's texts have their widths, and a merchant reference has twelve bytes.
pub prepare_cmd-accepted :
    (cmd : UptCmd) (d : CommandData) (clock : Clock) (n : ℕ) (r : Request)
    → request_of cmd d clock ≡ some r
    → IsClock clock
    → IsRequestData d
    → n < 2 ^ 32
    → (parse_msg_data (prepare_cmd cmd d clock n).1
        ≡ some (Status.success, prepare_msg cmd d clock n))
      × ((prepare_msg cmd d clock n).header.msg_sequence ≡ (prepare_cmd cmd d clock n).0)
      × ((prepare_cmd cmd d clock n).0 ≢ 0)
      × ((prepare_cmd cmd d clock n).0 < 2 ^ 32)
unfolding prepare_cmd
prepare_cmd-accepted cmd d clock n r e c v h =
    let same = prepare_msg-some cmd d clock n r e in
    let (small, some_no) = next_sequence_no-lt cmd n h in
    let good : IsRequest r = rw e at (request_of-Good cmd d clock c v) in
    (
      parse_msg_data-add_data_transparency (prepare_msg cmd d clock n)
          (rw same (with_request-IsMessage r clock _ c good small)),
      ap (λ (m : Message). m.header.msg_sequence) same,
      some_no,
      small,
    )
