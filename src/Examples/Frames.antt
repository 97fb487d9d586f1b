-- ===== src/Examples/Frames.antt =====
-- The codec, the receiver and the parser on short messages.
use linux_pbs.Base.{ℕ, ◌<◌, ◌^◌, ◌≡◌, refl, List, [], ◌∷◌, All, map, arith, some, ◌∷◌}
use linux_pbs.Crc.{init, update, crc32}
use linux_pbs.Crc.Reference.{reference, update-reference}
use linux_pbs.Upt.Status
use linux_pbs.Upt.Codes.{stx, etx}
use linux_pbs.Upt.Transparency.{escape_all, add_data_transparency, remove_data_transparency}
use linux_pbs.Upt.Transparency.RoundTrip.{remove-add_data_transparency}
use linux_pbs.Upt.Receiver.{Receiver, rx_receiving, idle_receiver, consume_received_bytes}
use linux_pbs.Upt.Receiver.Frames.{
  IsValid, IsFrame, on_line, consume_received_bytes-Receives, consume-on_line,
}
use linux_pbs.Upt.Message.{
  Message, new_message, new_header, message_bytes, header_bytes, payload_bytes,
  calculate_integrity_crc32,
}
use linux_pbs.Upt.Parser.{parse_msg_data}
use linux_pbs.Upt.Parser.RoundTrip.{IsMessage, parse_msg_data-add_data_transparency}
use linux_pbs.Upt.Parser.Total.{Returns, parse_msg_data-Returns}
use linux_pbs.Upt.Parser.Accepts.{Carries, parse_msg_data-exact}

-- The three bytes that need an escape, and one that does not.
abbrev control_bytes : List ℕ
control_bytes = 0x02 ∷ 0x04 ∷ 0x10 ∷ 0x41 ∷ []

escaped :
    add_data_transparency control_bytes
    ≡ 0x02 ∷ 0x10 ∷ 0x00 ∷ 0x10 ∷ 0x01 ∷ 0x10 ∷ 0x10 ∷ 0x41 ∷ 0x04 ∷ []
unfolding add_data_transparency escape_all
escaped = refl

remove-add_data_transparency_example :
    remove_data_transparency (add_data_transparency control_bytes) ≡ (Status.success, control_bytes)
remove-add_data_transparency_example = remove-add_data_transparency control_bytes

-- A receiver in the middle of a frame that breaks off.
abbrev broken : Receiver
broken = record { rx_buffer = stx ∷ 0x41 ∷ []; rx_state = rx_receiving }

consume-on_line_example :
    consume_received_bytes (on_line (control_bytes ∷ (0x42 ∷ []) ∷ [])) broken
    ≡ (idle_receiver, map add_data_transparency (control_bytes ∷ (0x42 ∷ []) ∷ []))
unfolding add_data_transparency escape_all
consume-on_line_example =
    consume-on_line control_bytes ((0x42 ∷ []) ∷ []) broken (omega arith, (omega arith, tt))

consume_received_bytes-Receives_example :
    IsValid (consume_received_bytes (0x42 ∷ etx ∷ stx ∷ []) broken).0
    × All IsFrame (consume_received_bytes (0x42 ∷ etx ∷ stx ∷ []) broken).1
consume_received_bytes-Receives_example =
    consume_received_bytes-Receives (0x42 ∷ etx ∷ stx ∷ []) broken
      (omega arith, (0x41 ∷ [], refl, omega arith))

update-reference_example :
    (update init (0x31 ∷ 0x32 ∷ 0x33 ∷ []) ≡ reference init (0x31 ∷ 0x32 ∷ 0x33 ∷ []))
    × (update init (0x31 ∷ 0x32 ∷ 0x33 ∷ []) < 2 ^ 32)
update-reference_example =
    update-reference init (0x31 ∷ 0x32 ∷ 0x33 ∷ []) (omega arith) (omega arith)

-- A reply with a class and a sequence number, and no payload.
abbrev pub reply : ℕ → ℕ → ℕ → Message
reply crc class number = record new_message {
  header = record new_header {
    length_field = 64;
    integrity_crc32 = crc;
    msg_class = class;
    msg_sequence = number;
  };
}

-- An acknowledgement and a response to the first command.
abbrev pub ack : Message
ack = reply 0x8ef46e48 0x0002 1

abbrev pub rsp : Message
rsp = reply 0x2fcdeaa6 0x0003 1

pub ack-IsMessage : IsMessage ack
unfolding message_bytes header_bytes payload_bytes calculate_integrity_crc32 crc32
ack-IsMessage = record { header_ok = omega arith; fields_ok = tt; length_ok = refl; crc_ok = refl }

pub rsp-IsMessage : IsMessage rsp
unfolding message_bytes header_bytes payload_bytes calculate_integrity_crc32 crc32
rsp-IsMessage = record { header_ok = omega arith; fields_ok = tt; length_ok = refl; crc_ok = refl }

parse_msg_data-add_data_transparency_example :
    parse_msg_data (add_data_transparency (message_bytes ack)) ≡ some (Status.success, ack)
parse_msg_data-add_data_transparency_example =
    parse_msg_data-add_data_transparency ack ack-IsMessage

parse_msg_data-Returns_example : Returns (parse_msg_data (add_data_transparency control_bytes))
parse_msg_data-Returns_example = parse_msg_data-Returns (add_data_transparency control_bytes)

parse_msg_data-exact_example :
    ((remove_data_transparency (add_data_transparency (message_bytes ack))).0 ≡ Status.success)
    × Carries (remove_data_transparency (add_data_transparency (message_bytes ack))).1 ack
unfolding add_data_transparency escape_all message_bytes header_bytes payload_bytes
parse_msg_data-exact_example =
    parse_msg_data-exact (add_data_transparency (message_bytes ack)) ack (omega arith) (omega arith)
      (parse_msg_data-add_data_transparency ack ack-IsMessage)
