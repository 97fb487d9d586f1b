-- ===== src/Upt/Receiver.antt =====
-- Upt::consumeReceivedBytes of upt.cpp with its buffer: bytes from the serial port are cut into
-- frames. The frames handed to `handleReceivedCmd` are a list, in the order of the calls.
pub mod Frames
use linux_pbs.Base.{ℕ, ◌+◌, Bool, not, List, [], ◌∷◌, ◌++◌, length, leb, ◌==◌, if◌then◌else◌}
use linux_pbs.Upt.Codes.{stx, etx}

pub data RxState : Type 0 where
  rx_start rx_receiving : RxState

-- The first `rxNum_` bytes of `rxBuffer_`, and `rxState_`.
pub record Receiver : Type 0 where
  pub rx_buffer : List ℕ
  pub rx_state : RxState

-- `std::array<std::uint8_t, 65535> rxBuffer_`.
abbrev pub rx_capacity : ℕ
rx_capacity = 65535

abbrev pub idle_receiver : Receiver
idle_receiver = record { rx_buffer = []; rx_state = rx_start }

-- The body of the loop: the new buffer, and the frame that the byte completes.
receive_start : ℕ → Receiver → Receiver × List (List ℕ)
receive_start byte r =
    if byte == stx then (record { rx_buffer = byte ∷ []; rx_state = rx_receiving }, []) else (r, [])

receive_more : ℕ → Receiver → Receiver × List (List ℕ)
receive_more byte r =
    if byte == stx
    then (record r { rx_buffer = byte ∷ [] }, [])
    else if leb rx_capacity (length r.rx_buffer)
    then (idle_receiver, [])
    else if not (byte == etx)
    then (record r { rx_buffer = r.rx_buffer ++ byte ∷ [] }, [])
    else (idle_receiver, (r.rx_buffer ++ byte ∷ []) ∷ [])

dispatch : RxState → ℕ → Receiver → Receiver × List (List ℕ)
unfolding receive_start receive_more
dispatch rx_start byte r = receive_start byte r
dispatch rx_receiving byte r = receive_more byte r

unfoldable pub receive_byte : ℕ → Receiver → Receiver × List (List ℕ)
unfolding dispatch
receive_byte byte r = dispatch r.rx_state byte r

unfoldable pub consume_received_bytes : List ℕ → Receiver → Receiver × List (List ℕ)
unfolding receive_byte
consume_received_bytes [] r = (r, [])
consume_received_bytes (byte ∷ bytes) r =
    let (r', frames) = receive_byte byte r in
    let (r'', more) = consume_received_bytes bytes r' in (r'', frames ++ more)
