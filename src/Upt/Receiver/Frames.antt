-- ===== src/Upt/Receiver/Frames.antt =====
-- What the receiver makes of a stream of bytes.
use linux_pbs.Base.{
  Bool-cases, lt→leb, map, ==_iff, ◌==◌, leb, All-append, ℕ, ◌+◌, ◌≤◌, ◌<◌, ◌≡◌, ◌≢◌, refl, sym, ap,
  ◌∙◌, inl, inr, List, [], ◌∷◌, ◌++◌, All, length, length-append, append_assoc, arith,
}
use linux_pbs.Upt.Codes.{stx, etx}
use linux_pbs.Upt.Transparency.{escape_all, add_data_transparency}
use linux_pbs.Upt.Transparency.RoundTrip.{escape_all-plain}
use linux_pbs.Upt.Receiver.{
  RxState, rx_start, rx_receiving, Receiver, rx_capacity, idle_receiver, receive_byte,
  consume_received_bytes,
}

-- A stream cut in two anywhere gives the same frames and the same state as in one piece.
consume-append :
    (xs ys : List ℕ) (r : Receiver)
    → consume_received_bytes (xs ++ ys) r ≡ (
        let (r', frames) = consume_received_bytes xs r in
        let (r'', more) = consume_received_bytes ys r' in (r'', frames ++ more))
unfolding consume_received_bytes
consume-append [] ys r = refl
consume-append (x ∷ xs) ys r =
    let (r', frames) = receive_byte x r in
    let (r'', more) = consume_received_bytes xs r' in
    ap (λ (p : Receiver × List (List ℕ)). (p.0, frames ++ p.1)) (consume-append xs ys r')
    ∙ ap (λ (t : List (List ℕ)). ((consume_received_bytes ys r'').0, t))
        (sym (append_assoc frames more _))

-- Bytes that may stand between STX and ETX.
abbrev pub IsPlain : List ℕ → Type 0
IsPlain body = All (λ x. (x ≢ stx) × (x ≢ etx)) body

-- Outside a frame the buffer is empty; inside, it holds STX and plain bytes, within its capacity.
abbrev pub Shape : RxState → List ℕ → Type 0
Shape rx_start buffer = buffer ≡ []
Shape rx_receiving buffer =
    (length buffer ≤ rx_capacity) × ((body : List ℕ) × (buffer ≡ stx ∷ body) × IsPlain body)

abbrev pub IsValid : Receiver → Type 0
IsValid r = Shape r.rx_state r.rx_buffer

-- STX, plain bytes, ETX, and no more than the buffer holds.
abbrev pub IsFrame : List ℕ → Type 0
IsFrame f =
    (length f ≤ rx_capacity) × ((body : List ℕ) × (f ≡ stx ∷ body ++ etx ∷ []) × IsPlain body)

IsPlain-snoc : (body : List ℕ) (b : ℕ) → IsPlain body → b ≢ stx → b ≢ etx → IsPlain (body ++ b ∷ [])
IsPlain-snoc body b h p q = All-append (λ x. (x ≢ stx) × (x ≢ etx)) body (b ∷ []) h ((p, q), tt)

abbrev Receives : Receiver × List (List ℕ) → Type 0
Receives (r, frames) = IsValid r × All IsFrame frames

receive_more_lem :
    (b : ℕ) (buffer body : List ℕ)
    → length buffer ≤ rx_capacity
    → buffer ≡ stx ∷ body
    → IsPlain body
    → Receives (receive_byte b (record { rx_buffer = buffer; rx_state = rx_receiving }))
unfolding receive_byte
receive_more_lem b buffer body fits e plain = elim (Bool-cases (b == stx)) [
  | inl is_stx ↦ rw is_stx ((omega arith, ([], ground arith, tt)), tt)
  | inr not_stx ↦ rw not_stx (elim (Bool-cases (leb rx_capacity (length buffer))) [
    | inl full ↦ rw full (refl, tt)
    | inr room ↦ rw room (elim (Bool-cases (b == etx)) [
      | inl is_etx ↦ rw is_etx (
        refl,
        (
          (
            ground (arith, length-append buffer (b ∷ [])),
            (body, rw (e, (==_iff b etx).0 is_etx), plain),
          ),
          tt,
        ),
      )
      | inr not_etx ↦ rw not_etx (
        (
          ground (arith, length-append buffer (b ∷ [])),
          (body ++ b ∷ [], rw e, IsPlain-snoc body b plain (ground arith) (ground arith)),
        ),
        tt,
      )
    ])
  ])
]

receive_byte_at :
    (b : ℕ) (s : RxState) (buffer : List ℕ)
    → Shape s buffer
    → Receives (receive_byte b (record { rx_buffer = buffer; rx_state = s }))
unfolding receive_byte
receive_byte_at b rx_start buffer v = elim (Bool-cases (b == stx)) [
  | inl is_stx ↦ rw is_stx ((omega arith, ([], ground arith, tt)), tt)
  | inr not_stx ↦ rw not_stx (v, tt)
]
receive_byte_at b rx_receiving buffer v = receive_more_lem b buffer v.1.0 v.0 v.1.1 v.1.2

-- Whatever bytes come in: the buffer stays within its capacity and keeps its shape, and each frame
-- handed on is STX, bytes that are neither STX nor ETX, and ETX, at most 65535 bytes in all.
pub consume_received_bytes-Receives :
    (bytes : List ℕ) (r : Receiver)
    → IsValid r
    → IsValid (consume_received_bytes bytes r).0 × All IsFrame (consume_received_bytes bytes r).1
unfolding consume_received_bytes
consume_received_bytes-Receives [] r v = (v, tt)
consume_received_bytes-Receives (b ∷ bytes) r v =
    let (w, fs) = receive_byte_at b r.rx_state r.rx_buffer v in
    let (w', gs) = consume_received_bytes-Receives bytes (receive_byte b r).0 w in
    (w', All-append IsFrame (receive_byte b r).1 _ fs gs)

abbrev within : List ℕ → Receiver
within buffer = record { rx_buffer = buffer; rx_state = rx_receiving }

receive_plain :
    (x : ℕ) (buffer : List ℕ)
    → x ≢ stx
    → x ≢ etx
    → length buffer < rx_capacity
    → receive_byte x (within buffer) ≡ (within (buffer ++ x ∷ []), [])
unfolding receive_byte
receive_plain x buffer p q h = ground arith

receive_etx :
    (buffer : List ℕ)
    → length buffer < rx_capacity
    → receive_byte etx (within buffer) ≡ (idle_receiver, (buffer ++ etx ∷ []) ∷ [])
unfolding receive_byte
receive_etx buffer h = rw (lt→leb rx_capacity (length buffer) h)

receive_stx : (r : Receiver) → receive_byte stx r ≡ (within (stx ∷ []), [])
unfolding receive_byte
receive_stx r = ground arith

-- The rest of a frame, in one piece.
consume_body :
    (body buffer : List ℕ)
    → IsPlain body
    → length buffer + length body < rx_capacity
    → consume_received_bytes (body ++ etx ∷ []) (within buffer)
      ≡ (idle_receiver, (buffer ++ (body ++ etx ∷ [])) ∷ [])
unfolding consume_received_bytes
consume_body [] buffer plain fits = rw (receive_etx buffer (omega arith))
consume_body (x ∷ body) buffer plain fits = rw (
  receive_plain x buffer plain.0.0 plain.0.1 (omega arith),
  consume_body body (buffer ++ x ∷ []) plain.1 (omega (arith, length-append buffer (x ∷ []))),
  append_assoc buffer (x ∷ []) (body ++ etx ∷ []),
)

-- The length of a message on the line is within the receive buffer.
abbrev pub Fits : List ℕ → Type 0
Fits input = length (add_data_transparency input) ≤ rx_capacity

-- In any state, also in the middle of a broken frame, the receiver hands on an escaped message that
-- fits its buffer as one frame, whole, and nothing else, and waits for the next frame.
pub consume-add_data_transparency :
    (input : List ℕ) (r : Receiver)
    → Fits input
    → consume_received_bytes (add_data_transparency input) r
      ≡ (idle_receiver, add_data_transparency input ∷ [])
unfolding consume_received_bytes add_data_transparency
consume-add_data_transparency input r h = rw (
  receive_stx r,
  consume_body (escape_all input) (stx ∷ []) (escape_all-plain input)
      (omega (arith, length-append (escape_all input) (etx ∷ []))),
)

-- The bytes of several messages, one behind the other.
abbrev pub on_line : List (List ℕ) → List ℕ
on_line [] = []
on_line (m ∷ ms) = add_data_transparency m ++ on_line ms

-- Several messages that fit, sent one behind the other, come out as their frames, in order, however
-- the receiver stood before the first of them.
pub consume-on_line :
    (input : List ℕ) (inputs : List (List ℕ)) (r : Receiver)
    → All Fits (input ∷ inputs)
    → consume_received_bytes (on_line (input ∷ inputs)) r
      ≡ (idle_receiver, map add_data_transparency (input ∷ inputs))
unfolding consume_received_bytes
consume-on_line input [] r h =
    consume-append (add_data_transparency input) [] r
    ∙ rw (consume-add_data_transparency input r h.0)
consume-on_line input (m ∷ inputs) r h =
    consume-append (add_data_transparency input) _ r
    ∙ rw (consume-add_data_transparency input r h.0, consume-on_line m inputs idle_receiver h.1)
