-- ===== src/Eep/Frame/RoundTrip.antt =====
-- A message that appendMessageHeader begins and a check code ends, as isValidCheckSum and
-- parseMessage read it.
use linux_pbs.Base.{
  ℕ, ◌+◌, ◌-◌, ◌*◌, ◌/◌, ◌%◌, ◌^◌, ◌<◌, ◌≡◌, refl, sym, true, some, List, [], ◌∷◌, ◌++◌, length,
  drop, arith, length-append, take-length_append, drop-length_append, take_all, le→ltb, ==_refl,
}
use linux_pbs.Bytes.{from_le, u32_bytes}
use linux_pbs.Eep.Frame.{
  Clock, Endpoint, MessageHeader, message_header, add_bytes, add_words,
  calculate_checksum_no_padding, without_check_sum, is_valid_check_sum, deserialize, parse_body,
  parse_message,
}

add_bytes_bound : (sum : ℕ) (bytes : List ℕ) → sum < 2 ^ 32 → add_bytes sum bytes < 2 ^ 32
unfolding add_bytes
add_bytes_bound sum [] h = h
add_bytes_bound sum (b ∷ bs) h = add_bytes_bound ((sum + b) % 2 ^ 32) bs (omega arith)

add_words_bound : (sum : ℕ) (bytes : List ℕ) → sum < 2 ^ 32 → add_words sum bytes < 2 ^ 32
unfolding add_words
add_words_bound sum [] h = add_bytes_bound sum [] h
add_words_bound sum (a ∷ []) h = add_bytes_bound sum (a ∷ []) h
add_words_bound sum (a ∷ b ∷ []) h = add_bytes_bound sum (a ∷ b ∷ []) h
add_words_bound sum (a ∷ b ∷ c ∷ []) h = add_bytes_bound sum (a ∷ b ∷ c ∷ []) h
add_words_bound sum (a ∷ b ∷ c ∷ d ∷ rest) h =
    add_words_bound ((sum + from_le (a ∷ b ∷ c ∷ d ∷ [])) % 2 ^ 32) rest (omega arith)

pub checksum_bound : (bytes : List ℕ) → calculate_checksum_no_padding bytes < 2 ^ 32
unfolding calculate_checksum_no_padding
checksum_bound bytes = add_words_bound 0 bytes (omega arith)

from_le-u32_bytes : (v : ℕ) → v < 2 ^ 32 → from_le (u32_bytes v) ≡ v
from_le-u32_bytes v h = omega arith

length-with_code : (m : List ℕ) (v : ℕ) → length (m ++ u32_bytes v) - 4 ≡ length m
length-with_code m v = omega (arith, length-append m (u32_bytes v))

pub without_check_sum_lem : (m : List ℕ) (v : ℕ) → without_check_sum (m ++ u32_bytes v) ≡ m
without_check_sum_lem m v = rw (length-with_code m v) (take-length_append m (u32_bytes v))

check_code :
    (m : List ℕ) (v : ℕ) → drop (length (m ++ u32_bytes v) - 4) (m ++ u32_bytes v) ≡ u32_bytes v
check_code m v = rw (length-with_code m v) (drop-length_append m (u32_bytes v))

pub is_valid_check_sum_lem :
    (m : List ℕ) → is_valid_check_sum (m ++ u32_bytes (calculate_checksum_no_padding m)) ≡ true
unfolding is_valid_check_sum
is_valid_check_sum_lem m =
    rw
      (
        le→ltb (length (m ++ u32_bytes v)) 4 (omega (arith, length-append m (u32_bytes v))),
        check_code m v,
        without_check_sum_lem m v,
        from_le-u32_bytes v (checksum_bound m),
      )
      (==_refl v)
  where
    v : ℕ
    v = calculate_checksum_no_padding m

-- What the header says.
abbrev pub header_of : Endpoint → Clock → ℕ → ℕ → ℕ → MessageHeader
header_of e c code seq_no len = record {
  destination_id = e.destination_id % 256;
  source_id = e.source_id % 256;
  data_type_code = code;
  rsv = 0;
  day = c.tm_mday % 256;
  month = (c.tm_mon + 1) % 256;
  year = (c.tm_year + 1900) % 65536;
  rsv1 = 0;
  second = c.tm_sec % 256;
  minute = c.tm_min % 256;
  hour = c.tm_hour % 256;
  seq_no = seq_no;
  data_len = len;
}

two_bytes : (v : ℕ) → v < 65536 → v % 256 + 256 * (v / 256 % 256) ≡ v
two_bytes v h = omega arith

deserialize-message_header :
    (e : Endpoint) (c : Clock) (code seq_no len : ℕ) (payload : List ℕ)
    → seq_no < 65536
    → len < 65536
    → deserialize (message_header e c code seq_no len ++ payload)
      ≡ some (header_of e c code seq_no len)
unfolding deserialize message_header
deserialize-message_header e c code seq_no len payload hs hl =
    rw (two_bytes seq_no hs, two_bytes len hl, two_bytes ((c.tm_year + 1900) % 65536) (omega arith))
      refl

pub length-message_header :
    (e : Endpoint) (c : Clock) (code seq_no len : ℕ)
    → length (message_header e c code seq_no len) ≡ 16
unfolding message_header
length-message_header e c code seq_no len = refl

body :
    (h : MessageHeader) (first payload : List ℕ)
    → length first ≡ 16
    → h.data_len ≡ length payload
    → parse_body (some h) (first ++ payload) ≡ some (h, payload)
unfolding parse_body
body h first payload hf hl =
    rw
      (
        le→ltb (length (first ++ payload)) (16 + h.data_len)
            (omega (arith, length-append first payload)),
        content,
        take_all h.data_len payload (omega arith),
      )
      refl
  where
    content : drop 16 (first ++ payload) ≡ payload
    content = rw (sym hf) (drop-length_append first payload)

pub parse_message_lem :
    (e : Endpoint) (c : Clock) (code seq_no len : ℕ) (payload : List ℕ)
    → seq_no < 65536
    → len < 65536
    → len ≡ length payload
    → parse_message (message_header e c code seq_no len ++ payload)
      ≡ some (header_of e c code seq_no len, payload)
unfolding parse_message
parse_message_lem e c code seq_no len payload hs hb hl =
    rw (deserialize-message_header e c code seq_no len payload hs hb) (
      body (header_of e c code seq_no len) (message_header e c code seq_no len) payload
        (length-message_header e c code seq_no len) hl)
