-- ===== src/Upt/Parser/Accepts.antt =====
-- What an accepted frame carries.
use linux_pbs.Base.{
  ℕ, suc, ◌^◌, ◌≤◌, ◌<◌, ◌≡◌, sym, ap, ◌∙◌, List, [], ◌++◌, All, length, drop, arith, Option, some,
  none, inl, inr, ◌==◌, ==_iff, Option-cases,
}
use linux_pbs.Bytes.{IsByte}
use linux_pbs.Crc.{crc32}
use linux_pbs.Upt.Status
use linux_pbs.Upt.Transparency.{remove_data_transparency}
use linux_pbs.Upt.Transparency.RoundTrip.{remove_data_transparency_bytes}
use linux_pbs.Upt.Message.{
  PayloadField, Message, header_bytes, payload_bytes, message_bytes, payload_offset,
}
use linux_pbs.Upt.Parser.{
  is_valid_header_size, is_match_header_size, is_match_crc, is_invalid_header_size_less_than_64,
  u32_at, parse_header, parse_fields, parse_body, parse_payload, parse_msg_data,
}
use linux_pbs.Upt.Parser.Exact.{header_bytes-parse_header}
use linux_pbs.Upt.Parser.ExactFields.{if_true, payload_bytes-parse_fields}

-- Of a payload: its own length and CRC stand in its header, and the message has its bytes.
abbrev pub Carries : List ℕ → Message → Type 0
Carries payload m =
    (message_bytes m ≡ payload)
    × (64 ≤ length payload)
    × (u32_at payload 0 ≡ length payload)
    × (u32_at payload 4 ≡ crc32 (drop 8 payload))

parse_body_out :
    (p : List ℕ) (status : ℕ) (fields : List PayloadField)
    → parse_fields (suc (length p)) p (u32_at p 0) payload_offset [] ≡ some (status, fields)
    → parse_body p ≡ some (status, record { header = parse_header p; payloads = fields })
unfolding parse_body
parse_body_out p status fields out = rw (out, parse_body)

parse_body-none :
    (p : List ℕ)
    → parse_fields (suc (length p)) p (u32_at p 0) payload_offset [] ≡ none
    → parse_body p ≡ none
unfolding parse_body
parse_body-none p out = rw (out, parse_body)

body_done :
    (p : List ℕ) (m : Message) (status : ℕ) (fields : List PayloadField)
    → parse_fields (suc (length p)) p (u32_at p 0) payload_offset [] ≡ some (status, fields)
    → parse_body p ≡ some (Status.success, m)
    → (status ≡ Status.success) × (m ≡ record { header = parse_header p; payloads = fields })
body_done p m status fields out e =
    (cc (parse_body_out p status fields out), cc (parse_body_out p status fields out))

parse_body-exact :
    (p : List ℕ) (m : Message)
    → All IsByte p
    → 64 ≤ length p
    → u32_at p 0 ≡ length p
    → parse_body p ≡ some (Status.success, m)
    → message_bytes m ≡ p
unfolding message_bytes payload_bytes
parse_body-exact p m bytes size same e =
    elim (Option-cases (parse_fields (suc (length p)) p (u32_at p 0) payload_offset [])) [
      | inl stuck ↦ cc (parse_body-none p stuck)
      | inr ((status, fields), out) ↦
          let (ended, is_m) = body_done p m status fields out e in
          let body : payload_bytes fields ≡ drop 64 p =
            payload_bytes-parse_fields p bytes (suc (length p)) 64 [] fields size (
              ap (λ (n : ℕ). parse_fields (suc (length p)) p n 64 []) (sym same)
              ∙ out
              ∙ ap {B = Option (ℕ × List PayloadField)} (λ (n : ℕ). some (n, fields)) ended) in
          let whole : header_bytes (parse_header p) ++ payload_bytes fields ≡ p =
            ap (λ (t : List ℕ). header_bytes (parse_header p) ++ t) body
            ∙ header_bytes-parse_header p bytes size in
          ap message_bytes is_m ∙ whole
    ]

parse_payload-exact :
    (p : List ℕ) (m : Message)
    → All IsByte p
    → length p < 2 ^ 32
    → parse_payload p ≡ some (Status.success, m)
    → Carries p m
unfolding parse_payload is_valid_header_size is_match_header_size is_match_crc
    is_invalid_header_size_less_than_64
parse_payload-exact p m bytes small e = elim (if_true (is_valid_header_size (length p)) e) [
  | inr (_, e1) ↦ elim (if_true (is_invalid_header_size_less_than_64 (length p)) e1) [
    | inl (_, bad) ↦ absurd (ground arith)
    | inr (_, bad) ↦ absurd (ground arith)
  ]
  | inl (valid, e1) ↦ elim (if_true (is_match_header_size (u32_at p 0) (length p)) e1) [
    | inr (_, bad) ↦ absurd (ground arith)
    | inl (same, e2) ↦ elim (if_true (is_match_crc (crc32 (drop 8 p)) (u32_at p 4)) e2) [
      | inr (_, bad) ↦ absurd (ground arith)
      | inl (crc, e3) ↦
          let size : 64 ≤ length p = ground arith in
          let says : u32_at p 0 ≡ length p = ground arith in
          (parse_body-exact p m bytes size says e3, size, says, ground arith)
    ]
  ]
]

-- Whenever parsing a frame of bytes, shorter than 2 ^ 32, returns SUCCESS, its escapes could be
-- removed, and the message that it leaves has exactly the bytes of the unescaped frame: at least 64,
-- with their own number and the CRC of those from the version on at their front.
pub parse_msg_data-exact :
    (msg_data : List ℕ) (m : Message)
    → All IsByte msg_data
    → length msg_data < 2 ^ 32
    → parse_msg_data msg_data ≡ some (Status.success, m)
    → ((remove_data_transparency msg_data).0 ≡ Status.success)
      × Carries (remove_data_transparency msg_data).1 m
unfolding parse_msg_data
parse_msg_data-exact msg_data m bytes small e =
    let (clean, fits) = remove_data_transparency_bytes msg_data bytes in
    elim (if_true ((remove_data_transparency msg_data).0 == Status.success) e) [
      | inr (_, bad) ↦ absurd (ground arith)
      | inl (removed, e1) ↦ ((==_iff _ _).0 removed, parse_payload-exact _ m clean (omega arith) e1)
    ]
