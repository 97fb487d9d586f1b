-- ===== src/Lcsc/Check/Exact.antt =====
-- What an accepted frame of the LCSC reader is.
use linux_pbs.Base.{
  ℕ, ◌-◌, ◌≡◌, ◌≢◌, refl, sym, ap, ◌∙◌, Bool, true, false, not, Option, none, some, List, [],
  length, take, ltb, ◌==◌, ==_iff, arith, All, if-by,
}
use linux_pbs.Bytes.{IsByte}
use linux_pbs.Lcsc.Crc16.{crc16_ccitt}
use linux_pbs.Lcsc.Packet.{CscPacket, serialize_without_crc, serialize}
use linux_pbs.Lcsc.Check.{
  Verdict, rejected, parsed, is_empty_payload, attention, declared_length, check_packet,
  check_frame,
}
use linux_pbs.Lcsc.Check.Accepts.{deserialize-Reads, checked_part}

-- The tests that a packet has passed.
abbrev Passed : (ℕ → Bool) → List ℕ → CscPacket → Type 0
Passed matches frame p =
    (crc16_ccitt (take (length frame - 2) frame) ≡ p.crc)
    × (p.code ≡ true)
    × (matches p.type ≡ true)
    × (p.payload ≢ [])

not-false : (b : Bool) → not b ≡ false → b ≡ true
not-false true h = refl
not-false false h = ground arith

not_empty : (xs : List ℕ) → is_empty_payload xs ≡ false → xs ≢ []
not_empty xs h e = ground arith

-- If the packet is parsed, it is the one that was tested, and passed.
abbrev PassedIf : (ℕ → Bool) → List ℕ → CscPacket → CscPacket → Verdict → Type 0
PassedIf matches frame q p v = v ≡ parsed p → (q ≡ p) × Passed matches frame q

check_packet-PassedIf :
    (matches : ℕ → Bool) (frame : List ℕ) (q p : CscPacket)
    → PassedIf matches frame q p (check_packet matches frame q)
unfolding check_packet
check_packet-PassedIf matches frame q p =
    let P = PassedIf matches frame q p in
    if-by P (not (crc16_ccitt (take (length frame - 2) frame) == q.crc))
      (λ _ e. absurd (ground arith))
      λ crc.
        if-by P (not q.code) (λ _ e. absurd (ground arith))
          λ code.
            if-by P (not (matches q.type)) (λ _ e. absurd (ground arith))
              λ type.
                if-by P (is_empty_payload q.payload) (λ _ e. absurd (ground arith))
                  λ filled e. (
                    cc e,
                    (
                      (==_iff _ _).0 (not-false _ crc),
                      not-false q.code code,
                      not-false _ type,
                      not_empty q.payload filled,
                    ),
                  )

-- The frame is the packet, byte by byte; its CRC is that of its other bytes; it is a response of a
-- wanted type with a payload.
abbrev pub IsAccepted : (ℕ → Bool) → List ℕ → CscPacket → Type 0
IsAccepted matches frame p =
    (serialize p ≡ frame)
    × (p.crc ≡ crc16_ccitt (serialize_without_crc p))
    × (p.attn ≡ 0xa5)
    × (p.code ≡ true)
    × (matches p.type ≡ true)
    × (p.payload ≢ [])

-- What a verdict promises.
abbrev Sound : (ℕ → Bool) → List ℕ → Option Verdict → Type 0
Sound matches frame none = ⊥
Sound matches frame (some (rejected r)) = Unit {0}
Sound matches frame (some (parsed p)) = IsAccepted matches frame p

attention-serialize : (q : CscPacket) → q.attn ≡ attention (serialize q)
unfolding serialize
attention-serialize q = refl

check_read-Sound :
    (matches : ℕ → Bool) (frame : List ℕ) (q : CscPacket)
    → serialize q ≡ frame
    → attention frame ≡ 0xa5
    → (v : Verdict) → check_packet matches frame q ≡ v
    → Sound matches frame (some v)
check_read-Sound matches frame q e attn (rejected r) h = tt
check_read-Sound matches frame q e attn (parsed p) h =
    let (same, passed) = check_packet-PassedIf matches frame q p h in
    let part : take (length frame - 2) frame ≡ serialize_without_crc q = rw e at (checked_part q) in
    let (crc, code, type, filled) = passed in
    let own : IsAccepted matches frame q = (
      e,
      sym crc ∙ ap crc16_ccitt part,
      attention-serialize q ∙ ap attention e ∙ attn,
      code,
      type,
      filled,
    ) in
    rw same at own

check_frame-Sound :
    (matches : ℕ → Bool) (frame : List ℕ)
    → All IsByte frame
    → Sound matches frame (check_frame matches frame)
unfolding check_frame
check_frame-Sound matches frame bytes =
    let P = Sound matches frame in
    if-by P (ltb (length frame) 6) (λ _. tt)
      λ long.
        if-by P (not (attention frame == 0xa5)) (λ _. tt)
          λ attn.
            if-by P (not (declared_length frame == length frame)) (λ _. tt)
              λ says.
                let (q, out, same) =
                  deserialize-Reads frame bytes (ground arith)
                    ((==_iff _ _).0 (not-false _ says)) in
                rw out
                  (check_read-Sound matches frame q same ((==_iff _ _).0 (not-false _ attn)) _ refl)

-- If the tests accept a frame of bytes, its bytes are those of the parsed packet, whose CRC is that of
-- the bytes before it, whose attention code is 0xA5, and which is a response of a type that the
-- current command waits for, with a payload.
pub check_frame-exact :
    (matches : ℕ → Bool) (frame : List ℕ) (p : CscPacket)
    → All IsByte frame
    → check_frame matches frame ≡ some (parsed p)
    → IsAccepted matches frame p
check_frame-exact matches frame p bytes e = rw e at (check_frame-Sound matches frame bytes)

Sound-some :
    (matches : ℕ → Bool) (frame : List ℕ) (r : Option Verdict)
    → Sound matches frame r
    → (v : Verdict) × (r ≡ some v)
Sound-some matches frame none h = absurd h
Sound-some matches frame (some v) h = (v, refl)

-- On every frame of bytes the tests come to a verdict: deserialize, which they call, does not read
-- beyond the frame.
pub check_frame-total :
    (matches : ℕ → Bool) (frame : List ℕ)
    → All IsByte frame
    → (v : Verdict) × (check_frame matches frame ≡ some v)
check_frame-total matches frame bytes =
    Sound-some matches frame _ (check_frame-Sound matches frame bytes)
