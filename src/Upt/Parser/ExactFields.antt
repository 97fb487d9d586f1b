-- ===== src/Upt/Parser/ExactFields.antt =====
-- The payload fields of an accepted message are the bytes behind its header, cut at their lengths.
use linux_pbs.Base.{
  All-drop, ℕ, zero, suc, ◌+◌, ◌-◌, ◌≤◌, ◌≡◌, refl, sym, ap, ◌∙◌, List, [], ◌∷◌, ◌++◌, All, length,
  take, drop, length-take, length-drop, take-append-drop, drop-add, drop_all, append_assoc,
  append-nil, arith, some, true, false, Bool, ltb, inl, inr, ◌⊎◌, if◌then◌else◌, take_all,
  take-take,
}
use linux_pbs.Bytes.{IsByte, u32_bytes}
use linux_pbs.Bytes.RoundTrip.{extract_sub_vector_lem}
use linux_pbs.Upt.Status
use linux_pbs.Upt.Message.{
  PayloadField, field_bytes, payload_bytes, set_field_data, field_header_size,
}
use linux_pbs.Upt.Parser.{u32_at, parse_field, parse_fields}
use linux_pbs.Upt.Parser.Exact.{u8_part, u16_part, u32_part}

All-take : (n : ℕ) (xs : List ℕ) → All IsByte xs → All IsByte (take n xs)
All-take zero xs h = tt
All-take (suc n) [] h = h
All-take (suc n) (x ∷ xs) h = (h.0, All-take n xs h.1)

-- A field read from its own bytes has those bytes.
field_bytes-parse_field :
    (xs : List ℕ)
    → All IsByte xs
    → u32_at xs 0 ≡ length xs
    → 8 ≤ length xs
    → field_bytes (parse_field xs (length xs)) ≡ xs
unfolding field_bytes parse_field set_field_data
field_bytes-parse_field xs bytes e h =
    let tail_size : length (take (length xs - 8) (drop 8 xs)) ≡ length xs - 8 =
      omega (arith, length-take (length xs - 8) (drop 8 xs), length-drop 8 xs) in
    let whole : take (length xs - 8) (drop 8 xs) ≡ drop 8 xs =
      take_all (length xs - 8) (drop 8 xs) (omega (arith, length-drop 8 xs)) in
    ground (
      arith,
      extract_sub_vector_lem xs 8 (length xs - 8),
      tail_size,
      whole,
      ap u32_bytes e,
      u32_part xs bytes 0 (omega arith),
      u16_part xs bytes 4 (omega arith),
      u8_part xs bytes 6 (omega arith),
      u8_part xs bytes 7 (omega arith),
    )

payload_bytes-append :
    (fs gs : List PayloadField) → payload_bytes (fs ++ gs) ≡ payload_bytes fs ++ payload_bytes gs
unfolding payload_bytes
payload_bytes-append [] gs = refl
payload_bytes-append (f ∷ fs) gs =
    ap (λ (t : List ℕ). field_bytes f ++ t) (payload_bytes-append fs gs)
    ∙ sym (append_assoc (field_bytes f) (payload_bytes fs) (payload_bytes gs))

payload_bytes_one : (f : PayloadField) → payload_bytes (f ∷ []) ≡ field_bytes f
unfolding payload_bytes
payload_bytes_one f = append-nil (field_bytes f)

-- The head of a piece that is long enough is the head of what it was cut from.
u32_at-take : (n start : ℕ) (p : List ℕ) → 8 ≤ n → u32_at (take n (drop start p)) 0 ≡ u32_at p start
unfolding u32_at
u32_at-take n start p h = rw (
  extract_sub_vector_lem (take n (drop start p)) 0 4,
  extract_sub_vector_lem p start 4,
  take-take 4 n (drop start p) (omega arith),
)

pub if_true :
    {A : Type 0} (b : Bool) {x y : A} {r : A}
    → (if b then x else y) ≡ r
    → ((b ≡ true) × (x ≡ r)) ⊎ ((b ≡ false) × (y ≡ r))
if_true true h = inl (refl, h)
if_true false h = inr (refl, h)

module _ (p : List ℕ) (bytes : All IsByte p) where
  -- One field of the loop.
  next_field :
      (start : ℕ)
      → 8 ≤ u32_at p start
      → start + u32_at p start ≤ length p
      → field_bytes (parse_field (take (u32_at p start) (drop start p)) (u32_at p start))
          ++ drop (start + u32_at p start) p
        ≡ drop start p
  next_field start small fits =
      let n = u32_at p start in
      let xs = take n (drop start p) in
      let size : length xs ≡ n = omega (arith, length-take n (drop start p), length-drop start p) in
      let same : u32_at xs 0 ≡ length xs = u32_at-take n start p small ∙ sym size in
      let field : field_bytes (parse_field xs n) ≡ xs =
        ap (λ (k : ℕ). field_bytes (parse_field xs k)) (sym size)
        ∙ field_bytes-parse_field xs (All-take n (drop start p) (All-drop IsByte start p bytes))
            same (omega (arith, size)) in
      ap (λ (t : List ℕ). t ++ drop (start + n) p) field
      ∙ ap (λ (t : List ℕ). xs ++ t) (drop-add start n p)
      ∙ take-append-drop n (drop start p)

  one_more :
      (start : ℕ) (fields out : List PayloadField)
      → 8 ≤ u32_at p start
      → start + u32_at p start ≤ length p
      → payload_bytes out
        ≡ payload_bytes
            (fields ++ parse_field (take (u32_at p start) (drop start p)) (u32_at p start) ∷ [])
          ++ drop (start + u32_at p start) p
      → payload_bytes out ≡ payload_bytes fields ++ drop start p
  one_more start fields out small fits ih =
      let f = parse_field (take (u32_at p start) (drop start p)) (u32_at p start) in
      let behind = drop (start + u32_at p start) p in
      ih
      ∙ ap (λ (t : List ℕ). t ++ behind)
          (payload_bytes-append fields (f ∷ [])
            ∙ ap (λ (t : List ℕ). payload_bytes fields ++ t) (payload_bytes_one f))
      ∙ append_assoc (payload_bytes fields) (field_bytes f) behind
      ∙ ap (λ (t : List ℕ). payload_bytes fields ++ t) (next_field start small fits)

  pub payload_bytes-parse_fields :
      (fuel start : ℕ) (fields out : List PayloadField)
      → start ≤ length p
      → parse_fields fuel p (length p) start fields ≡ some (Status.success, out)
      → payload_bytes out ≡ payload_bytes fields ++ drop start p
  unfolding parse_fields
  payload_bytes-parse_fields zero start fields out h e = cc
  payload_bytes-parse_fields (suc fuel) start fields out h e =
      elim (if_true (ltb start (length p)) e) [
        | inr (last, done) ↦ cc (drop_all start p (ground arith), append-nil (payload_bytes fields))
        | inl (_, e1) ↦ elim (if_true (ltb (length p - start) field_header_size) e1) [
          | inl (_, bad) ↦ absurd (ground arith)
          | inr (_, e2) ↦ elim (if_true (ltb (u32_at p start) field_header_size) e2) [
            | inl (_, bad) ↦ absurd (ground arith)
            | inr (counted, e3) ↦ elim (if_true (ltb (length p - start) (u32_at p start)) e3) [
              | inl (_, bad) ↦ absurd (ground arith)
              | inr (fits, e4) ↦
                  one_more start fields out (ground arith) (ground arith) (
                    payload_bytes-parse_fields fuel (start + u32_at p start) _ out (ground arith)
                      e4)
            ]
          ]
        ]
      ]
