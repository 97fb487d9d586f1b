-- ===== src/Upt/Transparency/RoundTrip.antt =====
-- Escaping a message and taking the escapes out again gives the message back.
use linux_pbs.Base.{
  ℕ, ◌+◌, ◌≤◌, ◌≡◌, ◌≢◌, ap, ◌∙◌, List, [], ◌∷◌, ◌++◌, ◌==◌, if-both, append_cons, All, All-append,
  length, length-append, append_assoc, append-nil, arith,
}
use linux_pbs.Bytes.{IsByte}
use linux_pbs.Upt.Status
use linux_pbs.Upt.Codes.{stx, etx}
use linux_pbs.Upt.Transparency.{
  escape, escape_all, add_data_transparency, push_plain, unescape, remove_data_transparency,
}

-- Reading one escaped byte, whatever follows it.
unescape-escape :
    (b c : ℕ) (rest output : List ℕ)
    → unescape (escape b ++ c ∷ rest) output ≡ unescape (c ∷ rest) (output ++ b ∷ [])
unfolding unescape
unescape-escape b c rest output = ground arith

unescape-escape_append :
    (b : ℕ) (tail output : List ℕ) (c : ℕ) (rest : List ℕ)
    → tail ≡ c ∷ rest
    → unescape (escape b ++ tail) output ≡ unescape tail (output ++ b ∷ [])
unescape-escape_append b tail output c rest e = rw e (unescape-escape b c rest output)

unescape-escape_all :
    (input output : List ℕ)
    → unescape (escape_all input ++ etx ∷ []) output ≡ (Status.success, output ++ input)
unfolding unescape escape_all
unescape-escape_all [] output = rw (append-nil output)
unescape-escape_all (b ∷ input) output =
    let (c, rest, e) = append_cons (escape_all input) etx in
    rw (append_assoc (escape b)) (
      unescape-escape_append b _ output c rest e
      ∙ unescape-escape_all input (output ++ b ∷ [])
      ∙ ap (λ (t : List ℕ). (Status.success, t)) (append_assoc output (b ∷ []) input))

unescape-stx :
    (tail : List ℕ) (c : ℕ) (rest : List ℕ)
    → tail ≡ c ∷ rest
    → unescape (stx ∷ tail) [] ≡ unescape tail []
unfolding unescape
unescape-stx tail c rest e = rw e

-- Removing the data transparency of what `add_data_transparency` made succeeds with the input, for
-- every input.
pub remove-add_data_transparency :
    (input : List ℕ)
    → remove_data_transparency (add_data_transparency input) ≡ (Status.success, input)
unfolding remove_data_transparency add_data_transparency
remove-add_data_transparency input =
    let (c, rest, e) = append_cons (escape_all input) etx in
    unescape-stx _ c rest e ∙ unescape-escape_all input []

-- Between the two frame bytes no byte is one of them.
escape-plain : (b : ℕ) → All (λ x. (x ≢ stx) × (x ≢ etx)) (escape b)
escape-plain b = ground arith

pub escape_all-plain : (input : List ℕ) → All (λ x. (x ≢ stx) × (x ≢ etx)) (escape_all input)
unfolding escape_all
escape_all-plain [] = tt
escape_all-plain (b ∷ input) =
    All-append (λ x. (x ≢ stx) × (x ≢ etx)) (escape b) (escape_all input) (escape-plain b)
      (escape_all-plain input)

-- Taking the escapes out makes bytes of bytes, and no message longer.
push_plain_bytes :
    (b : ℕ) (output : List ℕ) → IsByte b → All IsByte output → All IsByte (push_plain b output)
push_plain_bytes b output p h = ground (arith, All-append IsByte output (b ∷ []) h (p, tt))

-- What a run may leave: bytes, no more of them than `bound`.
abbrev Leaves : ℕ → ℕ × List ℕ → Type 0
Leaves bound r = All IsByte r.1 × (length r.1 ≤ bound)

push-IsByte :
    (b : ℕ) (output : List ℕ) → IsByte b → All IsByte output → All IsByte (output ++ b ∷ [])
push-IsByte b output p h = All-append IsByte output (b ∷ []) h (p, tt)

weaken : (n m : ℕ) (r : ℕ × List ℕ) → n ≤ m → Leaves n r → Leaves m r
weaken n m r h l = (l.0, omega arith)

unescape_bytes :
    (input output : List ℕ)
    → All IsByte input
    → All IsByte output
    → Leaves (length input + length output) (unescape input output)
unfolding unescape
unescape_bytes [] output h g = (g, omega arith)
unescape_bytes (b ∷ []) output h g =
    (push_plain_bytes b output h.0 g, ground (arith, length-append output (b ∷ [])))
unescape_bytes (b ∷ c ∷ input) output h g =
    let bound = length (b ∷ c ∷ input) + length output in
    let P = Leaves bound in
    let escaped : (x : ℕ) → IsByte x → P (unescape input (output ++ x ∷ [])) = λ x small.
      weaken _ bound (unescape input (output ++ x ∷ []))
        (omega (arith, length-append output (x ∷ [])))
        (unescape_bytes input (output ++ x ∷ []) h.1.1 (push-IsByte x output small g)) in
    if-both P (b == 0x10)
      (if-both P (c == 0x00) (escaped 0x02 (omega arith)) (
        if-both P (c == 0x01) (escaped 0x04 (omega arith))
          (if-both P (c == 0x10) (escaped 0x10 (omega arith)) (tt, omega arith))))
      (weaken _ bound (unescape (c ∷ input) (push_plain b output))
        (ground (arith, length-append output (b ∷ [])))
        (unescape_bytes (c ∷ input) (push_plain b output) h.1 (push_plain_bytes b output h.0 g)))

pub remove_data_transparency_bytes :
    (input : List ℕ)
    → All IsByte input
    → All IsByte (remove_data_transparency input).1
      × (length (remove_data_transparency input).1 ≤ length input)
unfolding remove_data_transparency
remove_data_transparency_bytes input h =
    let (small, fits) = unescape_bytes input [] h tt in (small, omega arith)
