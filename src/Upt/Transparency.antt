-- ===== src/Upt/Transparency.antt =====
-- Message::FnAddDataTransparency and FnRemoveDataTransparency of upt.cpp: the bytes that frame a
-- message are escaped inside it.
pub mod RoundTrip
use linux_pbs.Base.{ℕ, Bool, ◌&&◌, not, List, [], ◌∷◌, ◌++◌, ◌==◌, if◌then◌else◌}
use linux_pbs.Upt.Status
use linux_pbs.Upt.Codes.{stx, etx}

-- The loop of `FnAddDataTransparency`, one byte.
abbrev pub escape : ℕ → List ℕ
escape b =
    if b == 0x02
    then 0x10 ∷ 0x00 ∷ []
    else if b == 0x04
    then 0x10 ∷ 0x01 ∷ []
    else if b == 0x10
    then 0x10 ∷ 0x10 ∷ []
    else b ∷ []

unfoldable pub escape_all : List ℕ → List ℕ
escape_all [] = []
escape_all (b ∷ input) = escape b ++ escape_all input

unfoldable pub add_data_transparency : List ℕ → List ℕ
unfolding escape_all
add_data_transparency input = stx ∷ escape_all input ++ etx ∷ []

-- `if (input[i] != 0x02 && input[i] != 0x04) output.push_back(input[i])`.
abbrev pub push_plain : ℕ → List ℕ → List ℕ
push_plain b output = if not (b == 0x02) && not (b == 0x04) then output ++ b ∷ [] else output

-- The loop of `FnRemoveDataTransparency`; `++i` inside the switch skips the escaped byte.
unfoldable pub unescape : List ℕ → List ℕ → ℕ × List ℕ
unescape [] output = (Status.success, output)
unescape (b ∷ []) output = (Status.success, push_plain b output)
unescape (b ∷ c ∷ input) output =
    let as_stx = unescape input (output ++ 0x02 ∷ []) in
    let as_etx = unescape input (output ++ 0x04 ∷ []) in
    let as_dle = unescape input (output ++ 0x10 ∷ []) in
    let plain = unescape (c ∷ input) (push_plain b output) in
    if b == 0x10
    then if c == 0x00
      then as_stx
      else if c == 0x01
      then as_etx
      else if c == 0x10
      then as_dle
      else (Status.msg_data_transparency_error, [])
    else plain

unfoldable pub remove_data_transparency : List ℕ → ℕ × List ℕ
unfolding unescape
remove_data_transparency input = unescape input []
