-- ===== src/Eep/CommandData/Sizes/Lengths.antt =====
-- How many bytes `serialize` gives.
use linux_pbs.Base.{ℕ, ◌+◌, refl, List, ◌++◌, length-append}
use linux_pbs.Eep.CommandData.{
  SetDiPortConfigData, DeductData, CpoInfoDisplayData, serialize_set_di_port_config,
  serialize_deduct, serialize_cpo_info_display,
}
use linux_pbs.Eep.CommandData.Sizes.{Sized, LabelSized, DeductSized, DisplaySized, PortsSized}

pub ports-Sized :
    (d : SetDiPortConfigData) → PortsSized d → Sized 12 (serialize_set_di_port_config d)
ports-Sized d (h1, h2, h3, h4, h5, h6) = simp (length-append, h1, h2, h3, h4, h5, h6) refl

pub deduct-Sized : (d : DeductData) → DeductSized d → Sized 40 (serialize_deduct d)
deduct-Sized d (s, (r, l, r1), c, r2, b, e) = simp (length-append, s, r, l, r1, c, r2, b, e) refl

pub display-Sized :
    (d : CpoInfoDisplayData) → DisplaySized d → Sized 133 (serialize_cpo_info_display d)
display-Sized d ((r, l, r1), r2, t, n, (s1, s2, s3, s4, s5), stored) =
    simp (length-append, r, l, r1, r2, t, n, s1, s2, s3, s4, s5, stored) refl

pub labelled-Sized :
    (n : ℕ) (rsv obu_label rsv1 : List ℕ)
    → LabelSized n rsv obu_label rsv1
    → Sized (n + 5 + 3) (rsv ++ obu_label ++ rsv1)
labelled-Sized n rsv obu_label rsv1 (r, l, r1) = simp (length-append, r, l, r1) refl

pub numbered-Sized :
    (serial_num rsv obu_label rsv1 : List ℕ)
    → Sized 2 serial_num
    → LabelSized 10 rsv obu_label rsv1
    → Sized 20 (serial_num ++ rsv ++ obu_label ++ rsv1)
numbered-Sized serial_num rsv obu_label rsv1 s (r, l, r1) = simp (length-append, s, r, l, r1) refl
