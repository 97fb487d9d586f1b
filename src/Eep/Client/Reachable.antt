-- ===== src/Eep/Client/Reachable.antt =====
-- The states that the EEP client reaches.
use linux_pbs.Base.{ℕ, ◌≡◌, true, List, Option, All}
use linux_pbs.Bytes.{IsByte}
use linux_pbs.Eep.Frame.{Clock, Endpoint}
use linux_pbs.Eep.Client.State.{Client, started}
use linux_pbs.Eep.Client.Inputs.{Input, receives, timer_ends, failed, shut_down, step}

-- What the environment does: a steady_timer's wait ends with success or an abort, what is received is
-- bytes, and the client is shut down after it was closed.
abbrev pub Admissible : Input → Client → Type 0
Admissible (timer_ends t failed) m = ⊥
Admissible (receives success frame) m = All IsByte frame
Admissible shut_down m = m.stopping ≡ true
Admissible _ m = Unit {0}

-- The states that admissible inputs lead to, from the one that FnEEPClientInit leaves.
pub data Reachable (get_time : List ℕ → Option Clock) : Client → Type 0 where
  at_start :
      (e : Endpoint) (clock : Clock) (serial_no : ℕ)
      → Reachable get_time (started e clock serial_no)
  after :
      (m : Client) (i : Input)
      → Reachable get_time m
      → Admissible i m
      → Reachable get_time (step get_time i m)
