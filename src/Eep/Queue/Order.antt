-- ===== src/Eep/Queue/Order.antt =====
-- The priority queue of commands: what pop takes, and the order in which the commands leave.
use linux_pbs.Base.{
  ℕ, zero, suc, ◌<◌, ◌≤◌, ◌≡◌, refl, ap, ◌⊎◌, true, false, List, [], ◌∷◌, length, All, arith,
  if-both, if-by,
}
use mathlib.Core.List.{Perm}
use mathlib.Core.List.Perm
use linux_pbs.Eep.Queue.{Command, compare_command, better, pop_first, pop_all}

-- What holds of every command of a queue holds of the top and of the others.
abbrev Holds {ℓ} : (Command → Type ℓ) → Command × List Command → Type ℓ
Holds P (t, rest) = P t × All P rest

better-All {ℓ} :
    (P : Command → Type ℓ) (c : Command) (r : Command × List Command)
    → P c
    → Holds P r
    → Holds P (better c r)
unfolding better
better-All P c (t, rest) h (ht, hr) =
    if-both (Holds P) (compare_command c t) (ht, (h, hr)) (h, (ht, hr))

pub pop_first-All {ℓ} :
    (P : Command → Type ℓ) (c : Command) (cs : List Command)
    → P c
    → All P cs
    → P (pop_first c cs).0 × All P (pop_first c cs).1
unfolding pop_first
pop_first-All P c [] h hs = (h, tt)
pop_first-All P c (d ∷ ds) h hs = better-All P c (pop_first d ds) h (pop_first-All P d ds hs.0 hs.1)

-- a goes first: a lower priority number, or the same and enqueued no later.
abbrev pub GoesFirst : Command → Command → Type 0
GoesFirst a b = (a.priority < b.priority) ⊎ ((a.priority ≡ b.priority) × (a.sequence ≤ b.sequence))

compare_command-true : (a b : Command) → compare_command a b ≡ true → GoesFirst b a
unfolding compare_command
compare_command-true a b h = ground arith

compare_command-false : (a b : Command) → compare_command a b ≡ false → GoesFirst a b
unfolding compare_command
compare_command-false a b h = ground arith

GoesFirst-trans : (a b c : Command) → GoesFirst a b → GoesFirst b c → GoesFirst a c
GoesFirst-trans a b c h k = ground arith

All-GoesFirst :
    (a b : Command) (cs : List Command)
    → GoesFirst a b
    → All (GoesFirst b) cs
    → All (GoesFirst a) cs
All-GoesFirst a b [] h hs = tt
All-GoesFirst a b (c ∷ cs) h hs = (GoesFirst-trans a b c h hs.0, All-GoesFirst a b cs h hs.1)

abbrev Least : Command × List Command → Type 0
Least (t, rest) = All (GoesFirst t) rest

better-Least : (c : Command) (r : Command × List Command) → Least r → Least (better c r)
unfolding better
better-Least c (t, rest) h =
    if-by Least (compare_command c t) (λ e. (compare_command-true c t e, h))
      (λ e. (compare_command-false c t e, All-GoesFirst c t rest (compare_command-false c t e) h))

pop_first-Least : (c : Command) (cs : List Command) → Least (pop_first c cs)
unfolding pop_first
pop_first-Least c [] = tt
pop_first-Least c (d ∷ ds) = better-Least c (pop_first d ds) (pop_first-Least d ds)

abbrev Same : List Command → Command × List Command → Type 0
Same cs (t, rest) = Perm (t ∷ rest) cs

better-Same :
    (c : Command) (cs : List Command) (r : Command × List Command)
    → Same cs r
    → Same (c ∷ cs) (better c r)
unfolding better
better-Same c cs (t, rest) h =
    if-both (Same (c ∷ cs)) (compare_command c t) (Perm.trans (Perm.swap c t rest) (Perm.cons c h))
      (Perm.cons c h)

pop_first-Same : (c : Command) (cs : List Command) → Same (c ∷ cs) (pop_first c cs)
unfolding pop_first
pop_first-Same c [] = Perm.refl (c ∷ [])
pop_first-Same c (d ∷ ds) = better-Same c (d ∷ ds) (pop_first d ds) (pop_first-Same d ds)

abbrev LeavesOne : ℕ → Command × List Command → Type 0
LeavesOne n (t, rest) = length rest ≡ n

better-LeavesOne :
    (c : Command) (n : ℕ) (r : Command × List Command)
    → LeavesOne n r
    → LeavesOne (suc n) (better c r)
unfolding better
better-LeavesOne c n (t, rest) h =
    if-both (LeavesOne (suc n)) (compare_command c t) (ap suc h) (ap suc h)

pub pop_first-LeavesOne : (c : Command) (cs : List Command) → LeavesOne (length cs) (pop_first c cs)
unfolding pop_first
pop_first-LeavesOne c [] = refl
pop_first-LeavesOne c (d ∷ ds) =
    better-LeavesOne c (length ds) (pop_first d ds) (pop_first-LeavesOne d ds)

pub pop_all-All {ℓ} :
    (P : Command → Type ℓ) (n : ℕ) (cs : List Command) → All P cs → All P (pop_all n cs)
unfolding pop_all
pop_all-All P zero cs h = tt
pop_all-All P (suc n) [] h = tt
pop_all-All P (suc n) (c ∷ cs) h =
    let (ht, hr) = pop_first-All P c cs h.0 h.1 in (ht, pop_all-All P n (pop_first c cs).1 hr)

-- Each command goes before all that follow it.
abbrev pub IsOrdered : List Command → Type 0
IsOrdered [] = Unit
IsOrdered (c ∷ cs) = All (GoesFirst c) cs × IsOrdered cs

-- Popping the queue until it is empty, as clearCommandQueue does, takes out exactly the commands that
-- were in it, each before all those of a higher priority number and, at equal priority, before those
-- with a higher sequence number; as many pops as there are commands are enough.
pub pop_all-IsOrdered :
    (n : ℕ) (queue : List Command)
    → length queue ≤ n
    → Perm (pop_all n queue) queue × IsOrdered (pop_all n queue)
unfolding pop_all
pop_all-IsOrdered n [] h = nothing n
  where
    nothing : (n : ℕ) → Perm (pop_all n []) [] × IsOrdered (pop_all n [])
    nothing zero = (Perm.refl [], tt)
    nothing (suc k) = (Perm.refl [], tt)
pop_all-IsOrdered zero (c ∷ cs) h = absurd (omega arith)
pop_all-IsOrdered (suc n) (c ∷ cs) h =
    let (same, ordered) =
      pop_all-IsOrdered n (pop_first c cs).1 (omega (arith, pop_first-LeavesOne c cs)) in
    (
      Perm.trans (Perm.cons (pop_first c cs).0 same) (pop_first-Same c cs),
      (
        pop_all-All (GoesFirst (pop_first c cs).0) n (pop_first c cs).1 (pop_first-Least c cs),
        ordered,
      ),
    )
