-- ===== src/Eep/Queue.antt =====
-- EEPClient::Command, CompareCommand (eep_client.h), and the `std::priority_queue` of commands: a list
-- in the order of insertion, whose top is the element that no other one goes before.
pub mod Order
use linux_pbs.Base.{
  ℕ, zero, suc, Bool, Option, none, some, List, [], ◌∷◌, ◌++◌, ltb, ◌==◌, if◌then◌else◌,
}
use linux_pbs.Eep.CommandType.{CommandType, watchdog_req_cmd}
use linux_pbs.Eep.CommandData.{CommandData, null}

pub record Command : Type 0 where
  pub type : CommandType
  pub priority : ℕ
  pub sequence : ℕ  -- uint64
  pub cmd_data : CommandData

-- Command::Command().
abbrev pub default_command : Command
default_command = record { type = watchdog_req_cmd; priority = 1; sequence = 0; cmd_data = null }

-- CompareCommand: a goes after b.
unfoldable pub compare_command : Command → Command → Bool
compare_command a b =
    if a.priority == b.priority then ltb b.sequence a.sequence else ltb b.priority a.priority

-- commandQueue_.push.
abbrev pub push : Command → List Command → List Command
push c queue = queue ++ c ∷ []

abbrev better : Command → Command × List Command → Command × List Command
unfolding compare_command
better c (t, rest) = if compare_command c t then (t, c ∷ rest) else (c, t ∷ rest)

-- The top of a queue that begins with c, and the others.
unfoldable pub pop_first : Command → List Command → Command × List Command
unfolding better
pop_first c [] = (c, [])
pop_first c (d ∷ ds) = better c (pop_first d ds)

-- commandQueue_.top and pop, none on the empty queue.
unfoldable pub pop : List Command → Option (Command × List Command)
unfolding pop_first
pop [] = none
pop (c ∷ cs) = some (pop_first c cs)

-- The commands in the order in which the loop of clearCommandQueue pops them.
unfoldable pub pop_all : ℕ → List Command → List Command
unfolding pop_first
pop_all zero queue = []
pop_all (suc n) [] = []
pop_all (suc n) (c ∷ cs) = let (top, rest) = pop_first c cs in top ∷ pop_all n rest
