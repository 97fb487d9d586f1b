-- ===== src/Examples/Tcp.antt =====
-- The TCP client's theorems on a short run.
use linux_pbs.Base.{◌≡◌, refl, arith, true, [], ◌∷◌, ◌++◌}
use linux_pbs.Tcp.{
  success, error, connect, send, TcpClient, new_client, calls_for, run_next, ends, step,
  close_on_io_thread,
}
use linux_pbs.Tcp.Completions.{without}
use linux_pbs.Tcp.Delivery.{run, online, sends, writes_end, delivered, sends-delivered}
use linux_pbs.Tcp.Session.{Exclusive, Fresh}
use linux_pbs.Tcp.Runs.{
  Reachable, at_start, after, Reachable-Exclusive, close_on_io_thread-silences,
}

-- A client is connected, and writes the first of two messages.
abbrev asked : TcpClient
unfolding step
asked = step (calls_for connect) new_client

asked-Reachable : Reachable asked
unfolding asked step
asked-Reachable = after new_client (calls_for connect) at_start (omega arith)

abbrev dialling : TcpClient
unfolding step
dialling = step (run_next true) asked

dialling-Reachable : Reachable dialling
unfolding dialling step
dialling-Reachable = after asked (run_next true) asked-Reachable (omega arith)

abbrev opened : TcpClient
unfolding step
opened = step (ends 0 (success [])) dialling

opened-Reachable : Reachable opened
unfolding opened step
opened-Reachable = after dialling (ends 0 (success [])) dialling-Reachable (omega arith)

abbrev asked_once : TcpClient
unfolding step
asked_once = step (calls_for (send (1 ∷ 2 ∷ []))) opened

asked_once-Reachable : Reachable asked_once
unfolding asked_once step
asked_once-Reachable = after opened (calls_for (send (1 ∷ 2 ∷ []))) opened-Reachable (omega arith)

abbrev asked_twice : TcpClient
unfolding step
asked_twice = step (calls_for (send (3 ∷ []))) asked_once

asked_twice-Reachable : Reachable asked_twice
unfolding asked_twice step
asked_twice-Reachable =
    after asked_once (calls_for (send (3 ∷ []))) asked_once-Reachable (omega arith)

abbrev writing_one : TcpClient
unfolding step
writing_one = step (run_next true) asked_twice

writing_one-Reachable : Reachable writing_one
unfolding writing_one step
writing_one-Reachable = after asked_twice (run_next true) asked_twice-Reachable (omega arith)

abbrev writing : TcpClient
unfolding step
writing = step (run_next true) writing_one

writing-Reachable : Reachable writing
unfolding writing step
writing-Reachable = after writing_one (run_next true) writing_one-Reachable (omega arith)

writing-Fresh : Fresh writing
unfolding writing step
writing-Fresh = omega arith

queued_messages : writing.write_queue ≡ (1 ∷ 2 ∷ []) ∷ (3 ∷ []) ∷ []
unfolding writing step
queued_messages = refl

Reachable-Exclusive_example : Exclusive writing
Reachable-Exclusive_example = Reachable-Exclusive writing writing-Reachable

close_on_io_thread-silences_example :
    step (ends 0 (error true)) (close_on_io_thread true writing)
    ≡ without 0 (close_on_io_thread true writing)
close_on_io_thread-silences_example =
    close_on_io_thread-silences writing true 0 (error true) writing-Reachable writing-Fresh

sends-delivered_example :
    run
      (sends ((1 ∷ 2 ∷ []) ∷ (3 ∷ []) ∷ []) ++ writes_end ((1 ∷ 2 ∷ []) ∷ (3 ∷ []) ∷ []))
      (online new_client)
    ≡ online (delivered ((1 ∷ 2 ∷ []) ∷ (3 ∷ []) ∷ []) new_client)
sends-delivered_example = sends-delivered ((1 ∷ 2 ∷ []) ∷ (3 ∷ []) ∷ []) new_client
