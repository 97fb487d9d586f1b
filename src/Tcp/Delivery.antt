-- ===== src/Tcp/Delivery.antt =====
-- AppTcpClient writes the messages that it is given one after another, in their order.
use linux_pbs.Base.{
  ℕ, ◌≡◌, refl, ap, sym, ◌∙◌, true, false, List, [], ◌∷◌, ◌++◌, ==_refl, append_assoc, append-nil,
  map,
}
use linux_pbs.Tcp.{
  writing_op, success, Call, send_handler, send, TcpClient, write_front,
  start_next_write_on_io_thread, enqueue_send_on_io_thread, write_end, complete, run_request, Step,
  calls_for, run_next, ends, step,
}

unfoldable pub run : List Step → TcpClient → TcpClient
unfolding step
run [] m = m
run (s ∷ ss) m = run ss (step s m)

-- Connected, with nothing to write.
abbrev pub online : TcpClient → TcpClient
online m = record m {
  socket_is_open = true;
  write_queue = [];
  connecting = false;
  closing = false;
  write_in_progress = false;
  connected_snapshot = true;
  posted = [];
}

-- Writing the first of its messages.
abbrev writing : List ℕ → List (List ℕ) → TcpClient → TcpClient
writing x xs m = record (online m) {
  write_queue = x ∷ xs;
  write_in_progress = true;
  pending = writing_op m.connection_generation x ∷ m.pending;
  written = m.written ++ x ∷ [];
}

-- A send is called, and its posted part runs.
abbrev pub sends : List (List ℕ) → List Step
sends [] = []
sends (x ∷ xs) = calls_for (send x) ∷ run_next true ∷ sends xs

-- A write that completes for each.
abbrev pub writes_end : List (List ℕ) → List Step
writes_end [] = []
writes_end (x ∷ xs) = ends 0 (success []) ∷ writes_end xs

sent_calls : List (List ℕ) → List Call
sent_calls xs = map (λ x. send_handler true) xs

first_send :
    (x : List ℕ) (m : TcpClient)
    → step (run_next true) (step (calls_for (send x)) (online m)) ≡ writing x [] m
unfolding step run_request enqueue_send_on_io_thread start_next_write_on_io_thread write_front
first_send x m = rw (==_refl m.connection_generation) refl

later_send :
    (x : List ℕ) (q : List (List ℕ)) (y : List ℕ) (m : TcpClient)
    → step (run_next true) (step (calls_for (send y)) (writing x q m)) ≡ writing x (q ++ y ∷ []) m
unfolding step run_request enqueue_send_on_io_thread
later_send x q y m = refl

later_sends :
    (x : List ℕ) (q ys : List (List ℕ)) (m : TcpClient)
    → run (sends ys) (writing x q m) ≡ writing x (q ++ ys) m
unfolding run
later_sends x q [] m = ap (λ l. writing x l m) (sym (append-nil q))
later_sends x q (y ∷ ys) m =
    ap (run (sends ys)) (later_send x q y m)
    ∙ later_sends x (q ++ y ∷ []) ys m
    ∙ ap (λ l. writing x l m) (append_assoc q (y ∷ []) ys)

-- A client one of whose writes has completed.
abbrev wrote : List ℕ → TcpClient → TcpClient
wrote x m = record m { calls = m.calls ++ send_handler true ∷ []; written = m.written ++ x ∷ [] }

last_write :
    (x : List ℕ) (m : TcpClient) → step (ends 0 (success [])) (writing x [] m) ≡ online (wrote x m)
unfolding step complete write_end start_next_write_on_io_thread write_front
last_write x m = rw (==_refl m.connection_generation) refl

next_write :
    (x y : List ℕ) (q : List (List ℕ)) (m : TcpClient)
    → step (ends 0 (success [])) (writing x (y ∷ q) m) ≡ writing y q (wrote x m)
unfolding step complete write_end start_next_write_on_io_thread write_front
next_write x y q m = rw (==_refl m.connection_generation) refl

-- What a client has written, and told, once all of a list is.
abbrev pub delivered : List (List ℕ) → TcpClient → TcpClient
delivered xs m = record m {
  calls = m.calls ++ map (λ x. send_handler true) xs;
  written = m.written ++ xs;
}

wrote-delivered :
    (x : List ℕ) (xs : List (List ℕ)) (m : TcpClient)
    → online (delivered xs (wrote x m)) ≡ online (delivered (x ∷ xs) m)
wrote-delivered x xs m =
    ap (λ c. online (record m { calls = c; written = (m.written ++ x ∷ []) ++ xs }))
      (append_assoc m.calls (send_handler true ∷ []) (map (λ y. send_handler true) xs))
    ∙ ap
        (λ w. online (record m {
          calls = m.calls ++ send_handler true ∷ map (λ y. send_handler true) xs;
          written = w;
        }))
        (append_assoc m.written (x ∷ []) xs)

all_writes :
    (x : List ℕ) (xs : List (List ℕ)) (m : TcpClient)
    → run (writes_end (x ∷ xs)) (writing x xs m) ≡ online (delivered (x ∷ xs) m)
unfolding run
all_writes x [] m = last_write x m
all_writes x (y ∷ ys) m =
    ap (run (writes_end (y ∷ ys))) (next_write x y ys m)
    ∙ all_writes y ys (wrote x m)
    ∙ wrote-delivered x (y ∷ ys) m

run-append : (ss ts : List Step) (m : TcpClient) → run (ss ++ ts) m ≡ run ts (run ss m)
unfolding run
run-append [] ts m = refl
run-append (s ∷ ss) ts m = run-append ss ts (step s m)

-- A client that is connected and has nothing to write is called to send any number of messages before
-- the first write completes, and then every write completes well: it has given async_write each message
-- once, in the order of the calls, has told the parent of as many sends, and is
-- as before, with nothing left to write.
pub sends-delivered :
    (xs : List (List ℕ)) (m : TcpClient)
    → run (sends xs ++ writes_end xs) (online m) ≡ online (delivered xs m)
unfolding run
sends-delivered [] m =
    ap (λ c. online (record m { calls = c })) (sym (append-nil m.calls))
    ∙ ap (λ w. online (record m { calls = m.calls ++ []; written = w }))
        (sym (append-nil m.written))
sends-delivered (x ∷ xs) m =
    run-append (sends (x ∷ xs)) (writes_end (x ∷ xs)) (online m)
    ∙ ap (λ c. run (writes_end (x ∷ xs)) (run (sends xs) c)) (first_send x m)
    ∙ ap (run (writes_end (x ∷ xs))) (later_sends x [] xs m)
    ∙ all_writes x xs m
