-- ===== src/Tcp/Runs.antt =====
-- Every run of AppTcpClient keeps the order of its sessions.
use linux_pbs.Base.{
  ℕ, ◌+◌, ◌≤◌, ◌≡◌, refl, sym, subst, ap, ◌∙◌, arith, Bool, false, not, ◌||◌, inl, inr, Option,
  none, some, Option-cases, List, [], ◌∷◌, ◌==◌, ==_iff, if-by, if-both, All,
}
use linux_pbs.Tcp.{
  Operation, connecting_op, reading_op, writing_op, Completion, close_handler, Request, connect,
  close, send, TcpClient, new_client, call, end_session, close_on_io_thread, connect_end, write_end,
  read_end, complete, run_request, pick, removed, run_first, complete_picked, Step, calls_for,
  run_next, ends, step,
}
use linux_pbs.Tcp.Pending.{
  generation_of, bit, one_more, is_connect, is_write, is_read, count, IsUpTo, All-removed,
  count-removed, All-pick, removed-none, older,
}
use linux_pbs.Tcp.Session.{
  Inv, Fresh, connect_on_io_thread-Inv, enqueue_send_on_io_thread-Inv, close_on_io_thread-Inv,
  next_generation_lem, Exclusive,
}
use linux_pbs.Tcp.Completions.{without, connect_end-Inv, write_end-Inv, read_end-Inv}

-- An operation of another generation is not counted.
is_connect-other : (k : ℕ) (o : Operation) → (generation_of o == k) ≡ false → is_connect k o ≡ false
is_connect-other k (connecting_op g) h = h
is_connect-other k (reading_op g) h = refl
is_connect-other k (writing_op g message) h = refl

is_write-other : (k : ℕ) (o : Operation) → (generation_of o == k) ≡ false → is_write k o ≡ false
is_write-other k (connecting_op g) h = refl
is_write-other k (reading_op g) h = refl
is_write-other k (writing_op g message) h = h

is_read-other : (k : ℕ) (o : Operation) → (generation_of o == k) ≡ false → is_read k o ≡ false
is_read-other k (connecting_op g) h = refl
is_read-other k (reading_op g) h = h
is_read-other k (writing_op g message) h = refl

without-Inv :
    (n : ℕ) (o : Operation) (m : TcpClient)
    → pick n m.pending ≡ some o
    → (generation_of o == m.connection_generation) ≡ false
    → Inv m
    → Inv (without n m)
without-Inv n o m h e (up, (k, w, l), c, z) = (
  All-removed (IsUpTo g) n m.pending up,
  (
    sym (kept (is_connect g) (is_connect-other g o e)) ∙ k,
    sym (kept (is_write g) (is_write-other g o e)) ∙ w,
    subst (λ y. y ≤ bit m.connected_snapshot) (kept (is_read g) (is_read-other g o e)) l,
  ),
  c,
  z,
)
  where
    g : ℕ
    g = m.connection_generation

    kept : (p : Operation → Bool) → p o ≡ false → count p m.pending ≡ count p (removed n m.pending)
    kept p q =
        count-removed p n m.pending o h ∙ ap (λ b. one_more b (count p (removed n m.pending))) q

complete-Inv :
    (n : ℕ) (o : Operation) (r : Completion) (m : TcpClient)
    → Fresh m
    → pick n m.pending ≡ some o
    → Inv m
    → Inv (complete o r (without n m))
unfolding complete
complete-Inv n (connecting_op g) r m f h v =
    if-by Inv (g == m.connection_generation)
      (λ e.
        subst (λ k. pick n m.pending ≡ some (connecting_op k) → Inv (connect_end k r (without n m)))
          (sym ((==_iff g m.connection_generation).0 e)) (λ q. connect_end-Inv n r m q v) h)
      (λ e. without-Inv n (connecting_op g) m h e v)
complete-Inv n (writing_op g x) r m f h v =
    if-by Inv (g == m.connection_generation)
      (λ e.
        subst (λ k. pick n m.pending ≡ some (writing_op k x) → Inv (write_end k r (without n m)))
          (sym ((==_iff g m.connection_generation).0 e)) (λ q. write_end-Inv n r x m f q v) h)
      (λ e. without-Inv n (writing_op g x) m h e v)
complete-Inv n (reading_op g) r m f h v =
    if-by Inv (g == m.connection_generation)
      (λ e.
        subst (λ k. pick n m.pending ≡ some (reading_op k) → Inv (read_end k r (without n m)))
          (sym ((==_iff g m.connection_generation).0 e)) (λ q. read_end-Inv n r m f q v) h)
      (λ e. without-Inv n (reading_op g) m h e v)

complete_picked-Inv :
    (n : ℕ) (o : Option Operation) (r : Completion) (m : TcpClient)
    → Fresh m
    → pick n m.pending ≡ o
    → Inv m
    → Inv (complete_picked o n r m)
unfolding complete_picked
complete_picked-Inv n none r m f h v = v
complete_picked-Inv n (some o) r m f h v = complete-Inv n o r m f h v

run_first-Inv :
    (rs : List Request) (well : Bool) (m : TcpClient) → Fresh m → Inv m → Inv (run_first rs well m)
unfolding run_request
run_first-Inv [] well m f v = v
run_first-Inv (connect ∷ rs) well m f v = connect_on_io_thread-Inv (record m { posted = rs }) f v
run_first-Inv (close ∷ rs) well m f v = close_on_io_thread-Inv well (record m { posted = rs }) f v
run_first-Inv (send x ∷ rs) well m f v =
    enqueue_send_on_io_thread-Inv x (record m { posted = rs }) v

step-Inv : (s : Step) (m : TcpClient) → Fresh m → Inv m → Inv (step s m)
unfolding step
step-Inv (calls_for r) m f v = v
step-Inv (run_next well) m f v = run_first-Inv m.posted well m f v
step-Inv (ends n r) m f v = complete_picked-Inv n (pick n m.pending) r m f refl v

-- The states that calls, posted handlers and completions lead to, in whatever order, while the 64-bit
-- generation does not run out.
pub data Reachable : TcpClient → Type 0 where
  at_start : Reachable new_client
  after : (m : TcpClient) (s : Step) → Reachable m → Fresh m → Reachable (step s m)

Reachable-Inv : (m : TcpClient) → Reachable m → Inv m
Reachable-Inv _ at_start = (tt, (refl, refl, omega arith), refl, refl)
Reachable-Inv _ (after m s r f) = step-Inv s m f (Reachable-Inv m r)

-- In every state that calls, posted handlers and completions lead to, in whatever order, while the
-- generation does not run out: of the operations that asio has in hand for the current connection,
-- there is one async_connect while the client is connecting and none otherwise, one async_write while
-- a write is in progress and none otherwise, and at most one read, which only a connected client has.
pub Reachable-Exclusive : (m : TcpClient) → Reachable m → Exclusive m
Reachable-Exclusive m r = (Reachable-Inv m r).1

Silent : ℕ → Completion → TcpClient → Type 0
unfolding step
Silent n r c = step (ends n r) c ≡ without n c

complete-Silent :
    (o : Operation) (r : Completion) (c : TcpClient)
    → (generation_of o == c.connection_generation) ≡ false
    → complete o r c ≡ c
unfolding complete
complete-Silent (connecting_op g) r c e = rw e refl
complete-Silent (writing_op g x) r c e = rw e refl
complete-Silent (reading_op g) r c e = rw e refl

ends-Silent :
    (n : ℕ) (r : Completion) (k : ℕ) (c : TcpClient)
    → c.connection_generation ≡ k + 1
    → All (IsUpTo k) c.pending
    → Silent n r c
unfolding step Silent
ends-Silent n r k c e up = elim (Option-cases (pick n c.pending)) [
  | inl h ↦ rw h (ap (λ os. record c { pending = os }) (sym (removed-none n c.pending h)))
  | inr (o, h) ↦ rw h (
      complete-Silent o r (without n c)
        (rw e (older (generation_of o) k (All-pick (IsUpTo k) n c.pending o h up))))
]

-- After a close of a client in a state that calls, posted handlers and completions lead to, whatever
-- an operation that was in hand before ends with, its completion calls no handler, starts no operation
-- and changes no member of the client. The generation must not have run out.
pub close_on_io_thread-silences :
    (m : TcpClient) (well : Bool) (n : ℕ) (r : Completion)
    → Reachable m
    → Fresh m
    → step (ends n r) (close_on_io_thread well m) ≡ without n (close_on_io_thread well m)
unfolding close_on_io_thread Silent
close_on_io_thread-silences m well n r reached f =
    if-both (Silent n r) (m.socket_is_open || m.connecting || m.connected_snapshot)
      {yes_value = call (close_handler (not m.socket_is_open || well)) (end_session m)}
      (ends-Silent n r m.connection_generation
        (call (close_handler (not m.socket_is_open || well)) (end_session m))
        (next_generation_lem m f) (Reachable-Inv m reached).0)
      (ends-Silent n r m.connection_generation (end_session m) (next_generation_lem m f)
        (Reachable-Inv m reached).0)
