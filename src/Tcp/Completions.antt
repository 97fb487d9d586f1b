-- ===== src/Tcp/Completions.antt =====
-- The completions of the operations of AppTcpClient keep the order of its sessions.
use linux_pbs.Base.{
  ℕ, ◌+◌, ◌≤◌, ◌≡◌, refl, sym, subst, ap, ◌∙◌, arith, Bool, true, false, ◌&&◌, some, List, [], ◌∷◌,
  ==_refl, if-both, All,
}
use linux_pbs.Tcp.{
  Operation, connecting_op, reading_op, writing_op, Completion, success, error, connect_handler,
  send_handler, receive_handler, TcpClient, call, start_next_write_on_io_thread, connect_end,
  pop_front, write_end, read_end, pick, removed,
}
use linux_pbs.Tcp.Pending.{
  bit, one_more, is_connect, is_write, is_read, count, IsUpTo, All-removed, count-removed,
}
use linux_pbs.Tcp.Session.{
  Inv, Fresh, write_front-Inv, start_async_receive-Inv, handle_transport_failure-Inv,
}

-- The client without the operation that has completed.
abbrev pub without : ℕ → TcpClient → TcpClient
without n m = record m { pending = removed n m.pending }

-- Where a connect completes, none is left, and no read was in hand.
connect_left :
    (connecting connected : Bool) (connects reads : ℕ)
    → connects + 1 ≡ bit connecting
    → (connecting && connected) ≡ false
    → reads ≤ bit connected
    → (connects ≡ 0) × (reads ≡ 0)
connect_left true false k r h c l = (omega arith, omega arith)
connect_left true true k r h c l = absurd (ground arith)
connect_left false _ k r h c l = absurd (omega arith)

pub connect_end-Inv :
    (n : ℕ) (r : Completion) (m : TcpClient)
    → pick n m.pending ≡ some (connecting_op m.connection_generation)
    → Inv m
    → Inv (connect_end m.connection_generation r (without n m))
unfolding connect_end
connect_end-Inv n r m h (up, (k, w, l), c, z) = ended r
  where
    g : ℕ
    g = m.connection_generation

    left : List Operation
    left = removed n m.pending

    up_left : All (IsUpTo g) left
    up_left = All-removed (IsUpTo g) n m.pending up

    connects : count (is_connect g) m.pending ≡ count (is_connect g) left + 1
    connects =
        count-removed (is_connect g) n m.pending _ h
        ∙ ap (λ b. one_more b (count (is_connect g) left)) (==_refl g)

    reads : count (is_read g) left ≤ bit m.connected_snapshot
    reads = subst (λ x. x ≤ bit m.connected_snapshot) (count-removed (is_read g) n m.pending _ h) l

    writes : count (is_write g) left ≡ bit m.write_in_progress
    writes = sym (count-removed (is_write g) n m.pending _ h) ∙ w

    nothing : (count (is_connect g) left ≡ 0) × (count (is_read g) left ≡ 0)
    nothing =
        connect_left m.connecting m.connected_snapshot (count (is_connect g) left)
          (count (is_read g) left) (sym connects ∙ k) c reads

    ended : (r : Completion) → Inv (connect_end g r (without n m))
    ended (success bytes) =
        start_async_receive-Inv
          (call (connect_handler true)
            (record (without n m) { connecting = false; connected_snapshot = true }))
          (up_left, (nothing.0, writes, omega (arith, nothing.1)), refl, z) nothing.1
    ended (error aborted) =
        if-both Inv (aborted && m.closing)
          (up_left, (nothing.0, writes, omega (arith, nothing.1)), refl, z)
          (up_left, (nothing.0, writes, omega (arith, nothing.1)), refl, z)

pub write_end-Inv :
    (n : ℕ) (r : Completion) (x : List ℕ) (m : TcpClient)
    → Fresh m
    → pick n m.pending ≡ some (writing_op m.connection_generation x)
    → Inv m
    → Inv (write_end m.connection_generation r (without n m))
unfolding write_end start_next_write_on_io_thread
write_end-Inv n r x m f h (up, (k, w, l), c, z) = ended r
  where
    g : ℕ
    g = m.connection_generation

    left : List Operation
    left = removed n m.pending

    writes : count (is_write g) m.pending ≡ count (is_write g) left + 1
    writes =
        count-removed (is_write g) n m.pending _ h
        ∙ ap (λ b. one_more b (count (is_write g) left)) (==_refl g)

    none_left : (b : Bool) → count (is_write g) m.pending ≡ bit b → count (is_write g) left ≡ 0
    none_left true e = omega (arith, writes)
    none_left false e = absurd (omega (arith, writes))

    popped-Inv :
        (q : List (List ℕ))
        → Inv (record (without n m) { write_in_progress = false; write_queue = q })
    popped-Inv q = (
      All-removed (IsUpTo g) n m.pending up,
      (
        sym (count-removed (is_connect g) n m.pending _ h) ∙ k,
        none_left m.write_in_progress w,
        subst (λ y. y ≤ bit m.connected_snapshot) (count-removed (is_read g) n m.pending _ h) l,
      ),
      c,
      z,
    )

    ended : (r : Completion) → Inv (write_end g r (without n m))
    ended (success bytes) =
        write_front-Inv (pop_front m.write_queue)
          (call (send_handler true) (record (without n m) {
            write_in_progress = false;
            write_queue = pop_front m.write_queue;
          }))
          (popped-Inv (pop_front m.write_queue))
    ended (error aborted) =
        if-both Inv (aborted && m.closing)
          {yes_value = record (without n m) { write_in_progress = false }}
          (popped-Inv m.write_queue)
          (handle_transport_failure-Inv false
            (call (send_handler false) (record (without n m) { write_in_progress = false })) f
            (popped-Inv m.write_queue))

pub read_end-Inv :
    (n : ℕ) (r : Completion) (m : TcpClient)
    → Fresh m
    → pick n m.pending ≡ some (reading_op m.connection_generation)
    → Inv m
    → Inv (read_end m.connection_generation r (without n m))
unfolding read_end
read_end-Inv n r m f h (up, (k, w, l), c, z) = ended r
  where
    g : ℕ
    g = m.connection_generation

    left : List Operation
    left = removed n m.pending

    reads : count (is_read g) m.pending ≡ count (is_read g) left + 1
    reads =
        count-removed (is_read g) n m.pending _ h
        ∙ ap (λ b. one_more b (count (is_read g) left)) (==_refl g)

    none_left : (b : Bool) → count (is_read g) m.pending ≤ bit b → count (is_read g) left ≡ 0
    none_left true e = omega (arith, reads)
    none_left false e = absurd (omega (arith, reads))

    without-Inv : Inv (without n m)
    without-Inv = (
      All-removed (IsUpTo g) n m.pending up,
      (
        sym (count-removed (is_connect g) n m.pending _ h) ∙ k,
        sym (count-removed (is_write g) n m.pending _ h) ∙ w,
        omega (arith, reads),
      ),
      c,
      z,
    )

    ended : (r : Completion) → Inv (read_end g r (without n m))
    ended (success []) =
        start_async_receive-Inv (without n m) without-Inv (none_left m.connected_snapshot l)
    ended (success (b ∷ bs)) =
        start_async_receive-Inv (call (receive_handler true (b ∷ bs)) (without n m)) without-Inv
          (none_left m.connected_snapshot l)
    ended (error true) = without-Inv
    ended (error false) = handle_transport_failure-Inv true (without n m) f without-Inv
