-- ===== src/Tcp/Session.antt =====
-- The sessions of AppTcpClient: what its flags say of the operations that asio has in hand.
use linux_pbs.Base.{
  ℕ, ◌+◌, ◌^◌, ◌≤◌, ◌<◌, ◌≡◌, refl, sym, subst, ap, ◌∙◌, arith, Bool, true, false, not, ◌&&◌, ◌||◌,
  Bool-cases, inl, inr, List, [], ◌∷◌, ◌++◌, ◌==◌, ==_refl, if-by, if-both, All,
}
use linux_pbs.Tcp.{
  Operation, writing_op, send_handler, close_handler, TcpClient, next_generation, call,
  begin_operation, connect_on_io_thread, write_front, start_next_write_on_io_thread,
  enqueue_send_on_io_thread, start_async_receive_on_io_thread, connect_started, end_session,
  close_on_io_thread, handle_transport_failure_on_io_thread,
}
use linux_pbs.Tcp.Pending.{
  bit, is_connect, is_write, is_read, count, IsUpTo, IsUpTo-All-suc, count-older, is_connect-older,
  is_write-older, is_read-older,
}

-- Of the current generation there is a connect exactly while the client is connecting, a write exactly
-- while one is in progress, and at most one read, only while it is connected.
abbrev pub Counts : ℕ → List Operation → Bool → Bool → Bool → Type 0
Counts n os connecting writing connected =
    (count (is_connect n) os ≡ bit connecting)
    × (count (is_write n) os ≡ bit writing)
    × (count (is_read n) os ≤ bit connected)

abbrev pub Exclusive : TcpClient → Type 0
Exclusive m =
    Counts m.connection_generation m.pending m.connecting m.write_in_progress m.connected_snapshot

abbrev pub Inv : TcpClient → Type 0
Inv m =
    All (IsUpTo m.connection_generation) m.pending
    × Exclusive m
    × (m.connecting && m.connected_snapshot ≡ false)
    × (m.closing ≡ false)

-- The generation is a 64-bit counter.
abbrev pub Fresh : TcpClient → Type 0
Fresh m = m.connection_generation + 1 < 2 ^ 64

pub next_generation_lem :
    (m : TcpClient) → Fresh m → next_generation m ≡ m.connection_generation + 1
next_generation_lem m h = omega arith

-- A new generation has nothing in hand.
Counts-older :
    (n : ℕ) (os : List Operation) → All (IsUpTo n) os → Counts (n + 1) os false false false
Counts-older n os h = (
  count-older is_connect is_connect-older n os h,
  count-older is_write is_write-older n os h,
  omega (arith, count-older is_read is_read-older n os h),
)

pub end_session-Inv : (m : TcpClient) → Fresh m → Inv m → Inv (end_session m)
end_session-Inv m f (up, ex, c, z) =
    rw (next_generation_lem m f)
      (IsUpTo-All-suc _ m.pending up, Counts-older _ m.pending up, refl, refl)

-- The session that a connect begins, before anything is in hand.
pub begun-Inv : (m : TcpClient) → Fresh m → Inv m → Inv (connect_started (next_generation m) m)
begun-Inv m f (up, ex, c, z) =
    subst (λ g. Inv (connect_started g m)) (sym (next_generation_lem m f))
      (rw (==_refl (m.connection_generation + 1)) (
        (omega arith, IsUpTo-All-suc _ m.pending up),
        (
          ap (λ k. k + 1) (Counts-older _ m.pending up).0,
          (Counts-older _ m.pending up).1,
          (Counts-older _ m.pending up).2,
        ),
        refl,
        refl,
      ))

pub connect_on_io_thread-Inv : (m : TcpClient) → Fresh m → Inv m → Inv (connect_on_io_thread m)
unfolding connect_on_io_thread
connect_on_io_thread-Inv m f v =
    if-both Inv (m.connected_snapshot || m.connecting) v (begun-Inv m f v)

write_begun-Inv :
    (x : List ℕ) (m : TcpClient)
    → m.write_in_progress ≡ false
    → Inv m
    → Inv (
        begin_operation
          (writing_op m.connection_generation x)
          (record m { write_in_progress = true; written = m.written ++ x ∷ [] }))
write_begun-Inv x m e (up, (n, w, r), c, z) =
    rw (==_refl m.connection_generation)
      ((omega arith, up), (n, ap (λ k. k + 1) (w ∙ ap bit e), r), c, z)

pub write_front-Inv :
    (q : List (List ℕ)) (m : TcpClient) → Inv m → Inv (write_front m.connection_generation q m)
unfolding write_front
write_front-Inv [] m v = v
write_front-Inv (x ∷ q) m v = elim (Bool-cases m.write_in_progress) [
  | inl e ↦
      if-by Inv
        (not (m.connection_generation == m.connection_generation)
          || m.closing
          || m.write_in_progress
          || not m.connected_snapshot
          || not m.socket_is_open)
        (λ h. v) (λ h. absurd (ground arith))
  | inr e ↦
      if-both Inv
        (not (m.connection_generation == m.connection_generation)
          || m.closing
          || m.write_in_progress
          || not m.connected_snapshot
          || not m.socket_is_open)
        v (write_begun-Inv x m e v)
]

pub enqueue_send_on_io_thread-Inv :
    (x : List ℕ) (m : TcpClient) → Inv m → Inv (enqueue_send_on_io_thread x m)
unfolding enqueue_send_on_io_thread start_next_write_on_io_thread
enqueue_send_on_io_thread-Inv x m v =
    if-both Inv (not m.connected_snapshot || m.closing || not m.socket_is_open)
      {yes_value = call (send_handler false) m} v
      (if-both Inv (not m.write_in_progress)
        (write_front-Inv (m.write_queue ++ x ∷ [])
          (record m { write_queue = m.write_queue ++ x ∷ [] }) v)
        v)

-- A read is started where none is in hand.
pub start_async_receive-Inv :
    (m : TcpClient)
    → Inv m
    → count (is_read m.connection_generation) m.pending ≡ 0
    → Inv (start_async_receive_on_io_thread m.connection_generation m)
unfolding start_async_receive_on_io_thread
start_async_receive-Inv m (up, (n, w, r), c, z) none_pending =
    if-by Inv
      (not (m.connection_generation == m.connection_generation)
        || m.closing
        || not m.connected_snapshot
        || not m.socket_is_open)
      (λ h. (up, (n, w, r), c, z))
      (λ h.
        rw (==_refl m.connection_generation)
          ((omega arith, up), (n, w, one_read m.connected_snapshot (ground arith)), c, z))
  where
    one_read :
        (connected : Bool)
        → connected ≡ true
        → count (is_read m.connection_generation) m.pending + 1 ≤ bit connected
    one_read false h = absurd (ground arith)
    one_read true h = omega (arith, none_pending)

pub handle_transport_failure-Inv :
    (notify : Bool) (m : TcpClient)
    → Fresh m
    → Inv m
    → Inv (handle_transport_failure_on_io_thread notify m)
unfolding handle_transport_failure_on_io_thread
handle_transport_failure-Inv false m f v = end_session-Inv m f v
handle_transport_failure-Inv true m f v = end_session-Inv m f v

pub close_on_io_thread-Inv :
    (well : Bool) (m : TcpClient) → Fresh m → Inv m → Inv (close_on_io_thread well m)
unfolding close_on_io_thread
close_on_io_thread-Inv well m f v =
    if-both Inv (m.socket_is_open || m.connecting || m.connected_snapshot)
      {yes_value = call (close_handler (not m.socket_is_open || well)) (end_session m)}
      (end_session-Inv m f v) (end_session-Inv m f v)
