-- ===== src/Tcp.antt =====
-- AppTcpClient of tcp_client.cpp: one socket, its connections one after another, and its write queue.
-- The operations that asio has in hand are the list `pending`; each carries the generation of the
-- connection that it was started for. A socket is open from its async_connect until it is closed. The
-- handlers of the parent are taken to be set; `calls` lists their calls.
pub mod Pending
pub mod Session
pub mod Completions
pub mod Runs
pub mod Delivery
use linux_pbs.Base.{
  ℕ, zero, suc, ◌+◌, ◌%◌, ◌^◌, Bool, true, false, not, ◌&&◌, ◌||◌, Option, none, some, List, [],
  ◌∷◌, ◌++◌, ◌==◌, if◌then◌else◌,
}

pub data Operation : Type 0 where
  connecting_op reading_op : ℕ → Operation
  writing_op : ℕ → List ℕ → Operation

-- What an operation ends with: the bytes that were read, or an error, operation_aborted or another.
pub data Completion : Type 0 where
  success : List ℕ → Completion
  error : Bool → Completion

pub data Call : Type 0 where
  connect_handler send_handler close_handler : Bool → Call
  receive_handler : Bool → List ℕ → Call

-- What the public functions post.
pub data Request : Type 0 where
  connect close : Request
  send : List ℕ → Request

pub record TcpClient : Type 0 where
  pub socket_is_open : Bool
  pub write_queue : List (List ℕ)
  pub connecting : Bool
  pub closing : Bool
  pub write_in_progress : Bool
  pub connection_generation : ℕ
  pub connected_snapshot : Bool
  pub posted : List Request
  pub pending : List Operation
  pub calls : List Call
  -- The messages given to async_write.
  pub written : List (List ℕ)

abbrev pub new_client : TcpClient
new_client = record {
  socket_is_open = false;
  write_queue = [];
  connecting = false;
  closing = false;
  write_in_progress = false;
  connection_generation = 0;
  connected_snapshot = false;
  posted = [];
  pending = [];
  calls = [];
  written = [];
}

abbrev pub next_generation : TcpClient → ℕ
next_generation m = (m.connection_generation + 1) % 2 ^ 64

abbrev pub call : Call → TcpClient → TcpClient
call c m = record m { calls = m.calls ++ c ∷ [] }

abbrev pub begin_operation : Operation → TcpClient → TcpClient
begin_operation o m = record m { pending = o ∷ m.pending }

-- A session that begins: a clean socket, and its async_connect.
abbrev pub connect_started : ℕ → TcpClient → TcpClient
connect_started generation m = begin_operation (connecting_op generation) (record m {
  socket_is_open = true;
  write_queue = [];
  connecting = true;
  closing = false;
  write_in_progress = false;
  connection_generation = generation;
  connected_snapshot = false;
})

-- AppTcpClient::connectOnIoThread.
unfoldable pub connect_on_io_thread : TcpClient → TcpClient
connect_on_io_thread m =
    if m.connected_snapshot || m.connecting then m else connect_started (next_generation m) m

-- The front of the queue is written where nothing forbids it.
unfoldable pub write_front : ℕ → List (List ℕ) → TcpClient → TcpClient
write_front generation [] m = m
write_front generation (message ∷ rest) m =
    if not (generation == m.connection_generation)
      || m.closing
      || m.write_in_progress
      || not m.connected_snapshot
      || not m.socket_is_open
    then m
    else begin_operation (writing_op generation message)
        (record m { write_in_progress = true; written = m.written ++ message ∷ [] })

-- AppTcpClient::startNextWriteOnIoThread.
unfoldable pub start_next_write_on_io_thread : ℕ → TcpClient → TcpClient
unfolding write_front
start_next_write_on_io_thread generation m = write_front generation m.write_queue m

-- AppTcpClient::enqueueSendOnIoThread.
unfoldable pub enqueue_send_on_io_thread : List ℕ → TcpClient → TcpClient
unfolding start_next_write_on_io_thread
enqueue_send_on_io_thread message m =
    if not m.connected_snapshot || m.closing || not m.socket_is_open
    then call (send_handler false) m
    else let queued = record m { write_queue = m.write_queue ++ message ∷ [] } in
      if not m.write_in_progress
      then start_next_write_on_io_thread m.connection_generation queued
      else queued

-- AppTcpClient::startAsyncReceiveOnIoThread.
unfoldable pub start_async_receive_on_io_thread : ℕ → TcpClient → TcpClient
start_async_receive_on_io_thread generation m =
    if not (generation == m.connection_generation)
      || m.closing
      || not m.connected_snapshot
      || not m.socket_is_open
    then m
    else begin_operation (reading_op generation) m

-- A session that is given up: the completions of its operations are of an older generation.
abbrev pub end_session : TcpClient → TcpClient
end_session m = record m {
  socket_is_open = false;
  write_queue = [];
  connecting = false;
  closing = false;
  write_in_progress = false;
  connection_generation = next_generation m;
  connected_snapshot = false;
}

-- AppTcpClient::closeOnIoThread with a handler to notify, where the socket's close gives `closes_well`;
-- the close of a socket that is not open is not called, and leaves no error.
unfoldable pub close_on_io_thread : Bool → TcpClient → TcpClient
close_on_io_thread closes_well m =
    if m.socket_is_open || m.connecting || m.connected_snapshot
    then call (close_handler (not m.socket_is_open || closes_well)) (end_session m)
    else end_session m

-- AppTcpClient::handleTransportFailureOnIoThread.
unfoldable pub handle_transport_failure_on_io_thread : Bool → TcpClient → TcpClient
handle_transport_failure_on_io_thread notify m =
    call (close_handler false)
      (if notify then call (receive_handler false []) (end_session m) else end_session m)

-- The completion of the async_connect of the current generation.
unfoldable pub connect_end : ℕ → Completion → TcpClient → TcpClient
unfolding start_async_receive_on_io_thread
connect_end generation (success _) m =
    start_async_receive_on_io_thread generation
      (call (connect_handler true) (record m { connecting = false; connected_snapshot = true }))
connect_end generation (error aborted) m =
    let failed = record m {
      connecting = false;
      connected_snapshot = false;
      socket_is_open = false;
    } in
    if aborted && m.closing then failed else call (connect_handler false) failed

abbrev pub pop_front : List (List ℕ) → List (List ℕ)
pop_front [] = []
pop_front (message ∷ rest) = rest

-- The completion of the async_write of the current generation.
unfoldable pub write_end : ℕ → Completion → TcpClient → TcpClient
unfolding start_next_write_on_io_thread handle_transport_failure_on_io_thread
write_end generation (success _) m = start_next_write_on_io_thread generation (
    call (send_handler true)
      (record m { write_in_progress = false; write_queue = pop_front m.write_queue }))
write_end generation (error aborted) m =
    let ended = record m { write_in_progress = false } in
    if aborted && m.closing
    then ended
    else handle_transport_failure_on_io_thread false (call (send_handler false) ended)

abbrev pub receive : List ℕ → TcpClient → TcpClient
receive [] m = m
receive (b ∷ bs) m = call (receive_handler true (b ∷ bs)) m

-- The completion of the async_read_some of the current generation.
unfoldable pub read_end : ℕ → Completion → TcpClient → TcpClient
unfolding start_async_receive_on_io_thread handle_transport_failure_on_io_thread
read_end generation (success bytes) m =
    start_async_receive_on_io_thread generation (receive bytes m)
read_end generation (error true) m = m
read_end generation (error false) m = handle_transport_failure_on_io_thread true m

-- A completion, which an older generation's is no more than.
unfoldable pub complete : Operation → Completion → TcpClient → TcpClient
unfolding connect_end write_end read_end
complete (connecting_op g) r m = if g == m.connection_generation then connect_end g r m else m
complete (writing_op g message) r m = if g == m.connection_generation then write_end g r m else m
complete (reading_op g) r m = if g == m.connection_generation then read_end g r m else m

unfoldable pub run_request : Request → Bool → TcpClient → TcpClient
unfolding connect_on_io_thread enqueue_send_on_io_thread close_on_io_thread
run_request connect closes_well m = connect_on_io_thread m
run_request (send message) closes_well m = enqueue_send_on_io_thread message m
run_request close closes_well m = close_on_io_thread closes_well m

abbrev pub pick : ℕ → List Operation → Option Operation
pick n [] = none
pick zero (o ∷ os) = some o
pick (suc n) (o ∷ os) = pick n os

abbrev pub removed : ℕ → List Operation → List Operation
removed n [] = []
removed zero (o ∷ os) = os
removed (suc n) (o ∷ os) = o ∷ removed n os

abbrev pub run_first : List Request → Bool → TcpClient → TcpClient
unfolding run_request
run_first [] closes_well m = m
run_first (r ∷ rs) closes_well m = run_request r closes_well (record m { posted = rs })

abbrev pub complete_picked : Option Operation → ℕ → Completion → TcpClient → TcpClient
unfolding complete
complete_picked none n r m = m
complete_picked (some o) n r m = complete o r (record m { pending = removed n m.pending })

-- A call of a public function, the first posted handler's turn, or the end of a pending operation.
pub data Step : Type 0 where
  calls_for : Request → Step
  run_next : Bool → Step
  ends : ℕ → Completion → Step

unfoldable pub step : Step → TcpClient → TcpClient
unfolding run_request complete
step (calls_for r) m = record m { posted = m.posted ++ r ∷ [] }
step (run_next closes_well) m = run_first m.posted closes_well m
step (ends n r) m = complete_picked (pick n m.pending) n r m
