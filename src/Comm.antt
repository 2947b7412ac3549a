-- ===== src/Comm.antt =====
-- The transfers of src/message.c and src/connection_handlers.c between a peer's buffers and its
-- socket or its CGI process. What a system call does is an argument: the data types `Received`
-- and `Sent` list its outcomes.
pub mod Putback
pub mod Send
pub mod Delivery
pub mod Relay
pub mod Receive
pub mod Pipe
pub mod Keeps
use simle_http_server.Prelude.{
  ℕ, zero, suc, ◌-◌, List, [], ◌∷◌, Bool, true, false, not, ◌&&◌, Option, none, some, ℤ, pos,
  negsuc, Outcome, ok, crash, assert, ◌>>=◌, ◌>>◌, ◌==◌, ltb, if◌then◌else◌, int_eq,
  int_is_negative, int_of_size, length,
}
use simle_http_server.Cbuf.{
  Cbuf, buf_empty, buf_full, buf_available, buf_put, buf_putback, buf_read, exit_success,
  exit_failure,
}
use simle_http_server.Task.{Ptr, null, live, freed, deref, HttpTask, finished_state, processing_cgi}
use simle_http_server.Peer.{
  Peer, CgiExecutor, free_cgi_executor, read_from_sending_buffer, write_to_sending_buffer,
  read_from_receiving_buffer, write_to_receiving_buffer,
}

-- `recv` or `read`: the bytes that came (none at the end of the stream), EAGAIN or EWOULDBLOCK,
-- or another error.
pub data Received : Type 0 where
  received : List ℕ → Received
  not_ready : Received
  recv_failed : Received

-- `send` or `write`: how many of the bytes were taken, EAGAIN or EWOULDBLOCK, or another error.
pub data Sent : Type 0 where
  sent : ℕ → Sent
  send_blocked : Sent
  send_failed : Sent

abbrev pub nothing_to_send : ℕ
nothing_to_send = 2

-- `IS_HTTP_SERVER`
abbrev pub is_http_server : Bool
is_http_server = true

abbrev pub size_of_int : ℤ → ℕ
size_of_int (pos n) = n
size_of_int (negsuc n) = 0

-- `while (sent_bytes_cnt < buf_bytes_cnt) { assert(buf_putback(buf) != EXIT_FAILURE); … }` with the
-- rounds that are left.
unfoldable pub putback_loop : ℕ → Cbuf → Outcome Cbuf
putback_loop zero c = ok c
putback_loop (suc n) c =
    let (ret, c') = buf_putback c in
    let rest = putback_loop n c' in if ret == exit_failure then assert false >> ok c' else rest

-- The tail of `send_to_peer`, after `taken` of the `count` bytes were sent.
unfoldable pub after_send : Peer → ℕ → ℕ → Outcome (ℕ × Peer)
after_send p count taken = do
  c ← putback_loop (count - taken) p.sending_buffer
  ok (
    (if p.close_conn && buf_empty c then exit_failure else exit_success),
    record p { sending_buffer = c },
  )

-- The call of `send` and what follows it.
unfoldable pub send_bytes : Peer → ℕ → Sent → Outcome (ℕ × Peer)
unfolding after_send
send_bytes p count send_failed = ok (exit_failure, p)
send_bytes p count send_blocked = after_send p count 0
send_bytes p count (sent n) = after_send p count n

-- The value returned, the bytes handed to `send`, and the peer.
unfoldable pub send_to_peer : Peer → Sent → Outcome (ℕ × List ℕ × Peer)
unfolding send_bytes
send_to_peer p outcome =
    if buf_empty p.sending_buffer
    then if p.close_conn
      then (do
        task ← deref p.http_task
        ok ((if not (task.state == processing_cgi) then exit_failure else nothing_to_send), [], p))
      else ok (nothing_to_send, [], p)
    else let (cnt, bytes_out, p') = read_from_sending_buffer p p.sending_buffer.num_byte in
      (do (ret, p'') ← send_bytes p' (size_of_int cnt) outcome; ok (ret, bytes_out, p''))

-- What `receive_from_peer` does with the bytes that came.
unfoldable pub take_received : Peer → (Peer → Outcome (ℕ × Peer)) → List ℕ → Outcome (ℕ × Peer)
take_received p message_handler [] = ok (exit_failure, p)
take_received p message_handler (b ∷ bs) =
    let (ret, p') = write_to_receiving_buffer p (b ∷ bs) in
    if int_eq ret (pos exit_failure)
    then ok (exit_failure, p')
    else if not is_http_server
    then (do
      (handled, p'') ← message_handler p'
      ok ((if not (handled == exit_success) then exit_failure else exit_success), p''))
    else ok (exit_success, p')

-- `recv` is given the space that is left in the receiving buffer.
unfoldable pub receive_from_peer :
    Peer → (Peer → Outcome (ℕ × Peer)) → (ℕ → Received) → Outcome (ℕ × Peer)
unfolding take_received
receive_from_peer p message_handler recv = elim (recv (buf_available p.receiving_buffer)) [
  | received bs ↦ take_received p message_handler bs
  | not_ready ↦ ok (exit_success, p)
  | recv_failed ↦ ok (exit_failure, p)
]

-- The call of `write` in `send_to_CGI_process` and what follows it; `c` is the executor's buffer after
-- all its `count` bytes were read.
unfoldable pub write_bytes : CgiExecutor → ℕ → Cbuf → Sent → Outcome (ℕ × CgiExecutor)
write_bytes e count c send_failed = ok (exit_failure, record e { cgi_buffer = some c })
write_bytes e count c send_blocked = ok (exit_failure, record e { cgi_buffer = some c })
write_bytes e count c (sent n) = do
  c' ← putback_loop (count - n) c
  ok (exit_success, record e { cgi_buffer = some c' })

-- `send_to_CGI_process` on the executor: the value returned, the bytes handed to `write`, and the
-- executor.
unfoldable pub send_cgi_buffer : CgiExecutor → Sent → Outcome (ℕ × List ℕ × CgiExecutor)
unfolding write_bytes
send_cgi_buffer e outcome = elim e.cgi_buffer [
  | none ↦ ok (exit_success, [], e)
  | some c ↦
      if buf_empty c
      then ok (exit_success, [], e)
      else let (cnt, bytes_out, c') = buf_read c c.num_byte in
        (do (ret, e') ← write_bytes e c.num_byte c' outcome; ok (ret, bytes_out, e'))
]

unfoldable pub send_to_cgi_process : Peer → Sent → Outcome (ℕ × List ℕ × Peer)
unfolding send_cgi_buffer
send_to_cgi_process client outcome = do
  e ← deref client.cgi_executor
  (ret, bytes_out, e') ← send_cgi_buffer e outcome
  ok (ret, bytes_out, record client { cgi_executor = live e' })

-- `for (…) buf_put(sending_buf, data[i]);`
unfoldable pub put_all : Cbuf → List ℕ → Cbuf
put_all c [] = c
put_all c (b ∷ bs) = put_all (buf_put c b).1 bs

-- What `pipe_from_CGI_process_to_client` does with the bytes that were read.
unfoldable pub take_piped : Peer → List ℕ → Outcome (ℕ × Peer)
unfolding put_all
take_piped client [] = do
  task ← deref client.http_task
  executor ← free_cgi_executor client.cgi_executor
  ok (
    exit_success,
    record client {
      http_task = live (record task { state = finished_state });
      cgi_executor = null;
    },
  )
take_piped client (b ∷ bs) =
    ok (exit_success, record client { sending_buffer = put_all client.sending_buffer (b ∷ bs) })

-- `read` is given the space that is left in the sending buffer.
unfoldable pub pipe_from_cgi_process_to_client : Peer → (ℕ → Received) → Outcome (ℕ × Peer)
unfolding take_piped
pipe_from_cgi_process_to_client client read =
    if buf_full client.sending_buffer
    then ok (exit_success, client)
    else elim (read (buf_available client.sending_buffer)) [
      | received bs ↦ take_piped client bs
      | not_ready ↦ ok (exit_failure, client)
      | recv_failed ↦ ok (exit_failure, client)
    ]

-- `MIN(a, b)`
abbrev pub size_min : ℕ → ℕ → ℕ
size_min a b = if ltb a b then a else b

-- src/connection_handlers.c: the bytes printed are the result's second part.
unfoldable pub print_received_message : Peer → Outcome (ℕ × List ℕ × Peer)
print_received_message client =
    let n = client.receiving_buffer.num_byte in
    let (ret, msg, p) = read_from_receiving_buffer client n in
    assert (int_eq (int_of_size n) ret) >> ok (exit_success, msg, p)

unfoldable pub echo_received_message : Peer → Outcome (ℕ × Peer)
echo_received_message client =
    let n = size_min client.receiving_buffer.num_byte (buf_available client.sending_buffer) in
    let (ret, msg, p) = read_from_receiving_buffer client n in
    assert (int_eq (int_of_size n) ret)
    >> let (wrote, p') = write_to_sending_buffer p msg in
      ok ((if int_is_negative wrote then exit_failure else exit_success), p')
