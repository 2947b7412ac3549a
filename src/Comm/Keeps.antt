-- ===== src/Comm/Keeps.antt =====
-- On termination and the invariant of a peer, for the transfers of src/message.c.
use simle_http_server.Prelude.{
  ℕ, zero, suc, ◌-◌, ◌≡◌, refl, List, [], ◌∷◌, pos, arith, Outcome, ok, crash, out_of_fuel, ◌==◌,
  int_eq, ◌≢◌, ◌⊎◌, inl, inr, Safe, Ran, ran, Safe-bind, Safe-if, Safe-of, Safe-option,
  assertion-Safe,
}
use simle_http_server.Cbuf.{
  Cbuf, buf_empty, buf_full, buf_available, buf_read, buf_write, buf_put, buf_putback, exit_success,
  exit_failure,
}
use simle_http_server.Cbuf.Valid.{IsValid, buf_put-IsValid, buf_putback-IsValid}
use simle_http_server.Cbuf.Bulk.{buf_read_lem, buf_write_lem}
use simle_http_server.Task.{Ptr, null, live, deref, HttpTask, finished_state}
use simle_http_server.Peer.{
  Peer, CgiExecutor, free_cgi_executor, read_from_sending_buffer, write_to_receiving_buffer,
}
use simle_http_server.Comm.{
  Received, received, not_ready, recv_failed, Sent, sent, send_blocked, send_failed, size_of_int,
  putback_loop, after_send, send_bytes, send_to_peer, take_received, receive_from_peer, write_bytes,
  send_cgi_buffer, send_to_cgi_process, put_all, take_piped, pipe_from_cgi_process_to_client,
}

putback_loop-Safe : (n : ℕ) (c : Cbuf) → IsValid c → Safe IsValid (putback_loop n c)
unfolding putback_loop
putback_loop-Safe zero c v = Safe.done c v
putback_loop-Safe (suc n) c v =
    Safe-if {b = (buf_putback c).0 == exit_failure} (λ _. assertion-Safe)
      (λ _. putback_loop-Safe n (buf_putback c).1 (buf_putback-IsValid v))

-- The peer with another valid sending buffer.
abbrev pub OtherSending : Peer → Peer → Type 0
OtherSending p p' = (c : Cbuf) × (p' ≡ record p { sending_buffer = c }) × IsValid c

abbrev pub OtherReceiving : Peer → Peer → Type 0
OtherReceiving p p' = (c : Cbuf) × (p' ≡ record p { receiving_buffer = c }) × IsValid c

after_send-Safe :
    (p : Peer) (count n : ℕ)
    → IsValid p.sending_buffer
    → Safe (λ (ret, p'). OtherSending p p') (after_send p count n)
unfolding after_send
after_send-Safe p count n v =
    Safe-bind IsValid {m = putback_loop (count - n) p.sending_buffer} (putback_loop-Safe _ _ v)
      (λ c v'. Safe.done _ (c, refl, v'))

send_bytes-Safe :
    (p : Peer) (count : ℕ) (outcome : Sent)
    → IsValid p.sending_buffer
    → Safe (λ (ret, p'). OtherSending p p') (send_bytes p count outcome)
unfolding send_bytes
send_bytes-Safe p count send_failed v = Safe.done _ (p.sending_buffer, refl, v)
send_bytes-Safe p count send_blocked v = after_send-Safe p count 0 v
send_bytes-Safe p count (sent n) v = after_send-Safe p count n v

pub send_to_peer-Safe :
    (p : Peer) (outcome : Sent)
    → IsValid p.sending_buffer
    → Safe (λ (ret, out, p'). OtherSending p p') (send_to_peer p outcome)
unfolding send_to_peer read_from_sending_buffer
send_to_peer-Safe p outcome v =
    Safe-if {b = buf_empty p.sending_buffer}
      (λ _.
        Safe-if {b = p.close_conn}
          (λ _.
            Safe-bind _ {m = deref p.http_task}
              (Safe-of (deref p.http_task) (ground arith) (λ _ _. tt))
              (λ task _. Safe.done _ (p.sending_buffer, refl, v)))
          (λ _. Safe.done _ (p.sending_buffer, refl, v)))
      (λ _.
        let (ret, out, c') = buf_read p.sending_buffer p.sending_buffer.num_byte in
        let p' = record p { sending_buffer = c' } in
        let (e0, e1, e2, v') = buf_read_lem p.sending_buffer.num_byte v in
        Safe-bind (λ (ret, p''). OtherSending p' p'') {m = send_bytes p' (size_of_int ret) outcome}
          (send_bytes-Safe p' (size_of_int ret) outcome v')
          (λ r (c, e, v''). Safe.done _ (c, e, v'')))

take_received-Safe :
    (p : Peer) (handler : Peer → Outcome (ℕ × Peer)) (bs : List ℕ)
    → IsValid p.receiving_buffer
    → Safe (λ (ret, p'). OtherReceiving p p') (take_received p handler bs)
unfolding take_received write_to_receiving_buffer
take_received-Safe p handler [] v = Safe.done _ (p.receiving_buffer, refl, v)
take_received-Safe p handler (b ∷ bs) v =
    let (e0, e1, v') = buf_write_lem (b ∷ bs) v in
    Safe-if {b = int_eq (buf_write p.receiving_buffer (b ∷ bs)).0 (pos exit_failure)}
      (λ _. Safe.done _ (_, refl, v')) (λ _. Safe.done _ (_, refl, v'))

pub receive_from_peer-Safe :
    (p : Peer) (handler : Peer → Outcome (ℕ × Peer)) (recv : ℕ → Received)
    → IsValid p.receiving_buffer
    → Safe (λ (ret, p'). OtherReceiving p p') (receive_from_peer p handler recv)
unfolding receive_from_peer
receive_from_peer-Safe p handler recv v = of_received (recv (buf_available p.receiving_buffer))
  where
    of_received :
        (r : Received)
        → Safe
            (λ (ret, p'). OtherReceiving p p')
            (elim r [
              | received bs ↦ take_received p handler bs
              | not_ready ↦ ok (exit_success, p)
              | recv_failed ↦ ok (exit_failure, p)
            ])
    of_received (received bs) = take_received-Safe p handler bs v
    of_received not_ready = Safe.done _ (p.receiving_buffer, refl, v)
    of_received recv_failed = Safe.done _ (p.receiving_buffer, refl, v)

-- The peer with another executor.
abbrev pub OtherExecutor : Peer → Peer → Type 0
OtherExecutor p p' = (e : Ptr CgiExecutor) × (p' ≡ record p { cgi_executor = e })

putback_loop-Ran : (n : ℕ) (c : Cbuf) → Ran (putback_loop n c)
unfolding putback_loop
putback_loop-Ran zero c = ran c
putback_loop-Ran (suc n) c =
    Safe-if {b = (buf_putback c).0 == exit_failure} (λ _. assertion-Safe)
      (λ _. putback_loop-Ran n (buf_putback c).1)

write_bytes-Ran :
    (e : CgiExecutor) (count : ℕ) (c : Cbuf) (outcome : Sent) → Ran (write_bytes e count c outcome)
unfolding write_bytes
write_bytes-Ran e count c send_failed = ran _
write_bytes-Ran e count c send_blocked = ran _
write_bytes-Ran e count c (sent n) =
    Safe-bind _ {m = putback_loop (count - n) c} (putback_loop-Ran (count - n) c) (λ _ _. ran _)

send_cgi_buffer-Ran : (e : CgiExecutor) (outcome : Sent) → Ran (send_cgi_buffer e outcome)
unfolding send_cgi_buffer
send_cgi_buffer-Ran e outcome = Safe-option e.cgi_buffer (ran _) (λ c.
    Safe-if {b = buf_empty c} (λ _. ran _)
      (λ _.
        Safe-bind _ {m = write_bytes e c.num_byte (buf_read c c.num_byte).2 outcome}
          (write_bytes-Ran e c.num_byte _ outcome) (λ _ _. ran _)))

free_cgi_executor-ends : (e : Ptr CgiExecutor) → free_cgi_executor e ≢ crash out_of_fuel
unfolding free_cgi_executor
free_cgi_executor-ends e = ground arith

-- The executor's buffer is not asked to be well formed: only the executor changes.
pub send_to_cgi_process-Safe :
    (p : Peer) (outcome : Sent)
    → Safe (λ (ret, out, p'). OtherExecutor p p') (send_to_cgi_process p outcome)
unfolding send_to_cgi_process
send_to_cgi_process-Safe p outcome =
    Safe-bind _ {m = deref p.cgi_executor}
      (Safe-of (deref p.cgi_executor) (ground arith) (λ _ _. tt))
      (λ e _.
        Safe-bind _ {m = send_cgi_buffer e outcome} (send_cgi_buffer-Ran e outcome)
          (λ r _. Safe.done _ (_, refl)))

put_all-IsValid : (c : Cbuf) (bs : List ℕ) → IsValid c → IsValid (put_all c bs)
unfolding put_all
put_all-IsValid c [] v = v
put_all-IsValid c (b ∷ bs) v = put_all-IsValid (buf_put c b).1 bs (buf_put-IsValid b v)

-- What piping leaves: other bytes to send, or, at the end of the script, a finished task.
abbrev pub Piped : Peer → Peer → Type 0
Piped p p' =
    OtherSending p p'
    ⊎ (t : HttpTask) × (p.http_task ≡ live t)
      × (p' ≡ record p {
        http_task = live (record t { state = finished_state });
        cgi_executor = null;
      })

take_piped-Safe :
    (p : Peer) (bs : List ℕ)
    → IsValid p.sending_buffer
    → Safe (λ (ret, p'). Piped p p') (take_piped p bs)
unfolding take_piped
take_piped-Safe p [] v =
    Safe-bind (λ t. p.http_task ≡ live t) {m = deref p.http_task}
      (Safe-of (deref p.http_task) (ground arith) (λ t e. ground arith))
      (λ t e.
        Safe-bind _ {m = free_cgi_executor p.cgi_executor}
          (Safe-of (free_cgi_executor p.cgi_executor) (free_cgi_executor-ends p.cgi_executor)
            (λ _ _. tt))
          (λ _ _. Safe.done _ (inr (t, e, refl))))
take_piped-Safe p (b ∷ bs) v =
    Safe.done _ (inl (_, refl, put_all-IsValid p.sending_buffer (b ∷ bs) v))

pub pipe_from_cgi_process_to_client-Safe :
    (p : Peer) (read : ℕ → Received)
    → IsValid p.sending_buffer
    → Safe (λ (ret, p'). Piped p p') (pipe_from_cgi_process_to_client p read)
unfolding pipe_from_cgi_process_to_client
pipe_from_cgi_process_to_client-Safe p read v =
    Safe-if {b = buf_full p.sending_buffer} (λ _. Safe.done _ same)
      (λ _. of_received (read (buf_available p.sending_buffer)))
  where
    same : Piped p p
    same = inl (p.sending_buffer, refl, v)

    of_received :
        (r : Received)
        → Safe
            (λ (ret, p'). Piped p p')
            (elim r [
              | received bs ↦ take_piped p bs
              | not_ready ↦ ok (exit_failure, p)
              | recv_failed ↦ ok (exit_failure, p)
            ])
    of_received (received bs) = take_piped-Safe p bs v
    of_received not_ready = Safe.done _ same
    of_received recv_failed = Safe.done _ same
