-- ===== src/Comm/Send.antt =====
-- `send_to_peer` and `send_to_CGI_process` of src/message.c: no byte is lost or sent twice.
use simle_http_server.Prelude.{
  ℕ, ◌+◌, ◌-◌, ◌≤◌, ◌≡◌, refl, arith, ◌∙◌, ok, drop, ap, ◌≢◌, ◌==◌, ◌&&◌, if◌then◌else◌, take_all,
  pos, [], some, not,
}
use simle_http_server.Cbuf.{Cbuf, buf_read, exit_success, exit_failure}
use simle_http_server.Cbuf.Valid.{IsValid, empty_lem}
use simle_http_server.Cbuf.Contents.{contents, length-contents}
use simle_http_server.Cbuf.Bulk.{get_many, read_loop-Took}
use simle_http_server.Peer.{Peer, CgiExecutor, read_from_sending_buffer}
use simle_http_server.Task.{live, HttpTask, processing_cgi}
use simle_http_server.Comm.{
  Sent, sent, send_blocked, send_failed, send_to_peer, putback_loop, nothing_to_send,
  send_cgi_buffer,
}
use simle_http_server.Comm.Putback.{get_many-add, putback_loop-get_many}

-- Reading a whole buffer.
buf_read_whole :
    {c : Cbuf}
    → IsValid c
    → buf_read c c.num_byte ≡ (pos c.num_byte, contents c, get_many c.num_byte c)
unfolding buf_read
buf_read_whole {c} v =
    ground (arith, read_loop-Took c.num_byte v, take_all c.num_byte (contents c), length-contents c)

-- Taking all bytes and putting back all but the first `n` takes those `n`.
putback_unsent :
    {c : Cbuf} (n : ℕ)
    → IsValid c
    → n ≤ c.num_byte
    → putback_loop (c.num_byte - n) (get_many c.num_byte c) ≡ ok (get_many n c)
putback_unsent {c} n v h =
    let e : c.num_byte ≡ n + (c.num_byte - n) = omega arith in
    let took = read_loop-Took n v h in
    ap (λ k. putback_loop (c.num_byte - n) (get_many k c)) e
    ∙ ap (putback_loop (c.num_byte - n)) (get_many-add n (c.num_byte - n) c)
    ∙ putback_loop-get_many (c.num_byte - n) took.valid (omega arith)

-- The bytes that the outcome of a `send` says are taken.
abbrev pub taken : Sent → ℕ
taken (sent n) = n
taken send_blocked = 0
taken send_failed = 0

-- If `send` takes `n` of the bytes, or says to try again (`n` is 0), then it was handed all
-- bytes of the sending buffer, and just the bytes that it did not take are left there, in
-- order. The result asks to close the connection exactly if that was asked for and nothing is left.
pub send_to_peer_kept :
    (p : Peer) (outcome : Sent)
    → IsValid p.sending_buffer
    → p.sending_buffer.num_byte ≢ 0
    → outcome ≢ send_failed
    → taken outcome ≤ p.sending_buffer.num_byte
    → let left = get_many (taken outcome) p.sending_buffer in
      (send_to_peer p outcome
        ≡ ok (
          (if p.close_conn && (left.num_byte == 0) then exit_failure else exit_success),
          contents p.sending_buffer,
          record p { sending_buffer = left },
        ))
      × (contents left ≡ drop (taken outcome) (contents p.sending_buffer))
      × IsValid left
unfolding send_to_peer read_from_sending_buffer
send_to_peer_kept p (sent n) v ne nf h =
    let took = read_loop-Took n v h in
    (
      ground (arith, buf_read_whole v, putback_unsent n v h, empty_lem v, empty_lem took.valid),
      took.left,
      took.valid,
    )
send_to_peer_kept p send_blocked v ne nf h =
    let took = read_loop-Took 0 v h in
    (
      ground (arith, buf_read_whole v, putback_unsent 0 v h, empty_lem v, empty_lem took.valid),
      took.left,
      took.valid,
    )
send_to_peer_kept p send_failed v ne nf h = absurd (nf refl)

-- With an empty sending buffer nothing is handed to `send` and the peer stays as it is: the result
-- asks to close the connection exactly if that was asked for and no CGI process is at work.
pub send_to_peer_idle :
    (p : Peer) (task : HttpTask) (outcome : Sent)
    → IsValid p.sending_buffer
    → p.sending_buffer.num_byte ≡ 0
    → p.http_task ≡ live task
    → send_to_peer p outcome
      ≡ ok (
        (if p.close_conn && not (task.state == processing_cgi)
            then exit_failure
            else nothing_to_send),
        [],
        p,
      )
unfolding send_to_peer
send_to_peer_idle p task outcome v e live_task = ground (arith, empty_lem v)

-- If `send` fails, the result asks to close the connection.
pub send_to_peer_failed :
    (p : Peer)
    → IsValid p.sending_buffer
    → p.sending_buffer.num_byte ≢ 0
    → send_to_peer p send_failed
      ≡ ok (
        exit_failure,
        contents p.sending_buffer,
        record p { sending_buffer = get_many p.sending_buffer.num_byte p.sending_buffer },
      )
unfolding send_to_peer read_from_sending_buffer
send_to_peer_failed p v ne = ground (arith, buf_read_whole v, empty_lem v)

-- `send_to_CGI_process`: the process is handed all bytes of the CGI buffer, and just the bytes that
-- it did not take are left there, in order.
pub send_cgi_buffer_kept :
    (e : CgiExecutor) (c : Cbuf) (n : ℕ)
    → e.cgi_buffer ≡ some c
    → IsValid c
    → c.num_byte ≢ 0
    → n ≤ c.num_byte
    → (send_cgi_buffer e (sent n)
        ≡ ok (exit_success, contents c, record e { cgi_buffer = some (get_many n c) }))
      × (contents (get_many n c) ≡ drop n (contents c))
      × IsValid (get_many n c)
unfolding send_cgi_buffer
send_cgi_buffer_kept e c n eq v ne h =
    let took = read_loop-Took n v h in
    (ground (arith, buf_read_whole v, putback_unsent n v h, empty_lem v), took.left, took.valid)
