-- ===== src/Comm/Receive.antt =====
-- `receive_from_peer` of src/message.c and the handlers of src/connection_handlers.c.
use simle_http_server.Prelude.{
  ℕ, ◌-◌, ◌≤◌, ◌≡◌, refl, arith, Outcome, ok, length, drop, take, ap, ◌≢◌, ◌==◌, if◌then◌else◌,
  List, [], ◌∷◌, ◌++◌, min, length-take,
}
use simle_http_server.Cbuf.{
  buf_available, buf_read, buf_write, exit_success, exit_failure, buf_data_maxsize,
}
use simle_http_server.Cbuf.Valid.{IsValid, available_lem}
use simle_http_server.Cbuf.Contents.{contents, length-contents}
use simle_http_server.Cbuf.Bulk.{buf_read_lem, buf_write_lem}
use simle_http_server.Peer.{
  Peer, write_to_receiving_buffer, read_from_receiving_buffer, write_to_sending_buffer,
}
use simle_http_server.Comm.{Received, received, receive_from_peer, echo_received_message, size_min}

-- What `recv` promises: it returns no more bytes than were asked for.
abbrev pub IsBounded : (ℕ → Received) → Type 0
IsBounded recv = (n : ℕ) (bs : List ℕ) → recv n ≡ received bs → length bs ≤ n

-- When bytes come, they are appended to the receiving buffer, which stays valid, whatever
-- handler is given. The result is success, except for a single byte: then `buf_write` returns 1,
-- which is the value of EXIT_FAILURE.
pub receive_from_peer_appends :
    (p : Peer) (handler : Peer → Outcome (ℕ × Peer)) (recv : ℕ → Received) (bs : List ℕ)
    → IsValid p.receiving_buffer
    → IsBounded recv
    → recv (buf_available p.receiving_buffer) ≡ received bs
    → bs ≢ []
    → let after = (buf_write p.receiving_buffer bs).1 in
      (receive_from_peer p handler recv
        ≡ ok (
          (if length bs == 1 then exit_failure else exit_success),
          record p { receiving_buffer = after },
        ))
      × (contents after ≡ contents p.receiving_buffer ++ bs)
      × IsValid after
unfolding receive_from_peer write_to_receiving_buffer
receive_from_peer_appends p handler recv [] v bounded e ne = absurd (ne refl)
receive_from_peer_appends p handler recv (b ∷ bs) v bounded e ne =
    let fits = bounded (buf_available p.receiving_buffer) (b ∷ bs) e in
    let (ret, held, v') = buf_write_lem (b ∷ bs) v in
    (ground (arith, available_lem v), ground (arith, available_lem v), v')

-- With a full receiving buffer `recv` is asked for 0 bytes and returns 0, which counts as a
-- shutdown by the peer: the result is failure, although the peer is still there.
pub receive_from_peer_full :
    (p : Peer) (handler : Peer → Outcome (ℕ × Peer)) (recv : ℕ → Received)
    → IsValid p.receiving_buffer
    → p.receiving_buffer.num_byte ≡ buf_data_maxsize
    → recv 0 ≡ received []
    → receive_from_peer p handler recv ≡ ok (exit_failure, p)
unfolding receive_from_peer
receive_from_peer_full p handler recv v full e =
    let none_left : buf_available p.receiving_buffer ≡ 0 = omega (arith, available_lem v) in
    ground (arith, ap recv none_left)

-- The echo handler moves as many bytes as the sending buffer has room for, the oldest first, and
-- leaves the others. No assertion fails.
pub echo_received_message_moves :
    (p : Peer)
    → IsValid p.receiving_buffer
    → IsValid p.sending_buffer
    → let k = min p.receiving_buffer.num_byte (buf_data_maxsize - p.sending_buffer.num_byte) in
      (p' : Peer) × (echo_received_message p ≡ ok (exit_success, p'))
      × (contents p'.sending_buffer
          ≡ contents p.sending_buffer ++ take k (contents p.receiving_buffer))
      × (contents p'.receiving_buffer ≡ drop k (contents p.receiving_buffer))
      × IsValid p'.sending_buffer
      × IsValid p'.receiving_buffer
unfolding echo_received_message read_from_receiving_buffer write_to_sending_buffer
echo_received_message_moves p vr vs =
    let (got, taken, left, vr') = buf_read_lem k vr in
    let (put, held, vs') = buf_write_lem msg vs in
    let n = length-take k (contents p.receiving_buffer) in
    (
      record p {
        sending_buffer = (buf_write p.sending_buffer msg).1;
        receiving_buffer = (buf_read p.receiving_buffer k).2;
      },
      ground (arith, available_lem vs, length-contents p.receiving_buffer),
      ground (arith, available_lem vs, length-contents p.receiving_buffer),
      ground (arith, available_lem vs),
      vs',
      vr',
    )
  where
    k : ℕ
    k = size_min p.receiving_buffer.num_byte (buf_available p.sending_buffer)

    msg : List ℕ
    msg = (buf_read p.receiving_buffer k).1
