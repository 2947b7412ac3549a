-- ===== src/Comm/Relay.antt =====
-- The way of a script's output to its client: `pipe_from_CGI_process_to_client` and `send_to_peer` of
-- src/message.c, called in any order.
use simle_http_server.Prelude.{
  ℕ, ◌≤◌, ◌≡◌, ◌≢◌, refl, sym, ap, ◌∙◌, List, [], ◌∷◌, ◌++◌, append_assoc, append-nil,
  take-append-drop, arith, take, Outcome, ok, ◌>>=◌, if◌then◌else◌, inl, inr, Bool-cases,
}
use simle_http_server.Cbuf.{Cbuf, buf_full, buf_available, exit_success, buf_data_maxsize}
use simle_http_server.Cbuf.Valid.{IsValid, available_lem, full_lem}
use simle_http_server.Cbuf.Contents.{contents}
use simle_http_server.Cbuf.Bulk.{get_many, read_loop-Took}
use simle_http_server.Peer.{Peer}
use simle_http_server.Task.{live, HttpTask}
use simle_http_server.Comm.{
  Received, received, not_ready, recv_failed, Sent, send_failed, send_to_peer,
  pipe_from_cgi_process_to_client, put_all,
}
use simle_http_server.Comm.Receive.{IsBounded}
use simle_http_server.Comm.Send.{taken}
use simle_http_server.Comm.Pipe.{pipe_from_cgi_appends}
use simle_http_server.Comm.Delivery.{send_to_peer-Delivers}

-- A call: what `read` gives for the space that it is offered, or what `send` takes of the bytes that it is
-- handed.
pub data Call : Type 0 where
  piping : (ℕ → Received) → Call
  sending : (ℕ → Sent) → Call

abbrev pub bytes_of : Received → List ℕ
bytes_of (received bs) = bs
bytes_of not_ready = []
bytes_of recv_failed = []

-- What is read from the script by a call: nothing if there is no room.
abbrev pub read_now : Peer → (ℕ → Received) → List ℕ
read_now p read =
    if buf_full p.sending_buffer then [] else bytes_of (read (buf_available p.sending_buffer))

-- The bytes that were read from the script, those that the socket took, and the peer.
unfoldable pub relay : Peer → List Call → Outcome (List ℕ × List ℕ × Peer)
relay p [] = ok ([], [], p)
relay p (piping read ∷ calls) = do
  (ret, p1) ← pipe_from_cgi_process_to_client p read
  (later_read, later_sent, p2) ← relay p1 calls
  ok (read_now p read ++ later_read, later_sent, p2)
relay p (sending send ∷ calls) = do
  let o = send p.sending_buffer.num_byte
  (ret, handed, p1) ← send_to_peer p o
  (later_read, later_sent, p2) ← relay p1 calls
  ok (later_read, take (taken o) handed ++ later_sent, p2)

-- `read` gives some bytes, no more than there is room for, and `send` takes no more than it is handed and
-- does not fail.
abbrev pub GoesWell : Call → Type 0
GoesWell (piping read) =
    IsBounded read × ((n : ℕ) → (bs : List ℕ) × (read n ≡ received bs) × (n ≢ 0 → bs ≢ []))
GoesWell (sending send) = (n : ℕ) → (send n ≢ send_failed) × (taken (send n) ≤ n)

abbrev pub AllGoWell : List Call → Type 0
AllGoWell [] = Unit
AllGoWell (c ∷ calls) = GoesWell c × AllGoWell calls

-- What a call of `pipe_from_CGI_process_to_client` does, with or without room.
record Pipes (p : Peer) (read : ℕ → Received) : Type 0 where
  ret : ℕ
  after : Cbuf
  returns : pipe_from_cgi_process_to_client p read ≡ ok (ret, record p { sending_buffer = after })
  valid : IsValid after
  held : contents after ≡ contents p.sending_buffer ++ read_now p read

piping-Pipes :
    (p : Peer) (read : ℕ → Received)
    → IsValid p.sending_buffer
    → GoesWell (piping read)
    → Pipes p read
unfolding pipe_from_cgi_process_to_client
piping-Pipes p read v (bounded, gives) = elim (Bool-cases (buf_full p.sending_buffer)) [
  | inl full ↦ record {
    ret = exit_success;
    after = p.sending_buffer;
    returns = rw full refl;
    valid = v;
    held = rw full (sym (append-nil (contents p.sending_buffer)));
  }
  | inr roomy ↦
      let room = buf_available p.sending_buffer in
      let (bs, e, ne) = gives room in
      let space : p.sending_buffer.num_byte ≢ buf_data_maxsize =
        ground (arith, full_lem v, roomy) in
      let (returns, held, valid) =
        pipe_from_cgi_appends p read bs v space bounded e
          (ne (ground (arith, available_lem v, v.num_in))) in
      record {
        ret = exit_success;
        after = put_all p.sending_buffer bs;
        returns = returns;
        valid = valid;
        held = rw (roomy, e) held;
      }
]

-- If all calls go well, in whatever order they come: what the socket took in all, followed by what is left
-- in the sending buffer, is what the buffer held at first, followed by all that was read from the script. No
-- byte is lost, sent twice or put before another.
pub relay_lem :
    (p : Peer) (task : HttpTask) (calls : List Call)
    → IsValid p.sending_buffer
    → p.http_task ≡ live task
    → AllGoWell calls
    → (read : List ℕ) × (sent_bytes : List ℕ) × (p' : Peer) × (relay p calls
        ≡ ok (read, sent_bytes, p'))
      × (sent_bytes ++ contents p'.sending_buffer ≡ contents p.sending_buffer ++ read)
      × IsValid p'.sending_buffer
unfolding relay
relay_lem p task [] v live_task h =
    ([], [], p, refl, sym (append-nil (contents p.sending_buffer)), v)
relay_lem p task (piping read ∷ calls) v live_task (well, h) =
    let one = piping-Pipes p read v well in
    let p1 = record p { sending_buffer = one.after } in
    let (later_read, later_sent, p2, returns, all, valid) =
      relay_lem p1 task calls one.valid live_task h in
    (
      read_now p read ++ later_read,
      later_sent,
      p2,
      rw one.returns (rw returns refl),
      all
          ∙ ap (λ l. l ++ later_read) one.held
          ∙ append_assoc (contents p.sending_buffer) (read_now p read) later_read,
      valid,
    )
relay_lem p task (sending send ∷ calls) v live_task (well, h) =
    let n = p.sending_buffer.num_byte in
    let k = taken (send n) in
    let (nf, fits) = well n in
    let took = read_loop-Took k v fits in
    let one = send_to_peer-Delivers p task (send n) v live_task nf fits in
    let p1 = record p { sending_buffer = get_many k p.sending_buffer } in
    let (later_read, later_sent, p2, returns, all, valid) =
      relay_lem p1 task calls took.valid live_task h in
    let whole : take k one.handed ++ contents p1.sending_buffer ≡ contents p.sending_buffer =
      rw (took.left, one.went) (take-append-drop k (contents p.sending_buffer)) in
    (
      later_read,
      take k one.handed ++ later_sent,
      p2,
      rw one.returns (rw returns refl),
      append_assoc (take k one.handed) later_sent (contents p2.sending_buffer)
          ∙ ap (λ l. take k one.handed ++ l) all
          ∙ sym (append_assoc (take k one.handed) (contents p1.sending_buffer) later_read)
          ∙ ap (λ l. l ++ later_read) whole,
      valid,
    )
