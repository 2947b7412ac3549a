-- ===== src/Http/Sending.antt =====
-- On termination and well-formedness, for the states of `handle_http` (src/http.c) that send the
-- header and the file.
use simle_http_server.Prelude.{
  ℕ, suc, ◌+◌, ◌-◌, ◌≡◌, refl, arith, ◌==◌, inl, inr, ◌≢◌, assert, Safe, Safe-bind, Safe-assert,
  Safe-if, Safe-eq, Safe-of, ==→eq, undefined-Safe, assertion-Safe, not,
}
use simle_http_server.Cbuf.{Cbuf, buf_data_maxsize, buf_available, buf_full}
use simle_http_server.Cbuf.Valid.{IsValid, available_lem}
use simle_http_server.Task.{
  Ptr, live, null, freed, deref, HttpTask, FileStream, recv_header_state, send_header_state,
  send_body_state, finished_state, get_method,
}
use simle_http_server.Peer.{Peer}
use simle_http_server.Response.{
  send_nonbody_reponse, stream_file_content, stream_loop, stream_file_done, stream_file_not_done,
  stream_file_error,
}
use simle_http_server.Response.Flush.{send_nonbody_reponse_lem}
use simle_http_server.Response.Stream.{stream_loop-Streamed, answer}
use simle_http_server.Http.{World}
use simle_http_server.Http.Steps.{send_header_step, send_body_step, state_after_header}
use simle_http_server.Http.Diagram.{◌⟶◌, ⟶-leaves, from_send_header, end_file}
use simle_http_server.Http.Invariant.{TaskOk, Goes}

state_after_header-Safe : (t : HttpTask) → Safe (λ s. send_header_state ⟶ s) (state_after_header t)
unfolding state_after_header
state_after_header-Safe t =
    Safe-of (state_after_header t) (ground arith) (λ s e. from_send_header s (ground arith))

-- A peer whose task and sending buffer changed, in a state other than that of the header's receiving.
sent_peer :
    (p : Peer) (t t' : HttpTask) (s : Cbuf)
    → TaskOk p t
    → IsValid s
    → IsValid t'.response_buf
    → t'.state ≢ recv_header_state
    → TaskOk (record p { http_task = live t'; sending_buffer = s }) t'
sent_peer p t t' s k vs vr n = record {
  task = refl;
  receiving = k.receiving;
  sending = vs;
  response = vr;
  header = λ e. absurd (n e);
}

-- The state that sends the header.
pub send_header_step-Goes :
    (w : World) (t : HttpTask)
    → TaskOk w.peer t
    → t.state ≡ send_header_state
    → Safe (Goes send_header_state) (send_header_step w t)
unfolding send_header_step
send_header_step-Goes w t k e =
    let (r, s, returns, sent, left, vr, vs) =
      send_nonbody_reponse_lem w.peer t k.task k.response k.sending in
    let t1 = record t { response_buf = r } in
    let p = record w.peer { http_task = live t1; sending_buffer = s } in
    Safe-bind (λ q. (q.0 ≢ send_body_state) × (q.1 ≡ p)) {m = send_nonbody_reponse w.peer}
      (Safe-eq _ returns (ground arith, refl))
      (λ q (other, same).
        Safe-bind (λ t'. t' ≡ t1) {m = deref q.1.http_task} (rw same (Safe.done t1 refl))
          (λ t' same'.
            Safe-if {b = q.0 == send_body_state} (λ back. absurd (other (==→eq _ _ back)))
              (λ _.
                Safe-bind (λ state. send_header_state ⟶ state) {m = state_after_header t'}
                  (state_after_header-Safe t')
                  (λ state edge.
                    let t2 = record t' { state = state } in
                    Safe.done _ (
                      t2,
                      rw same (sent_peer w.peer t t2 s k vs (rw same' vr) (⟶-leaves edge)),
                      edge,
                    )))))

stream_loop-Safe :
    (n : ℕ) (fp : Ptr FileStream) {s : Cbuf}
    → IsValid s
    → s.num_byte + n ≡ buf_data_maxsize
    → Safe (λ r. IsValid r.2) (stream_loop (suc n) fp s)
unfolding stream_loop
stream_loop-Safe n null {s} v h =
    Safe-if {b = not (buf_full s)} (λ _. undefined-Safe) (λ _. Safe.done _ v)
stream_loop-Safe n freed {s} v h =
    Safe-if {b = not (buf_full s)} (λ _. undefined-Safe) (λ _. Safe.done _ v)
stream_loop-Safe n (live f) v h =
    let st = stream_loop-Streamed n f.rest f.fails v h in
    Safe-eq (answer n f.rest f.fails st.buf) st.returns (ground (arith, st.valid))

-- What a call of `stream_file_content` leaves.
abbrev AfterStream : Peer → HttpTask → ℕ × Peer → Type 0
AfterStream p t (ret, p') =
    (fp : Ptr FileStream) × (s : Cbuf) × (p'
      ≡ record p { http_task = live (record t { fp = fp }); sending_buffer = s })
    × IsValid s

stream_file_content-Safe :
    (p : Peer) (t : HttpTask) → TaskOk p t → Safe (AfterStream p t) (stream_file_content p)
unfolding stream_file_content
stream_file_content-Safe p t k =
    let n = buf_data_maxsize - p.sending_buffer.num_byte in
    let fuel : buf_available p.sending_buffer + 1 ≡ suc n =
      omega (arith, available_lem k.sending) in
    rw (k.task, fuel)
      (Safe-bind (λ r. IsValid r.2) {m = stream_loop (suc n) t.fp p.sending_buffer}
        (stream_loop-Safe n t.fp k.sending (omega arith)) (λ r v. Safe.done _ (r.1, r.2, refl, v)))

-- The state that sends a file.
pub send_body_step-Goes :
    (w : World) (t : HttpTask)
    → TaskOk w.peer t
    → t.state ≡ send_body_state
    → Safe (Goes send_body_state) (send_body_step w t)
unfolding send_body_step
send_body_step-Goes w t k e =
    Safe-bind _ {m = assert (t.method_type == get_method)} (Safe-assert _) (λ _ _.
      Safe-bind (AfterStream w.peer t) {m = stream_file_content w.peer}
        (stream_file_content-Safe w.peer t k)
        (λ q (fp, s, same, v).
          let t1 = record t { fp = fp } in
          let t2 = record t1 { state = finished_state } in
          Safe-if {b = q.0 == stream_file_not_done}
            (λ _. Safe.done _ (
              inr (
                t1,
                rw same (sent_peer w.peer t t1 s k v k.response (omega arith)),
                λ e'. absurd (omega arith),
              )))
            (λ _.
              Safe-if {b = q.0 == stream_file_error} (λ _. Safe.done _ (inl refl))
                (λ _.
                  Safe-if {b = q.0 == stream_file_done}
                    (λ _.
                      Safe-bind (λ t'. t' ≡ t1) {m = deref q.1.http_task}
                        (rw same (Safe.done t1 refl))
                        (λ t' same'. Safe.done _ (
                          record t' { state = finished_state },
                          rw (same, same') (sent_peer w.peer t t2 s k v k.response (omega arith)),
                          end_file,
                        )))
                    (λ _. assertion-Safe)))))
