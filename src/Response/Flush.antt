-- ===== src/Response/Flush.antt =====
-- `send_nonbody_reponse` of src/http.c: which bytes of the response reach the sending buffer.
use simle_http_server.Prelude.{
  ℕ, zero, suc, ◌+◌, ◌-◌, ◌≤◌, ◌≡◌, refl, [], ◌∷◌, ◌++◌, arith, ◌∙◌, if◌then◌else◌, Outcome, ok,
  append_assoc, append-nil, leb, take, drop, take_all, drop_all, ◌≢◌,
}
use native.Mathlib.Decide.{ℕ_discrete}
use simle_http_server.Cbuf.{Cbuf, buf_data_maxsize, buf_get, buf_put, exit_success}
use simle_http_server.Cbuf.Valid.{IsValid, empty_lem, full_lem, buf_get-IsValid, buf_put-IsValid}
use simle_http_server.Cbuf.Contents.{contents, buf_get_nonempty, buf_put_room}
use simle_http_server.Task.{HttpTask, live, send_header_state}
use simle_http_server.Peer.{Peer}
use simle_http_server.Response.{flush_loop, send_nonbody_reponse}

-- What the loop has done, from the response buffer `r` and the sending buffer `s`.
pub record Flushed (r s : Cbuf) (out : Outcome (ℕ × Cbuf × Cbuf)) : Type 0 where
  pub response_buf : Cbuf
  pub send_buf : Cbuf
  pub returns :
      out
      ≡ ok (
        (if leb (s.num_byte + r.num_byte) buf_data_maxsize
            then exit_success
            else send_header_state),
        response_buf,
        send_buf,
      )
  pub sent : contents send_buf ≡ contents s ++ take (buf_data_maxsize - s.num_byte) (contents r)
  pub left : contents response_buf ≡ drop (buf_data_maxsize - s.num_byte + 1) (contents r)
  pub response_valid : IsValid response_buf
  pub send_valid : IsValid send_buf

flush_loop-empty :
    (fuel : ℕ) {r s : Cbuf}
    → IsValid r
    → r.num_byte ≡ 0
    → flush_loop (suc fuel) r s ≡ ok (exit_success, r, s)
unfolding flush_loop
flush_loop-empty fuel v e = ground (arith, empty_lem v)

flush_loop-full :
    (fuel : ℕ) {r s : Cbuf}
    → IsValid r
    → IsValid s
    → r.num_byte ≢ 0
    → s.num_byte ≡ buf_data_maxsize
    → flush_loop (suc fuel) r s ≡ ok (send_header_state, (buf_get r).2, s)
unfolding flush_loop
flush_loop-full fuel v vs ne e = ground (arith, empty_lem v, full_lem vs)

flush_loop-move :
    (fuel : ℕ) {r s : Cbuf}
    → IsValid r
    → IsValid s
    → r.num_byte ≢ 0
    → s.num_byte ≢ buf_data_maxsize
    → flush_loop (suc fuel) r s ≡ flush_loop fuel (buf_get r).2 (buf_put s (r.bytes r.tail)).1
unfolding flush_loop
flush_loop-move fuel v vs ne room = ground (arith, empty_lem v, full_lem vs, buf_get_nonempty v ne)

-- What the loop does after it has moved a byte.
Flushed-cons :
    {r s : Cbuf} {out out' : Outcome (ℕ × Cbuf × Cbuf)}
    → IsValid r
    → IsValid s
    → r.num_byte ≢ 0
    → s.num_byte ≢ buf_data_maxsize
    → out ≡ out'
    → Flushed (buf_get r).2 (buf_put s (r.bytes r.tail)).1 out'
    → Flushed r s out
Flushed-cons {r} {s} v vs ne room same f =
    let (e0, e1, e2, e3) = buf_get_nonempty v ne in
    let (p0, p1, p2) = buf_put_room (r.bytes r.tail) vs room in
    let k = buf_data_maxsize - (buf_put s (r.bytes r.tail)).1.num_byte in
    let one_more : buf_data_maxsize - s.num_byte ≡ suc k = omega (arith, p2) in
    let two_more : buf_data_maxsize - s.num_byte + 1 ≡ suc (k + 1) = omega (arith, p2) in
    let total : (buf_put s (r.bytes r.tail)).1.num_byte + (buf_get r).2.num_byte
        ≡ s.num_byte + r.num_byte =
      omega (arith, p2, e3) in
    record {
      response_buf = f.response_buf;
      send_buf = f.send_buf;
      returns = same ∙ rw (← total) f.returns;
      sent =
          rw (one_more, e2)
            (f.sent
              ∙ rw p1 (
                  append_assoc (contents s) (r.bytes r.tail ∷ [])
                    (take k (contents (buf_get r).2))));
      left = rw (two_more, e2) f.left;
      response_valid = f.response_valid;
      send_valid = f.send_valid;
    }

flush_loop-Flushed :
    (fuel : ℕ) {r s : Cbuf}
    → IsValid r
    → IsValid s
    → r.num_byte + 1 ≤ fuel
    → Flushed r s (flush_loop fuel r s)
flush_loop-Flushed zero v vs h = absurd (omega arith)
flush_loop-Flushed (suc fuel) {r} {s} v vs h = elim (ℕ_discrete r.num_byte 0) [
  | yes e ↦
      let empty_r : contents r ≡ [] = rw e in
      let n = buf_data_maxsize - s.num_byte in
      record {
        response_buf = r;
        send_buf = s;
        returns = ground (arith, flush_loop-empty fuel {r = r} {s = s} v e);
        sent = rw (empty_r, take_all {A = ℕ} n [] (omega arith), append-nil);
        left = rw (empty_r, drop_all {A = ℕ} (n + 1) [] (omega arith));
        response_valid = v;
        send_valid = vs;
      }
  | no ne ↦
      let (e0, e1, e2, e3) = buf_get_nonempty v ne in
      elim (ℕ_discrete s.num_byte buf_data_maxsize) [
        | yes full ↦
            let none_left : buf_data_maxsize - s.num_byte ≡ 0 = omega arith in
            record {
              response_buf = (buf_get r).2;
              send_buf = s;
              returns = ground (arith, flush_loop-full fuel v vs ne full);
              sent = rw (none_left, append-nil);
              left = rw (none_left, e2) refl;
              response_valid = buf_get-IsValid v;
              send_valid = vs;
            }
        | no room ↦ Flushed-cons v vs ne room (flush_loop-move fuel v vs ne room) (
            flush_loop-Flushed fuel (buf_get-IsValid v) (buf_put-IsValid (r.bytes r.tail) vs)
              (omega (arith, e3)))
      ]
]

-- `send_nonbody_reponse` moves as much of the response as the sending buffer has room for. If
-- that is all of it, it returns EXIT_SUCCESS and the response buffer is empty. If not, it returns
-- SEND_HEADER_STATE, and the first byte that did not fit is in neither buffer.
pub send_nonbody_reponse_lem :
    (p : Peer) (t : HttpTask)
    → p.http_task ≡ live t
    → IsValid t.response_buf
    → IsValid p.sending_buffer
    → let room = buf_data_maxsize - p.sending_buffer.num_byte in
      let fits = leb (p.sending_buffer.num_byte + t.response_buf.num_byte) buf_data_maxsize in
      (r : Cbuf) × (s : Cbuf) × (send_nonbody_reponse p
        ≡ ok (
          (if fits then exit_success else send_header_state),
          record p { http_task = live (record t { response_buf = r }); sending_buffer = s },
        ))
      × (contents s ≡ contents p.sending_buffer ++ take room (contents t.response_buf))
      × (contents r ≡ drop (room + 1) (contents t.response_buf))
      × IsValid r
      × IsValid s
unfolding send_nonbody_reponse
send_nonbody_reponse_lem p t e v vs =
    let f = flush_loop-Flushed (t.response_buf.num_byte + 1) v vs (omega arith) in
    (
      f.response_buf,
      f.send_buf,
      rw (e, f.returns) refl,
      f.sent,
      f.left,
      f.response_valid,
      f.send_valid,
    )
