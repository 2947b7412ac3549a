-- ===== src/Http/Body.antt =====
-- On termination and well-formedness, for the state of `handle_http` (src/http.c) that receives a
-- POST body.
use simle_http_server.Prelude.{
  ℕ, zero, suc, ◌+◌, ◌≤◌, ◌≡◌, refl, ◌∙◌, Bool, true, false, arith, if◌then◌else◌, inr, ◌≢◌,
  Outcome, ok, Safe, Safe-bind, Safe-if, Safe-of, ltb,
}
use simle_http_server.Cbuf.{Cbuf, buf_empty, buf_get, byte_of}
use simle_http_server.Cbuf.Valid.{IsValid, empty_lem, buf_get-IsValid}
use simle_http_server.Cbuf.Contents.{buf_get_nonempty}
use simle_http_server.Task.{HttpTask, recv_body_state, check_cgi}
use simle_http_server.Http.{World, continue, return, with_task, keep_conn}
use simle_http_server.Http.Steps.{store_body, body_loop, recv_body_step}
use simle_http_server.Http.Diagram.{complete as complete_body}
use simle_http_server.Http.Invariant.{TaskOk, Goes}

-- The loop that receives a body, with fuel for the bytes that are left in the buffer.
abbrev Received : HttpTask → Bool × HttpTask × Cbuf → Type 0
Received t (complete, t', c) = IsValid c × (t'.response_buf ≡ t.response_buf) × (t'.state ≡ t.state)

store_body-Safe :
    (t : HttpTask) (b : ℕ)
    → Safe (λ t'. (t'.response_buf ≡ t.response_buf) × (t'.state ≡ t.state)) (store_body t b)
unfolding store_body
store_body-Safe t b = Safe-of (store_body t b) (ground arith) (λ t' e. ground arith)

Received-trans :
    (t t' : HttpTask) {m : Outcome (Bool × HttpTask × Cbuf)}
    → (t'.response_buf ≡ t.response_buf) × (t'.state ≡ t.state)
    → Safe (Received t') m
    → Safe (Received t) m
Received-trans t t' same (Safe.done a (v, b, s)) = Safe.done a (v, b ∙ same.0, s ∙ same.1)
Received-trans t t' same (Safe.fault f n) = Safe.fault f n

after_body :
    (w : World) (t : HttpTask)
    → TaskOk w.peer t
    → t.state ≡ recv_body_state
    → (complete : Bool) (t' : HttpTask) (c : Cbuf) → Received t (complete, t', c)
    → Safe (Goes recv_body_state) (
        ok (
          let w' = record w { peer = record w.peer { receiving_buffer = c } } in
          if complete
          then continue (with_task w' (record t' { state = check_cgi }))
          else return keep_conn (with_task w' t')))
after_body w t k e true t' c (v, b, s) = Safe.done _ (
  record t' { state = check_cgi },
  record {
    task = refl;
    receiving = v;
    sending = k.sending;
    response = rw b k.response;
    header = λ h. absurd (omega arith);
  },
  complete_body,
)
after_body w t k e false t' c (v, b, s) = Safe.done _ (
    inr (
      t',
      record {
        task = refl;
        receiving = v;
        sending = k.sending;
        response = rw b k.response;
        header = λ h. absurd (omega arith);
      },
      λ e'. absurd (omega arith),
    ))

body_loop-Safe :
    (fuel : ℕ) (t : HttpTask) (c : Cbuf)
    → IsValid c
    → c.num_byte + 1 ≤ fuel
    → Safe (Received t) (body_loop fuel t c)
unfolding body_loop
body_loop-Safe zero t c v h = absurd (omega arith)
body_loop-Safe (suc fuel) t c v h =
    Safe-if {b = ltb t.post_body_idx t.body_bytes_num}
      (λ _.
        Safe-if {b = buf_empty c} (λ _. Safe.done _ (v, refl, refl))
          (λ some_left.
            let ne : c.num_byte ≢ 0 = ground (arith, empty_lem v) in
            let (e0, e1, e2, e3) = buf_get_nonempty v ne in
            Safe-bind _ {m = store_body t (byte_of (buf_get c).1 0)}
              (store_body-Safe t (byte_of (buf_get c).1 0))
              (λ t' same.
                Received-trans t t' same
                  (body_loop-Safe fuel t' (buf_get c).2 (buf_get-IsValid v) (omega (arith, e3))))))
      (λ _. Safe.done _ (v, refl, refl))

-- The state that receives a body.
pub recv_body_step-Goes :
    (w : World) (t : HttpTask)
    → TaskOk w.peer t
    → t.state ≡ recv_body_state
    → Safe (Goes recv_body_state) (recv_body_step w t)
unfolding recv_body_step
recv_body_step-Goes w t k e =
    Safe-bind _ {m = body_loop (w.peer.receiving_buffer.num_byte + 1) t w.peer.receiving_buffer}
      (body_loop-Safe (w.peer.receiving_buffer.num_byte + 1) t w.peer.receiving_buffer k.receiving
        (omega arith))
      (λ r got. after_body w t k e r.0 r.1 r.2 got)
