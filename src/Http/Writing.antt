-- ===== src/Http/Writing.antt =====
-- On termination and well-formedness, for the writing of a response in src/http.c, and the state
-- that does it.
use simle_http_server.Prelude.{
  ℕ, ◌≡◌, refl, true, arith, ◌≢◌, Outcome, ok, assert, ◌>>=◌, Safe, Safe-bind, Safe-assert, Safe-if,
  int_eq, not, pos, ℤ, int_is_negative, ◌||◌,
}
use simle_http_server.Cbuf.{Cbuf}
use simle_http_server.Cbuf.Valid.{IsValid}
use simle_http_server.Cbuf.Bulk.{buf_write_lem}
use simle_http_server.Task.{HttpTask, recv_header_state, generate_header_state, send_header_state}
use simle_http_server.Peer.{CString}
use simle_http_server.Text.{codes}
use simle_http_server.Response.{
  write_response, write_asserted, generate_response_status_line, generate_response_header,
  generate_response_msg, closing_response, ok_response, not_found_response, response_for,
  generate_nonbody_response, valid_response_code, http_version_text, sp, colon, clrf, connection,
  close_text, server_name,
}
use simle_http_server.Http.{World, with_task}
use simle_http_server.Http.Steps.{generate_header_step}
use simle_http_server.Http.Diagram.{generate}
use simle_http_server.Http.Invariant.{TaskOk, Goes}

-- The task with something written to its response buffer.
abbrev pub Wrote : HttpTask → HttpTask → Type 0
Wrote t t' = (buf : Cbuf) × (t' ≡ record t { response_buf = buf }) × IsValid buf

pub Wrote-IsValid : (t t' : HttpTask) → Wrote t t' → IsValid t'.response_buf
Wrote-IsValid t t' (buf, e, v) = rw e v

Wrote-trans : (t t' t'' : HttpTask) → Wrote t t' → Wrote t' t'' → Wrote t t''
Wrote-trans t t' t'' (b, e, v) (b', e', v') = (b', ground (arith, e, e'), v')

-- Writes that follow one another.
pub Wrote-bind :
    (t : HttpTask) {m : Outcome HttpTask} {k : HttpTask → Outcome HttpTask}
    → Safe (Wrote t) m
    → ((t' : HttpTask) → IsValid t'.response_buf → Safe (Wrote t') (k t'))
    → Safe (Wrote t) (m >>= k)
Wrote-bind t {m} {k} s next =
    Safe-bind (Wrote t) {m = m} s
      (λ t' wrote. trans_all t t' wrote (next t' (Wrote-IsValid t t' wrote)))
  where
    trans_all :
        (t t' : HttpTask)
        → Wrote t t'
        → {n : Outcome HttpTask} → Safe (Wrote t') n
        → Safe (Wrote t) n
    trans_all t t' wrote (Safe.done t'' more) = Safe.done t'' (Wrote-trans t t' t'' wrote more)
    trans_all t t' wrote (Safe.fault f n) = Safe.fault f n

write_response-Wrote :
    (t : HttpTask) (s : CString) → IsValid t.response_buf → Wrote t (write_response t s).1
unfolding write_response
write_response-Wrote t s v = let (ret, held, v') = buf_write_lem s v in (_, refl, v')

write_asserted-Wrote :
    (t : HttpTask) (s : CString) → IsValid t.response_buf → Safe (Wrote t) (write_asserted t s)
unfolding write_asserted
write_asserted-Wrote t s v =
    Safe-bind _ {m = assert (not (int_is_negative (write_response t s).0))} (Safe-assert _)
      (λ _ _. Safe.done _ (write_response-Wrote t s v))

pub generate_response_status_line-Wrote :
    (t : HttpTask) (code reason : CString)
    → IsValid t.response_buf
    → Safe (Wrote t) (generate_response_status_line t code reason)
unfolding generate_response_status_line
generate_response_status_line-Wrote t code reason v =
    Wrote-bind t {m = ok (write_response t http_version_text).1}
      (Safe.done _ (write_response-Wrote t http_version_text v))
      (λ t1 v1.
        Wrote-bind t1 {m = ok (write_response t1 sp).1}
          (Safe.done _ (write_response-Wrote t1 sp v1))
          (λ t2 v2.
            Wrote-bind t2 {m = ok (write_response t2 code).1}
              (Safe.done _ (write_response-Wrote t2 code v2))
              (λ t3 v3.
                Wrote-bind t3 {m = ok (write_response t3 sp).1}
                  (Safe.done _ (write_response-Wrote t3 sp v3))
                  (λ t4 v4.
                    Wrote-bind t4 {m = ok (write_response t4 reason).1}
                      (Safe.done _ (write_response-Wrote t4 reason v4))
                      (λ t5 v5. write_asserted-Wrote t5 clrf v5)))))

pub generate_response_header-Wrote :
    (t : HttpTask) (hname hvalue : CString)
    → IsValid t.response_buf
    → Safe (Wrote t) (generate_response_header t hname hvalue)
unfolding generate_response_header
generate_response_header-Wrote t hname hvalue v =
    Wrote-bind t (write_asserted-Wrote t hname v) (λ t1 v1.
      Wrote-bind t1 (write_asserted-Wrote t1 colon v1) (λ t2 v2.
        Wrote-bind t2 (write_asserted-Wrote t2 sp v2) (λ t3 v3.
          Wrote-bind t3 (write_asserted-Wrote t3 hvalue v3)
            (λ t4 v4. write_asserted-Wrote t4 clrf v4))))

pub generate_response_msg-Wrote :
    (t : HttpTask) (msg : CString)
    → IsValid t.response_buf
    → Safe (Wrote t) (generate_response_msg t msg)
unfolding generate_response_msg
generate_response_msg-Wrote t s v =
    Safe-bind _
      {m = assert
        (not (int_is_negative (write_response t s).0 || int_eq (write_response t s).0 (pos 0)))}
      (Safe-assert _) (λ _ _. Safe.done _ (write_response-Wrote t s v))

-- A response is written whole, and the header is sent next.
abbrev ToSend : HttpTask → ℕ × HttpTask → Type 0
ToSend t (state, t') = (state ≡ send_header_state) × Wrote t t'

to_send :
    (t : HttpTask) {m : Outcome HttpTask}
    → Safe (Wrote t) m
    → Safe (ToSend t) (m >>= λ t'. ok (send_header_state, t'))
to_send t {m} s = Safe-bind (Wrote t) {m = m} s (λ t' wrote. Safe.done _ (refl, wrote))

ToSend-trans :
    (t t' : HttpTask) {m : Outcome (ℕ × HttpTask)}
    → Wrote t t'
    → Safe (ToSend t') m
    → Safe (ToSend t) m
ToSend-trans t t' wrote (Safe.done (s, t'') (e, more)) =
    Safe.done (s, t'') (e, Wrote-trans t t' t'' wrote more)
ToSend-trans t t' wrote (Safe.fault f n) = Safe.fault f n

ToSend-bind :
    (t : HttpTask) {m : Outcome HttpTask} {k : HttpTask → Outcome (ℕ × HttpTask)}
    → Safe (Wrote t) m
    → ((t' : HttpTask) → IsValid t'.response_buf → Safe (ToSend t') (k t'))
    → Safe (ToSend t) (m >>= k)
ToSend-bind t {m} s next =
    Safe-bind (Wrote t) {m = m} s
      (λ t' wrote. ToSend-trans t t' wrote (next t' (Wrote-IsValid t t' wrote)))

closing_response-ToSend :
    (t : HttpTask) (code reason : CString)
    → IsValid t.response_buf
    → Safe (ToSend t) (closing_response t code reason)
unfolding closing_response
closing_response-ToSend t code reason v =
    ToSend-bind t (generate_response_status_line-Wrote t code reason v) (λ t1 v1.
      ToSend-bind t1 (generate_response_header-Wrote t1 connection close_text v1)
        (λ t2 v2. to_send t2 (generate_response_msg-Wrote t2 clrf v2)))

ok_response-ToSend : (t : HttpTask) → IsValid t.response_buf → Safe (ToSend t) (ok_response t)
unfolding ok_response
ok_response-ToSend t v =
    ToSend-bind t (generate_response_status_line-Wrote t (codes "200") (codes "OK") v)
      (λ t1 v1. to_send t1 (generate_response_header-Wrote t1 (codes "Server") server_name v1))

not_found_response-ToSend :
    (t : HttpTask) → IsValid t.response_buf → Safe (ToSend t) (not_found_response t)
unfolding not_found_response
not_found_response-ToSend t v =
    ToSend-bind t (generate_response_status_line-Wrote t (codes "404") (codes "Not Found") v)
      (λ t1 v1. to_send t1 (generate_response_msg-Wrote t1 clrf v1))

response_for-ToSend :
    (t : HttpTask) (code : ℤ)
    → valid_response_code code ≡ true
    → IsValid t.response_buf
    → Safe (ToSend t) (response_for t code)
unfolding response_for valid_response_code
response_for-ToSend t code valid v =
    Safe-if {b = int_eq code (pos 200)} (λ _. ok_response-ToSend t v)
      (λ n0.
        Safe-if {b = int_eq code (pos 400)} (λ _. closing_response-ToSend t _ _ v)
          (λ n1.
            Safe-if {b = int_eq code (pos 404)} (λ _. not_found_response-ToSend t v)
              (λ n2.
                Safe-if {b = int_eq code (pos 411)} (λ _. closing_response-ToSend t _ _ v)
                  (λ n3.
                    Safe-if {b = int_eq code (pos 500)} (λ _. closing_response-ToSend t _ _ v)
                      (λ n4.
                        Safe-if {b = int_eq code (pos 501)} (λ _. closing_response-ToSend t _ _ v)
                          (λ n5.
                            Safe-if {b = int_eq code (pos 505)}
                              (λ _. closing_response-ToSend t _ _ v)
                              (λ n6. absurd (ground arith))))))))

generate_nonbody_response-ToSend :
    (t : HttpTask) (code : ℤ)
    → IsValid t.response_buf
    → Safe (ToSend t) (generate_nonbody_response t code)
unfolding generate_nonbody_response
generate_nonbody_response-ToSend t code v =
    Safe-bind _ {m = assert (valid_response_code code)} (Safe-assert _)
      (λ _ valid. response_for-ToSend t code valid v)

-- The peer of a world whose task was replaced by one that is not to receive a header.
pub put_task :
    (w : World) (t t' : HttpTask)
    → TaskOk w.peer t
    → IsValid t'.response_buf
    → t'.state ≢ recv_header_state
    → TaskOk (with_task w t').peer t'
put_task w t t' k v n = record {
  task = refl;
  receiving = k.receiving;
  sending = k.sending;
  response = v;
  header = λ e. absurd (n e);
}

-- The state that writes a response.
pub generate_header_step-Goes :
    (w : World) (t : HttpTask)
    → TaskOk w.peer t
    → Safe (Goes generate_header_state) (generate_header_step w t)
unfolding generate_header_step
generate_header_step-Goes w t k =
    Safe-bind (ToSend t) {m = generate_nonbody_response t t.response_code}
      (generate_nonbody_response-ToSend t t.response_code k.response)
      (λ (state, t') (e, wrote). Safe.done _ (
        record t' { state = state },
        put_task w t (record t' { state = state }) k (Wrote-IsValid t t' wrote) (ground arith),
        rw e generate,
      ))
