-- ===== src/Response/Nonbody.antt =====
-- `generate_nonbody_response` of src/http.c, against the texts of the responses.
use mathlib.Core.Path.{subst}
use simle_http_server.Prelude.{
  ℕ, ◌+◌, ◌≤◌, ◌≡◌, sym, ◌∷◌, ◌++◌, arith, Outcome, ok, length, length-append, append_assoc, ◌>>=◌,
  pos, if◌then◌else◌, ◌==◌, ◌⊎◌, inl, inr,
}
use simle_http_server.Cbuf.{Cbuf, buf_data_maxsize}
use simle_http_server.Cbuf.Valid.{IsValid}
use simle_http_server.Cbuf.Contents.{contents}
use simle_http_server.Task.{HttpTask, send_header_state}
use simle_http_server.Peer.{CString}
use simle_http_server.Text.{codes}
use simle_http_server.Response.{
  response_for, closing_response, ok_response, not_found_response, generate_nonbody_response,
  valid_response_code, clrf, connection, close_text, server_name,
}
use simle_http_server.Response.Append.{
  Appended, generate_response_header-Appended, generate_response_status_line-Appended,
  generate_response_msg-Appended, status_text, header_text,
}

abbrev pub reason_text : ℕ → CString
reason_text code =
    if code == 400
    then codes "400 Bad Request"
    else if code == 411
    then codes "411 Length Require"
    else if code == 500
    then codes "500 Internal Server Error"
    else if code == 501
    then codes "501 Not Implemented"
    else codes "505 HTTP Version not supported"

abbrev pub closing_text : ℕ → CString
closing_text code =
    codes "HTTP/1.1 "
    ++ (reason_text code ++ (clrf ++ (codes "Connection: Close" ++ (clrf ++ clrf))))

-- The text of the response for each code, as a client reads it.
abbrev pub nonbody_text : ℕ → CString
nonbody_text code =
    if code == 200
    then codes "HTTP/1.1 200 OK" ++ (clrf ++ (codes "Server: Liso/1.0" ++ clrf))
    else if code == 404
    then codes "HTTP/1.1 404 Not Found" ++ (clrf ++ clrf)
    else closing_text code

-- The call moved the task to the sending of the header, with `text` appended to its buffer.
pub record Responded (t : HttpTask) (text : CString) (out : Outcome (ℕ × HttpTask)) : Type 0 where
  pub buf : Cbuf
  pub returns : out ≡ ok (send_header_state, record t { response_buf = buf })
  pub valid : IsValid buf
  pub held : contents buf ≡ contents t.response_buf ++ text

Responded-end :
    {t : HttpTask} (s : CString) (m : Outcome HttpTask)
    → Appended t s m
    → Responded t s (m >>= λ t'. ok (send_header_state, t'))
Responded-end s m a = record {
  buf = a.buf;
  returns = ground (arith, a.returns);
  valid = a.valid;
  held = a.held;
}

Responded-bind :
    {t : HttpTask} (s u : CString) (m : Outcome HttpTask) (k : HttpTask → Outcome (ℕ × HttpTask))
    → t.response_buf.num_byte + length s + length u ≤ buf_data_maxsize
    → Appended t s m
    → ((t' : HttpTask)
        → IsValid t'.response_buf
        → t'.response_buf.num_byte + length u ≤ buf_data_maxsize
        → Responded t' u (k t'))
    → Responded t (s ++ u) (m >>= k)
Responded-bind {t} s u m k room a next =
    let b = next (record t { response_buf = a.buf }) a.valid (omega (arith, a.count)) in
    record {
      buf = b.buf;
      returns = ground (arith, a.returns, b.returns);
      valid = b.valid;
      held = ground (arith, a.held, b.held, append_assoc (contents t.response_buf) s u);
    }

closing_response_lem :
    (t : HttpTask) (code reason : CString)
    → IsValid t.response_buf
    → t.response_buf.num_byte + (length code + length reason + 60) ≤ buf_data_maxsize
    → Responded t
        (status_text code reason ++ (header_text connection close_text ++ clrf))
        (closing_response t code reason)
unfolding closing_response
closing_response_lem t code reason v room =
    let n = length-append reason clrf in
    let m = length-append code (32 ∷ (reason ++ clrf)) in
    Responded-bind (status_text code reason) (header_text connection close_text ++ clrf) _ _
      (omega (arith, n, m)) (generate_response_status_line-Appended t code reason v (omega arith))
      (λ t1 v1 r1.
        Responded-bind (header_text connection close_text) clrf _ _ (omega arith)
          (generate_response_header-Appended t1 connection close_text v1 (omega arith))
          (λ t2 v2 r2.
            Responded-end clrf _ (generate_response_msg-Appended t2 clrf v2 (omega arith) r2)))

ok_response_lem :
    (t : HttpTask)
    → IsValid t.response_buf
    → t.response_buf.num_byte + 40 ≤ buf_data_maxsize
    → Responded t (nonbody_text 200) (ok_response t)
unfolding ok_response
ok_response_lem t v room =
    Responded-bind (status_text (codes "200") (codes "OK"))
      (header_text (codes "Server") server_name) _ _ (omega arith)
      (generate_response_status_line-Appended t (codes "200") (codes "OK") v (omega arith))
      (λ t1 v1 r1.
        Responded-end (header_text (codes "Server") server_name) _
          (generate_response_header-Appended t1 (codes "Server") server_name v1 (omega arith)))

not_found_response_lem :
    (t : HttpTask)
    → IsValid t.response_buf
    → t.response_buf.num_byte + 40 ≤ buf_data_maxsize
    → Responded t (nonbody_text 404) (not_found_response t)
unfolding not_found_response
not_found_response_lem t v room =
    Responded-bind (status_text (codes "404") (codes "Not Found")) clrf _ _ (omega arith)
      (generate_response_status_line-Appended t (codes "404") (codes "Not Found") v (omega arith))
      (λ t1 v1 r1.
        Responded-end clrf _ (generate_response_msg-Appended t1 clrf v1 (omega arith) r1))

-- The codes for which there is a response.
abbrev pub IsResponseCode : ℕ → Type 0
IsResponseCode n = (n ≡ 200) ⊎ (n ≡ 400) ⊎ (n ≡ 404) ⊎ (n ≡ 411) ⊎ (n ≡ 500) ⊎ (n ≡ 501) ⊎ (n ≡ 505)

abbrev Answers : HttpTask → ℕ → Type 0
Answers t code = Responded t (nonbody_text code) (generate_nonbody_response t (pos code))

generate_nonbody_response-Answers :
    (t : HttpTask) (code : ℕ)
    → IsResponseCode code
    → IsValid t.response_buf
    → t.response_buf.num_byte + 100 ≤ buf_data_maxsize
    → Answers t code
unfolding generate_nonbody_response response_for valid_response_code
generate_nonbody_response-Answers t code (inl e) v room =
    subst (Answers t) (sym e) (ok_response_lem t v (omega arith))
generate_nonbody_response-Answers t code (inr (inl e)) v room =
    subst (Answers t) (sym e)
      (closing_response_lem t (codes "400") (codes "Bad Request") v (omega arith))
generate_nonbody_response-Answers t code (inr (inr (inl e))) v room =
    subst (Answers t) (sym e) (not_found_response_lem t v (omega arith))
generate_nonbody_response-Answers t code (inr (inr (inr (inl e)))) v room =
    subst (Answers t) (sym e)
      (closing_response_lem t (codes "411") (codes "Length Require") v (omega arith))
generate_nonbody_response-Answers t code (inr (inr (inr (inr (inl e))))) v room =
    subst (Answers t) (sym e)
      (closing_response_lem t (codes "500") (codes "Internal Server Error") v (omega arith))
generate_nonbody_response-Answers t code (inr (inr (inr (inr (inr (inl e)))))) v room =
    subst (Answers t) (sym e)
      (closing_response_lem t (codes "501") (codes "Not Implemented") v (omega arith))
generate_nonbody_response-Answers t code (inr (inr (inr (inr (inr (inr e)))))) v room =
    subst (Answers t) (sym e)
      (closing_response_lem t (codes "505") (codes "HTTP Version not supported") v (omega arith))

-- For each code that has a response, with room for it, `generate_nonbody_response` appends the
-- text of that response to the response buffer, changes nothing else of the task, and returns
-- SEND_HEADER_STATE. The text for 200 ends with no empty line.
pub generate_nonbody_response_lem :
    (t : HttpTask) (code : ℕ)
    → IsResponseCode code
    → IsValid t.response_buf
    → t.response_buf.num_byte + 100 ≤ buf_data_maxsize
    → (buf : Cbuf) × (generate_nonbody_response t (pos code)
        ≡ ok (send_header_state, record t { response_buf = buf }))
      × (contents buf ≡ contents t.response_buf ++ nonbody_text code)
      × IsValid buf
generate_nonbody_response_lem t code is v room =
    let r = generate_nonbody_response-Answers t code is v room in
    (r.buf, r.returns, r.held, r.valid)
