-- ===== src/Response/Append.antt =====
-- The functions of src/http.c that write to the response buffer append their text to it.
use simle_http_server.Prelude.{
  ◌+◌, ◌≤◌, ◌<◌, ◌≡◌, refl, ◌++◌, arith, ◌∙◌, Outcome, ok, length, length-append, append_assoc,
  ◌>>=◌,
}
use simle_http_server.Cbuf.{Cbuf, buf_data_maxsize, buf_write}
use simle_http_server.Cbuf.Valid.{IsValid}
use simle_http_server.Cbuf.Contents.{contents, length-contents}
use simle_http_server.Cbuf.Bulk.{buf_write_lem}
use simle_http_server.Task.{HttpTask}
use simle_http_server.Peer.{CString}
use simle_http_server.Response.{
  write_response, write_asserted, generate_response_status_line, generate_response_header,
  generate_response_msg, http_version_text, sp, colon, clrf,
}

-- The call returned a task that differs from `t` in the response buffer alone, to which `text` was
-- appended.
pub record Appended (t : HttpTask) (text : CString) (out : Outcome HttpTask) : Type 0 where
  pub buf : Cbuf
  pub returns : out ≡ ok (record t { response_buf = buf })
  pub valid : IsValid buf
  pub held : contents buf ≡ contents t.response_buf ++ text
  pub count : buf.num_byte ≡ t.response_buf.num_byte + length text

pub write_asserted-Appended :
    (t : HttpTask) (s : CString)
    → IsValid t.response_buf
    → t.response_buf.num_byte + length s ≤ buf_data_maxsize
    → Appended t s (write_asserted t s)
unfolding write_asserted write_response
write_asserted-Appended t s v room =
    let (ret, held, v') = buf_write_lem s v in
    record {
      buf = (buf_write t.response_buf s).1;
      returns = ground arith;
      valid = v';
      held = ground arith;
      count = ground (
        arith,
        length-contents (buf_write t.response_buf s).1,
        length-contents t.response_buf,
        length-append (contents t.response_buf) s,
      );
    }

-- One call after another appends one text after the other.
pub Appended-bind :
    {t : HttpTask} (s u : CString) (m : Outcome HttpTask) (k : HttpTask → Outcome HttpTask)
    → t.response_buf.num_byte + length s + length u ≤ buf_data_maxsize
    → Appended t s m
    → ((t' : HttpTask)
        → IsValid t'.response_buf
        → t'.response_buf.num_byte + length u ≤ buf_data_maxsize
        → Appended t' u (k t'))
    → Appended t (s ++ u) (m >>= k)
Appended-bind {t} s u m k room a next =
    let b = next (record t { response_buf = a.buf }) a.valid (omega (arith, a.count)) in
    record {
      buf = b.buf;
      returns = ground (arith, a.returns, b.returns);
      valid = b.valid;
      held = ground (arith, a.held, b.held, append_assoc (contents t.response_buf) s u);
      count = omega (arith, a.count, b.count, length-append s u);
    }

pub write_response-Appended :
    (t : HttpTask) (s : CString)
    → IsValid t.response_buf
    → t.response_buf.num_byte + length s ≤ buf_data_maxsize
    → Appended t s (ok (write_response t s).1)
unfolding write_response
write_response-Appended t s v room =
    let (ret, held, v') = buf_write_lem s v in
    record {
      buf = (buf_write t.response_buf s).1;
      returns = refl;
      valid = v';
      held = ground arith;
      count = ground (
        arith,
        length-contents (buf_write t.response_buf s).1,
        length-contents t.response_buf,
        length-append (contents t.response_buf) s,
      );
    }

abbrev pub header_text : CString → CString → CString
header_text hname hvalue = hname ++ (colon ++ (sp ++ (hvalue ++ clrf)))

-- If there is room, `generate_response_header` appends the field with its line end.
pub generate_response_header-Appended :
    (t : HttpTask) (hname hvalue : CString)
    → IsValid t.response_buf
    → t.response_buf.num_byte + (length hname + length hvalue + 4) ≤ buf_data_maxsize
    → Appended t (header_text hname hvalue) (generate_response_header t hname hvalue)
unfolding generate_response_header
generate_response_header-Appended t hname hvalue v room =
    let n = length-append hvalue clrf in
    Appended-bind hname (colon ++ (sp ++ (hvalue ++ clrf))) _ _ (omega (arith, n))
      (write_asserted-Appended t hname v (omega arith))
      (λ t1 v1 r1.
        Appended-bind colon (sp ++ (hvalue ++ clrf)) _ _ (omega arith)
          (write_asserted-Appended t1 colon v1 (omega arith))
          (λ t2 v2 r2.
            Appended-bind sp (hvalue ++ clrf) _ _ (omega arith)
              (write_asserted-Appended t2 sp v2 (omega arith))
              (λ t3 v3 r3.
                Appended-bind hvalue clrf _ _ (omega (arith, n))
                  (write_asserted-Appended t3 hvalue v3 (omega (arith, n)))
                  (λ t4 v4 r4. write_asserted-Appended t4 clrf v4 r4))))

abbrev pub status_text : CString → CString → CString
status_text code reason = http_version_text ++ (sp ++ (code ++ (sp ++ (reason ++ clrf))))

-- If there is room, `generate_response_status_line` appends the status line with its line end.
pub generate_response_status_line-Appended :
    (t : HttpTask) (code reason : CString)
    → IsValid t.response_buf
    → t.response_buf.num_byte + (length code + length reason + 12) ≤ buf_data_maxsize
    → Appended t (status_text code reason) (generate_response_status_line t code reason)
unfolding generate_response_status_line
generate_response_status_line-Appended t code reason v room =
    let n = length-append reason clrf in
    let m = length-append code (sp ++ (reason ++ clrf)) in
    Appended-bind http_version_text (sp ++ (code ++ (sp ++ (reason ++ clrf)))) _ _
      (omega (arith, n, m)) (write_response-Appended t http_version_text v (omega arith))
      (λ t1 v1 r1.
        Appended-bind sp (code ++ (sp ++ (reason ++ clrf))) _ _ (omega arith)
          (write_response-Appended t1 sp v1 (omega arith))
          (λ t2 v2 r2.
            Appended-bind code (sp ++ (reason ++ clrf)) _ _ (omega (arith, m))
              (write_response-Appended t2 code v2 (omega (arith, m)))
              (λ t3 v3 r3.
                Appended-bind sp (reason ++ clrf) _ _ (omega arith)
                  (write_response-Appended t3 sp v3 (omega arith))
                  (λ t4 v4 r4.
                    Appended-bind reason clrf _ _ (omega (arith, n))
                      (write_response-Appended t4 reason v4 (omega (arith, n)))
                      (λ t5 v5 r5. write_asserted-Appended t5 clrf v5 r5)))))

generate_response_msg-ok :
    (t : HttpTask) (msg : CString)
    → IsValid t.response_buf
    → 0 < length msg
    → t.response_buf.num_byte + length msg ≤ buf_data_maxsize
    → generate_response_msg t msg ≡ ok (write_response t msg).1
unfolding generate_response_msg write_response
generate_response_msg-ok t msg v pos_len room =
    let (ret, held, v') = buf_write_lem msg v in ground arith

pub generate_response_msg-Appended :
    (t : HttpTask) (msg : CString)
    → IsValid t.response_buf
    → 0 < length msg
    → t.response_buf.num_byte + length msg ≤ buf_data_maxsize
    → Appended t msg (generate_response_msg t msg)
generate_response_msg-Appended t msg v pos_len room =
    let a = write_response-Appended t msg v room in
    record {
      buf = a.buf;
      returns = generate_response_msg-ok t msg v pos_len room ∙ a.returns;
      valid = a.valid;
      held = a.held;
      count = a.count;
    }
