-- ===== src/Http/FileHeader.antt =====
-- `generate_GET_header` of src/http.c: the text of the header that a file gets.
use simle_http_server.Prelude.{
  ℕ, ◌+◌, ◌≤◌, ◌<◌, ◌≡◌, ◌++◌, Bool, arith, Outcome, ok, ◌>>=◌, if◌then◌else◌, length,
  length-append,
}
use simle_http_server.Cbuf.{buf_data_maxsize}
use simle_http_server.Cbuf.Valid.{IsValid}
use simle_http_server.Task.{HttpTask}
use simle_http_server.Peer.{CString}
use simle_http_server.Text.{codes, decimal}
use simle_http_server.Site.{Site}
use simle_http_server.Response.{
  generate_response_header, server_name, connection, close_text, keep_alive, clrf, colon, sp,
}
use simle_http_server.Response.Append.{
  Appended, Appended-bind, header_text, status_text, generate_response_header-Appended,
  generate_response_status_line-Appended, generate_response_msg-Appended,
}
use simle_http_server.Http.GetHeader.{length_text, file_header}

-- The header of a file, as a client reads it.
abbrev pub file_text : Site → CString → CString → Bool → CString
file_text site path mime last_req =
    status_text (codes "200") (codes "OK")
    ++ (header_text (codes "Server") server_name
        ++ (header_text (codes "Date") site.curr_time
            ++ (header_text (codes "Content-Length") (decimal (site.file_len path))
                ++ (header_text (codes "Content-Type") mime
                    ++ (header_text (codes "Last-modified") (site.last_modified path)
                        ++ (header_text connection (if last_req then close_text else keep_alive)
                            ++ clrf))))))

length_text_lem : (n : ℕ) → length (decimal n) < 16 → length_text n ≡ ok (decimal n)
unfolding length_text
length_text_lem n h = ground arith

-- A header field, and what is written after it.
field_then :
    (t : HttpTask) (hname hvalue u : CString) (k : HttpTask → Outcome HttpTask)
    → IsValid t.response_buf
    → t.response_buf.num_byte + length (header_text hname hvalue ++ u) ≤ buf_data_maxsize
    → ((t' : HttpTask)
        → IsValid t'.response_buf
        → t'.response_buf.num_byte + length u ≤ buf_data_maxsize
        → Appended t' u (k t'))
    → Appended t (header_text hname hvalue ++ u) (generate_response_header t hname hvalue >>= k)
field_then t hname hvalue u k v room next =
    let n0 = length-append (header_text hname hvalue) u in
    let n1 = length-append hname (colon ++ (sp ++ (hvalue ++ clrf))) in
    let n2 = length-append hvalue clrf in
    Appended-bind (header_text hname hvalue) u (generate_response_header t hname hvalue) k
      (omega (arith, n0))
      (generate_response_header-Appended t hname hvalue v (omega (arith, n0, n1, n2))) next

-- If the length of the file has less than 16 digits, and there is room, the header is appended.
pub file_header-Appended :
    (site : Site) (t : HttpTask) (path mime : CString) (last_req : Bool)
    → IsValid t.response_buf
    → length (decimal (site.file_len path)) < 16
    → t.response_buf.num_byte + length (file_text site path mime last_req) ≤ buf_data_maxsize
    → Appended t (file_text site path mime last_req) (file_header site t path mime last_req)
unfolding file_header
file_header-Appended site t path mime last_req v short room =
    let u6 = header_text connection (if last_req then close_text else keep_alive) ++ clrf in
    let u5 = header_text (codes "Last-modified") (site.last_modified path) ++ u6 in
    let u4 = header_text (codes "Content-Type") mime ++ u5 in
    let u3 = header_text (codes "Content-Length") (decimal (site.file_len path)) ++ u4 in
    let u2 = header_text (codes "Date") site.curr_time ++ u3 in
    let u1 = header_text (codes "Server") server_name ++ u2 in
    let n0 = length-append (status_text (codes "200") (codes "OK")) u1 in
    rw (length_text_lem (site.file_len path) short) (
      Appended-bind (status_text (codes "200") (codes "OK")) u1 _ _ (omega (arith, n0))
        (generate_response_status_line-Appended t (codes "200") (codes "OK") v (omega (arith, n0)))
        (λ t1 v1 r1. field_then t1 (codes "Server") server_name u2 _ v1 r1 (λ t2 v2 r2.
          field_then t2 (codes "Date") site.curr_time u3 _ v2 r2 (λ t3 v3 r3.
            field_then t3 (codes "Content-Length") (decimal (site.file_len path)) u4 _ v3 r3
              (λ t4 v4 r4. field_then t4 (codes "Content-Type") mime u5 _ v4 r4 (λ t5 v5 r5.
                field_then t5 (codes "Last-modified") (site.last_modified path) u6 _ v5 r5
                  (λ t6 v6 r6.
                    field_then t6 connection (if last_req then close_text else keep_alive) clrf _ v6
                      r6
                      (λ t7 v7 r7.
                        generate_response_msg-Appended t7 clrf v7 (omega arith) r7))))))))
