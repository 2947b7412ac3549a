-- ===== src/Response.antt =====
-- The parts of src/http.c that write a response: the status line and header fields into the
-- task's response buffer, that buffer into the peer's sending buffer, and the file after it.
pub mod Append
pub mod Flush
pub mod Stream
pub mod Nonbody
use simle_http_server.Prelude.{
  ℕ, zero, suc, ◌+◌, List, [], ◌∷◌, ◌++◌, Bool, true, false, not, ◌||◌, Option, none, some, Outcome,
  ok, crash, undefined, out_of_fuel, assert, ◌>>=◌, ◌>>◌, ◌==◌, if◌then◌else◌, length, ℤ, pos,
  negsuc, int_eq, int_is_negative,
}
use simle_http_server.Cbuf.{
  Cbuf, buf_available, buf_write, buf_empty, buf_full, buf_get, buf_put, byte_of, exit_success,
}
use simle_http_server.Task.{Ptr, live, freed, deref, HttpTask, FileStream, send_header_state}
use simle_http_server.Peer.{CString, Peer}
use simle_http_server.Text.{codes}

-- `HTTP_VERSION`
abbrev pub http_version_text : CString
http_version_text = codes "HTTP/1.1"

-- `SP`
abbrev pub sp : CString
sp = 32 ∷ []

-- `COLON`
abbrev pub colon : CString
colon = 58 ∷ []

-- `CLRF`
abbrev pub clrf : CString
clrf = 13 ∷ 10 ∷ []

-- `SERVER_NAME`
abbrev pub server_name : CString
server_name = codes "Liso/1.0"

abbrev pub connection : CString
connection = codes "Connection"

abbrev pub close_text : CString
close_text = codes "Close"

abbrev pub keep_alive : CString
keep_alive = codes "Keep-alive"

-- `buf_write(&http_task->response_buf, s, strlen(s))`
unfoldable pub write_response : HttpTask → CString → ℤ × HttpTask
write_response t s =
    let (ret, c) = buf_write t.response_buf s in (ret, record t { response_buf = c })

-- The same, with `assert(ret >= 0)` behind it.
unfoldable pub write_asserted : HttpTask → CString → Outcome HttpTask
unfolding write_response
write_asserted t s =
    let (ret, t') = write_response t s in assert (not (int_is_negative ret)) >> ok t'

-- Of the six results only the last is tested. The value that is returned, EXIT_SUCCESS, goes
-- unused; so do those of the next two.
unfoldable pub generate_response_status_line : HttpTask → CString → CString → Outcome HttpTask
unfolding write_response write_asserted
generate_response_status_line t code reason =
    let (_, t1) = write_response t http_version_text in
    let (_, t2) = write_response t1 sp in
    let (_, t3) = write_response t2 code in
    let (_, t4) = write_response t3 sp in
    let (_, t5) = write_response t4 reason in write_asserted t5 clrf

unfoldable pub generate_response_header : HttpTask → CString → CString → Outcome HttpTask
generate_response_header t hname hvalue = do
  t1 ← write_asserted t hname
  t2 ← write_asserted t1 colon
  t3 ← write_asserted t2 sp
  t4 ← write_asserted t3 hvalue
  write_asserted t4 clrf

-- `assert(buf_write(…) > 0)`
unfoldable pub generate_response_msg : HttpTask → CString → Outcome HttpTask
unfolding write_response
generate_response_msg t msg =
    let (ret, t') = write_response t msg in
    assert (not (int_is_negative ret || int_eq ret (pos 0))) >> ok t'

abbrev pub ok_num : ℕ
ok_num = 200

abbrev pub bad_request_num : ℕ
bad_request_num = 400

abbrev pub not_found_num : ℕ
not_found_num = 404

abbrev pub length_require_num : ℕ
length_require_num = 411

abbrev pub internal_server_error_num : ℕ
internal_server_error_num = 500

abbrev pub not_implemented_num : ℕ
not_implemented_num = 501

abbrev pub http_version_not_supported_num : ℕ
http_version_not_supported_num = 505

unfoldable pub valid_response_code : ℤ → Bool
valid_response_code code =
    int_eq code (pos ok_num)
    || int_eq code (pos not_found_num)
    || int_eq code (pos bad_request_num)
    || int_eq code (pos length_require_num)
    || int_eq code (pos internal_server_error_num)
    || int_eq code (pos not_implemented_num)
    || int_eq code (pos http_version_not_supported_num)

-- Four of the cases: a status line, `Connection: Close`, and the empty line.
unfoldable pub closing_response : HttpTask → CString → CString → Outcome (ℕ × HttpTask)
closing_response t code reason = do
  t1 ← generate_response_status_line t code reason
  t2 ← generate_response_header t1 connection close_text
  t3 ← generate_response_msg t2 clrf
  ok (send_header_state, t3)

unfoldable pub ok_response : HttpTask → Outcome (ℕ × HttpTask)
ok_response t = do
  t1 ← generate_response_status_line t (codes "200") (codes "OK")
  t2 ← generate_response_header t1 (codes "Server") server_name
  ok (send_header_state, t2)

unfoldable pub not_found_response : HttpTask → Outcome (ℕ × HttpTask)
not_found_response t = do
  t1 ← generate_response_status_line t (codes "404") (codes "Not Found")
  t2 ← generate_response_msg t1 clrf
  ok (send_header_state, t2)

-- The `switch` of `generate_nonbody_response`.
unfoldable pub response_for : HttpTask → ℤ → Outcome (ℕ × HttpTask)
unfolding closing_response ok_response not_found_response
response_for t code =
    if int_eq code (pos ok_num)
    then ok_response t
    else if int_eq code (pos bad_request_num)
    then closing_response t (codes "400") (codes "Bad Request")
    else if int_eq code (pos not_found_num)
    then not_found_response t
    else if int_eq code (pos length_require_num)
    then closing_response t (codes "411") (codes "Length Require")
    else if int_eq code (pos internal_server_error_num)
    then closing_response t (codes "500") (codes "Internal Server Error")
    else if int_eq code (pos not_implemented_num)
    then closing_response t (codes "501") (codes "Not Implemented")
    else if int_eq code (pos http_version_not_supported_num)
    then closing_response t (codes "505") (codes "HTTP Version not supported")
    else ok (t.state, t)

-- The new state, and the task.
unfoldable pub generate_nonbody_response : HttpTask → ℤ → Outcome (ℕ × HttpTask)
unfolding valid_response_code response_for
generate_nonbody_response t code = assert (valid_response_code code) >> response_for t code

-- The loop of `send_nonbody_reponse`, with fuel: the value returned, the response buffer and the
-- sending buffer. A byte is taken before there is seen to be room for it.
unfoldable pub flush_loop : ℕ → Cbuf → Cbuf → Outcome (ℕ × Cbuf × Cbuf)
flush_loop zero response_buf send_buf = crash out_of_fuel
flush_loop (suc fuel) response_buf send_buf =
    if not (buf_empty response_buf)
    then (let (ret, out, r) = buf_get response_buf in
        let (put, s) = buf_put send_buf (byte_of out 0) in
        let rest = flush_loop fuel r s in
        if not (buf_full send_buf) then rest else ok (send_header_state, r, send_buf))
    else ok (exit_success, response_buf, send_buf)

unfoldable pub send_nonbody_reponse : Peer → Outcome (ℕ × Peer)
send_nonbody_reponse p = do
  t ← deref p.http_task
  (ret, r, s) ← flush_loop (t.response_buf.num_byte + 1) t.response_buf p.sending_buffer
  ok (ret, record p { http_task = live (record t { response_buf = r }); sending_buffer = s })

abbrev pub stream_file_not_done : ℕ
stream_file_not_done = 0

abbrev pub stream_file_done : ℕ
stream_file_done = 1

abbrev pub stream_file_error : ℕ
stream_file_error = 2

-- The loop of `stream_file_content`, with fuel: the value returned, the pointer to the stream and
-- the sending buffer. At the end of the file `fgetc` returns EOF, which is -1 and becomes the byte
-- 255; the byte is put in the buffer before `feof` is asked. After `fclose` the pointer is left.
unfoldable pub stream_loop : ℕ → Ptr FileStream → Cbuf → Outcome (ℕ × Ptr FileStream × Cbuf)
stream_loop zero fp send_buf = crash out_of_fuel
stream_loop (suc fuel) fp send_buf =
    if not (buf_full send_buf)
    then (do
      f ← deref fp
      elim f.rest [
        | [] ↦
            if f.fails
            then ok (stream_file_error, freed, send_buf)
            else ok (stream_file_done, freed, (buf_put send_buf 255).1)
        | b ∷ bs ↦ stream_loop fuel (live (record f { rest = bs })) (buf_put send_buf b).1
      ])
    else ok (stream_file_not_done, fp, send_buf)

-- The fuel is the room in the buffer, and one more round. The null test of the task is made; that of
-- the peer always passes.
unfoldable pub stream_file_content : Peer → Outcome (ℕ × Peer)
stream_file_content p = elim p.http_task [
  | Ptr.null ↦ ok (stream_file_error, p)
  | Ptr.freed ↦ crash undefined
  | Ptr.live t ↦ (do
    (ret, fp, s) ← stream_loop (buf_available p.sending_buffer + 1) t.fp p.sending_buffer
    ok (ret, record p { http_task = live (record t { fp = fp }); sending_buffer = s }))
]
