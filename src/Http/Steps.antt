-- ===== src/Http/Steps.antt =====
-- The states of `handle_http` (src/http.c). Each function is one round of the loop in its state, for the
-- task `t` that the peer of `w` has.
use simle_http_server.Prelude.{
  ℕ, zero, suc, ◌+◌, List, [], Bool, true, false, not, ◌&&◌, ◌||◌, none, some, Outcome, ok, crash,
  undefined, out_of_fuel, assertion, assert, ◌>>=◌, ◌>>◌, ◌==◌, ltb, leb, if◌then◌else◌, length,
  take, slice_of, update, ℤ, pos, negsuc, int_eq,
}
use simle_http_server.Cbuf.{Cbuf, buf_empty, buf_get, byte_of}
use simle_http_server.Task.{
  live, null, deref, HttpTask, recv_body_state, generate_header_state, send_header_state,
  send_body_state, finished_state, check_cgi, processing_cgi, no_method, get_method, head_method,
  post_method,
}
use simle_http_server.Peer.{CString}
use simle_http_server.Parse.{Request, parse}
use simle_http_server.Text.{codes, str_eq, atoi}
use simle_http_server.Header.{read_header_data, parser_buf_overflow, empty_recv_buf}
use simle_http_server.Response.{
  generate_nonbody_response, send_nonbody_reponse, stream_file_content, stream_file_not_done,
  stream_file_error, stream_file_done, ok_num, bad_request_num, not_found_num, length_require_num,
  internal_server_error_num, not_implemented_num, http_version_not_supported_num,
}
use simle_http_server.Cgi.{get_header_value, build_cgi_param, start_cgi_script}
use simle_http_server.Site.{Site}
use simle_http_server.Http.{
  World, Flow, continue, return, with_task, keep_conn, close_conn_code, close_conn_immediately,
}
use simle_http_server.Http.GetHeader.{generate_get_header}

-- A POST request: its length, and the block for its body.
unfoldable pub start_post : Site → HttpTask → Request → Outcome HttpTask
start_post site t r =
    let length_str = get_header_value r (codes "Content-Length") in
    let refused = record t {
      response_code = pos length_require_num;
      state = generate_header_state;
    } in
    if length length_str == 0 then ok refused else (do
      n ← atoi length_str
      elim n [
        | negsuc _ ↦ ok refused
        | pos size ↦ (do
          assert (t.body_bytes_num == 0)
          ok (record t {
            body_bytes_num = size;
            post_body = site.malloc size;
            post_body_idx = 0;
            state = recv_body_state;
          }))
      ])

-- The task after the method of the request is looked at.
unfoldable pub choose_method : Site → HttpTask → Request → Outcome HttpTask
unfolding start_post
choose_method site t r =
    if str_eq r.http_method (codes "HEAD")
    then ok (record t { method_type = head_method; state = check_cgi })
    else if str_eq r.http_method (codes "GET")
    then ok (record t { method_type = get_method; state = check_cgi })
    else if str_eq r.http_method (codes "POST")
    then start_post site (record t { method_type = post_method }) r
    else ok (record t { response_code = pos not_implemented_num; state = generate_header_state })

-- The task after the Connection header is looked at: it is never set back to false.
abbrev pub note_last : HttpTask → Request → HttpTask
note_last t r = record t {
  last_request =
      if str_eq (get_header_value r (codes "Connection")) (codes "Close")
      then true
      else t.last_request;
}

-- What follows `read_header_data`.
unfoldable pub parse_header : Site → World → ℕ → Outcome Flow
unfolding choose_method
parse_header site w ret =
    if ret == parser_buf_overflow
    then ok (return close_conn_immediately w)
    else if ret == empty_recv_buf
    then ok (return keep_conn w)
    else (do
      t ← deref w.peer.http_task
      parsed ← parse site.yyparse (slice_of t.parse_buf 0 t.parse_buf_idx)
      elim parsed [
        | none ↦ ok (return close_conn_immediately (record w { request = null }))
        | some r ↦ (do
          t' ← choose_method site (note_last t r) r
          ok (continue (with_task (record w { request = live r }) t')))
      ])

unfoldable pub recv_header_step : Site → World → HttpTask → Outcome Flow
unfolding parse_header
recv_header_step site w t = do
  assert (int_eq t.response_code (negsuc 0))
  assert (not t.last_request)
  assert (t.method_type == no_method)
  (ret, p) ← read_header_data w.peer
  parse_header site (record w { peer = p }) ret

-- `post_body[post_body_idx] = data; post_body_idx++`
unfoldable pub store_body : HttpTask → ℕ → Outcome HttpTask
store_body t b = elim t.post_body [
  | none ↦ crash undefined
  | some block ↦ ok (record t {
    post_body = some (update block t.post_body_idx b);
    post_body_idx = t.post_body_idx + 1;
  })
]

-- The loop of the state, with fuel: whether the body is complete, the task and the buffer.
unfoldable pub body_loop : ℕ → HttpTask → Cbuf → Outcome (Bool × HttpTask × Cbuf)
unfolding store_body
body_loop zero t c = crash out_of_fuel
body_loop (suc fuel) t c =
    if ltb t.post_body_idx t.body_bytes_num
    then if buf_empty c
      then ok (false, t, c)
      else (let (ret, out, c') = buf_get c in
          (do t' ← store_body t (byte_of out 0); body_loop fuel t' c'))
    else ok (true, t, c)

unfoldable pub recv_body_step : World → HttpTask → Outcome Flow
recv_body_step w t = do
  (complete, t', c) ← body_loop (w.peer.receiving_buffer.num_byte + 1) t w.peer.receiving_buffer
  let w' = record w { peer = record w.peer { receiving_buffer = c } }
  ok (
      if complete
      then continue (with_task w' (record t' { state = check_cgi }))
      else return keep_conn (with_task w' t'))

unfoldable pub generate_header_step : World → HttpTask → Outcome Flow
generate_header_step w t = do
  (state, t') ← generate_nonbody_response t t.response_code
  ok (continue (with_task w (record t' { state = state })))

-- The codes after whose header there is nothing to send.
unfoldable pub is_error_code : ℤ → Bool
is_error_code code =
    int_eq code (pos bad_request_num)
    || int_eq code (pos not_found_num)
    || int_eq code (pos length_require_num)
    || int_eq code (pos internal_server_error_num)
    || int_eq code (pos not_implemented_num)
    || int_eq code (pos http_version_not_supported_num)

unfoldable pub state_after_header : HttpTask → Outcome ℕ
unfolding is_error_code
state_after_header t =
    if is_error_code t.response_code
    then ok finished_state
    else if t.method_type == get_method
    then ok send_body_state
    else if t.method_type == head_method
    then ok finished_state
    else if t.method_type == post_method
    then ok finished_state
    else crash assertion

-- The result of `send_nonbody_reponse` is compared with SEND_BODY_STATE, which it never is.
unfoldable pub send_header_step : World → HttpTask → Outcome Flow
unfolding state_after_header
send_header_step w t = do
  (ret, p) ← send_nonbody_reponse w.peer
  t' ← deref p.http_task
  (if ret == send_body_state then ok (return keep_conn (record w { peer = p })) else (do
    state ← state_after_header t'
    ok (continue (with_task (record w { peer = p }) (record t' { state = state })))))

-- `!strcmp(cgi_prefix, prefix)` for the first 5 bytes of the URI.
unfoldable pub is_cgi_uri : CString → Bool
is_cgi_uri uri = str_eq (codes "/cgi/") (if leb 5 (length uri) then take 5 uri else [])

-- The body that is handed to the script: that of a POST request, if it is not empty.
unfoldable pub script_body : HttpTask → Request → Outcome (List ℕ)
script_body t r =
    if str_eq r.http_method (codes "POST") && ltb 0 t.body_bytes_num
    then elim t.post_body [
      | none ↦ crash undefined
      | some block ↦ ok (slice_of block 0 t.body_bytes_num)
    ]
    else ok []

-- Without the path of the script, `print_CGI_param` formats a null pointer.
unfoldable pub run_cgi : Site → Cbuf → World → HttpTask → Request → Outcome Flow
unfolding script_body
run_cgi site block w t r = elim site.cgi_scripts [
  | none ↦ crash undefined
  | some scripts ↦ (do
    param ← build_cgi_param scripts r (site.inet_ntop w.peer.addres) w.peer.addres.sin_port
    let w' = with_task w (record t { state = processing_cgi })
    body ← script_body t r
    p ← start_cgi_script site block w'.peer param body
    ok (return (if t.last_request then close_conn_code else keep_conn) (record w' { peer = p })))
]

unfoldable pub serve_static : Site → World → HttpTask → Request → Outcome Flow
serve_static site w t r =
    if t.method_type == get_method || t.method_type == head_method
    then (do
      (code, t', r') ← generate_get_header site t r t.last_request
      let state = if code == ok_num then send_header_state else generate_header_state
      ok (
          continue (
            with_task (record w { request = live r' })
              (record t' { response_code = pos code; state = state }))))
    else ok (
        continue
          (with_task w (record t { response_code = pos ok_num; state = generate_header_state })))

unfoldable pub check_cgi_step : Site → Cbuf → World → HttpTask → Outcome Flow
unfolding is_cgi_uri run_cgi serve_static
check_cgi_step site block w t = do
  r ← deref w.request
  (if is_cgi_uri r.http_uri then run_cgi site block w t r else serve_static site w t r)

unfoldable pub send_body_step : World → HttpTask → Outcome Flow
send_body_step w t = do
  assert (t.method_type == get_method)
  (ret, p) ← stream_file_content w.peer
  (if ret == stream_file_not_done
      then ok (return keep_conn (record w { peer = p }))
      else if ret == stream_file_error
      then ok (return close_conn_immediately (record w { peer = p }))
      else if ret == stream_file_done
      then (do
        t' ← deref p.http_task
        ok (continue (with_task (record w { peer = p }) (record t' { state = finished_state }))))
      else crash assertion)
