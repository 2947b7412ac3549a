-- ===== src/Http/GetRounds.antt =====
-- The rounds of `handle_http` (src/http.c) that a GET request for a file goes through.
use simle_http_server.Prelude.{
  ℕ, suc, ◌+◌, ◌-◌, ◌≤◌, ◌<◌, ◌≡◌, [], ◌∷◌, ◌++◌, true, false, arith, ok, length, length-append,
  take_all, some, pos,
}
use simle_http_server.Cbuf.{Cbuf, buf_data_maxsize}
use simle_http_server.Cbuf.Valid.{IsValid}
use simle_http_server.Cbuf.Contents.{contents, length-contents}
use simle_http_server.Task.{
  live, freed, HttpTask, FileStream, reset_http_task, send_header_state, send_body_state,
  finished_state, check_cgi, get_method,
}
use simle_http_server.Peer.{CString}
use simle_http_server.Parse.{Request}
use simle_http_server.Text.{get_mime_type, decimal}
use simle_http_server.Path.{make_full_path, lower_extension}
use simle_http_server.Site.{Site}
use simle_http_server.Response.{ok_num}
use simle_http_server.Response.Flush.{send_nonbody_reponse_lem}
use simle_http_server.Response.Stream.{stream_file_content_lem}
use simle_http_server.Http.{World, continue, with_task, keep_conn}
use simle_http_server.Http.GetHeader.{open_file, generate_get_header}
use simle_http_server.Http.FileHeader.{file_text, file_header-Appended}
use simle_http_server.Http.Steps.{
  is_cgi_uri, serve_static, check_cgi_step, send_header_step, state_after_header, is_error_code,
  send_body_step,
}
use simle_http_server.Http.Handle.{step, free_request, finish, handle_loop}

-- A file that there is for the request, whose header and bytes can be read.
pub record Served (site : Site) (r : Request) (path : CString) (f : FileStream) : Type 0 where
  pub static : is_cgi_uri r.http_uri ≡ false
  pub full : CString
  pub uri : CString
  pub resolved : make_full_path site.www_dir r.http_uri ≡ ok (full, uri)
  pub access : site.access full ≡ true
  pub lowered : (lower_extension full).0 ≡ path
  pub opened : site.fopen path ≡ some f
  pub reads : f.fails ≡ false
  pub digits_fit : length (decimal (site.file_len path)) < 16

-- What is asked for: a GET request for such a file.
pub record Found (site : Site) (w : World) (t : HttpTask) (r : Request) (path : CString)
    (f : FileStream) : Type 0 where
  pub task : w.peer.http_task ≡ live t
  pub request : w.request ≡ live r
  pub state : t.state ≡ check_cgi
  pub method : t.method_type ≡ get_method
  pub file : Served site r path f

abbrev pub found_text : Site → HttpTask → CString → CString → CString
found_text site t full path =
    file_text site path (get_mime_type (lower_extension full).1) t.last_request

-- The round that writes the header and opens the file.
pub serve_round :
    (site : Site) (block : Cbuf) (w : World) (t : HttpTask) (r : Request) (path : CString)
    (f : FileStream) (k : Found site w t r path f)
    → IsValid t.response_buf
    → t.response_buf.num_byte + length (found_text site t k.file.full path) ≤ buf_data_maxsize
    → (buf : Cbuf) × IsValid buf
      × (contents buf ≡ contents t.response_buf ++ found_text site t k.file.full path)
      × (step site block w t
          ≡ ok (
              continue (
                with_task
                  (record w { request = live (record r { http_uri = k.file.uri }) })
                  (record t {
                    response_buf = buf;
                    fp = live f;
                    response_code = pos ok_num;
                    state = send_header_state;
                  }))))
unfolding step check_cgi_step serve_static generate_get_header open_file
serve_round site block w t r path f k v room =
    let a =
      file_header-Appended site t path (get_mime_type (lower_extension k.file.full).1)
        t.last_request v k.file.digits_fit room in
    (
      a.buf,
      a.valid,
      a.held,
      ground (
        arith, k.request, k.state, k.method, k.file.static, k.file.resolved, k.file.access,
        k.file.lowered, k.file.opened, a.returns,
      ),
    )

-- The round that moves a header which fits.
pub header_round :
    (site : Site) (block : Cbuf) (w : World) (t : HttpTask)
    → w.peer.http_task ≡ live t
    → t.state ≡ send_header_state
    → t.response_code ≡ pos ok_num
    → t.method_type ≡ get_method
    → IsValid t.response_buf
    → IsValid w.peer.sending_buffer
    → w.peer.sending_buffer.num_byte + t.response_buf.num_byte ≤ buf_data_maxsize
    → (r : Cbuf) × (s : Cbuf) × IsValid s
      × (contents s ≡ contents w.peer.sending_buffer ++ contents t.response_buf)
      × (step site block w t
          ≡ ok (
              continue (record w {
                peer = record w.peer {
                  http_task = live (record t { response_buf = r; state = send_body_state });
                  sending_buffer = s;
                };
              })))
unfolding step send_header_step state_after_header is_error_code
header_round site block w t e st code m v vs fits =
    let (r, s, returns, sent, left, vr, vs') = send_nonbody_reponse_lem w.peer t e v vs in
    let n = length-contents t.response_buf in
    let all =
      take_all (buf_data_maxsize - w.peer.sending_buffer.num_byte) (contents t.response_buf)
        (omega (arith, n)) in
    (r, s, vs', rw (← all) sent, ground (arith, st, code, m, returns))

-- The round that sends a file which fits.
pub file_round :
    (site : Site) (block : Cbuf) (w : World) (t : HttpTask) (f : FileStream)
    → w.peer.http_task ≡ live t
    → t.state ≡ send_body_state
    → t.method_type ≡ get_method
    → t.fp ≡ live f
    → f.fails ≡ false
    → IsValid w.peer.sending_buffer
    → w.peer.sending_buffer.num_byte + length f.rest + 1 ≤ buf_data_maxsize
    → (s : Cbuf) × IsValid s
      × (contents s ≡ contents w.peer.sending_buffer ++ (f.rest ++ (255 ∷ [])))
      × (step site block w t
          ≡ ok (
              continue (record w {
                peer = record w.peer {
                  http_task = live (record t { fp = freed; state = finished_state });
                  sending_buffer = s;
                };
              })))
unfolding step send_body_step
file_round site block w t f e st m fp reads vs fits =
    let (s, returns, sent, vs') = stream_file_content_lem w.peer t f e fp reads vs in
    let n = length-append f.rest (255 ∷ []) in
    let all =
      take_all (buf_data_maxsize - w.peer.sending_buffer.num_byte) (f.rest ++ (255 ∷ []))
        (omega (arith, n)) in
    (s, vs', rw (← all) sent, ground (arith, st, m, returns))

pub finish_round :
    (site : Site) (block : Cbuf) (fuel : ℕ) (w : World) (t : HttpTask) (r : Request)
    → w.peer.http_task ≡ live t
    → t.state ≡ finished_state
    → w.request ≡ live r
    → handle_loop site block (suc fuel) w
      ≡ ok (keep_conn, with_task (record w { request = freed }) (reset_http_task t))
unfolding handle_loop finish free_request reset_http_task
finish_round site block fuel w t r e st req = simp e (ground (arith, st, req))
