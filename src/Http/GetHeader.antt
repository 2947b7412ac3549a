-- ===== src/Http/GetHeader.antt =====
-- `generate_GET_header` of src/http.c.
use simle_http_server.Prelude.{
  ℕ, Bool, not, none, some, Outcome, ok, crash, undefined, ◌>>=◌, ltb, if◌then◌else◌, length,
}
use simle_http_server.Task.{Ptr, HttpTask}
use simle_http_server.Peer.{CString}
use simle_http_server.Parse.{Request}
use simle_http_server.Text.{codes, get_mime_type, decimal}
use simle_http_server.Path.{make_full_path, lower_extension}
use simle_http_server.Response.{
  generate_response_status_line, generate_response_header, generate_response_msg, server_name,
  connection, close_text, keep_alive, clrf, ok_num, not_found_num, internal_server_error_num,
}
use simle_http_server.Site.{Site}

-- `sprintf(content_len_str, "%zu", …)` into 16 bytes.
unfoldable pub length_text : ℕ → Outcome CString
length_text n = if ltb (length (decimal n)) 16 then ok (decimal n) else crash undefined

-- The header fields of a file, for the path as `str_tolower` left it.
unfoldable pub file_header : Site → HttpTask → CString → CString → Bool → Outcome HttpTask
unfolding length_text
file_header site t path mime last_req = do
  content_length ← length_text (site.file_len path)
  t1 ← generate_response_status_line t (codes "200") (codes "OK")
  t2 ← generate_response_header t1 (codes "Server") server_name
  t3 ← generate_response_header t2 (codes "Date") site.curr_time
  t4 ← generate_response_header t3 (codes "Content-Length") content_length
  t5 ← generate_response_header t4 (codes "Content-Type") mime
  t6 ← generate_response_header t5 (codes "Last-modified") (site.last_modified path)
  t7 ← generate_response_header t6 connection (if last_req then close_text else keep_alive)
  generate_response_msg t7 clrf

-- The opening of the file, after its header was written.
unfoldable pub open_file : Site → HttpTask → CString → ℕ × HttpTask
open_file site t path = elim (site.fopen path) [
  | none ↦ (internal_server_error_num, t)
  | some f ↦ (ok_num, record t { fp = Ptr.live f })
]

-- The response code, the task, and the request, whose URI changes.
unfoldable pub generate_get_header :
    Site → HttpTask → Request → Bool → Outcome (ℕ × HttpTask × Request)
unfolding file_header open_file
generate_get_header site t r last_req = do
  (fullpath, uri) ← make_full_path site.www_dir r.http_uri
  let r' = record r { http_uri = uri }
  (if not (site.access fullpath)
      then ok (not_found_num, t, r')
      else (let (path, extension) = lower_extension fullpath in
          (do
            t' ← file_header site t path (get_mime_type extension) last_req
            let (code, t'') = open_file site t' path
            ok (code, t'', r'))))
