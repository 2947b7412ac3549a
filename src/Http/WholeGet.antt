-- ===== src/Http/WholeGet.antt =====
-- A whole GET request in `handle_http` (src/http.c), from the bytes that were received to the last byte of
-- the response, with the parser of src/parser.
use simle_http_server.Prelude.{
  ℕ, ◌+◌, ◌≤◌, ◌≡◌, refl, ap, ◌∙◌, List, [], ◌∷◌, ◌++◌, Bool, true, arith, ok, length,
}
use simle_http_server.Cbuf.{Cbuf, buf_data_maxsize}
use simle_http_server.Cbuf.Valid.{IsValid}
use simle_http_server.Cbuf.Contents.{contents}
use simle_http_server.Task.{live, freed, HttpTask, FileStream, reset_http_task}
use simle_http_server.Peer.{CString}
use simle_http_server.Text.{codes}
use simle_http_server.Parse.{Request}
use simle_http_server.Parse.Yacc.{yyparse}
use simle_http_server.Parse.RoundTrip.{print, IsWritten}
use simle_http_server.Site.{Site}
use simle_http_server.Http.{World, keep_conn}
use simle_http_server.Http.Handle.{handle_http}
use simle_http_server.Http.Shared.{loop_round, handle_live}
use simle_http_server.Http.GetRounds.{Served, Found, found_text}
use simle_http_server.Http.Get.{get_rounds}
use simle_http_server.Http.Incoming.{Idle, got, request_round}

text_kept :
    (site : Site) (t t' : HttpTask) (r : Request) (full path : CString)
    → t'.last_request ≡ t.last_request
    → found_text site (got t' r) full path ≡ found_text site (got t r) full path
text_kept site t t' r full path same = rw same refl

-- A GET request as it is written, of which the bytes `before` were read in earlier calls and the last
-- bytes are at the front of the receiving buffer, for a file that there is, with the parser of src/parser
-- and memory for the headers. Else the task is idle, its response buffer is empty, the request takes at
-- most 8192 bytes and the sending buffer has room for the response. One call of `handle_http` then takes
-- just the bytes of the request, appends the response header, the bytes of the file and a byte 255 to the
-- sending buffer, resets the task, frees the request and returns KEEP_CONN.
pub handle_http_whole_get :
    (site : Site) (block : Cbuf) (w : World) (t : HttpTask) (r : Request) (path : CString)
    (f : FileStream) (realloc : ℕ → Bool) (before l extra : List ℕ) (k : Served site r path f)
    → w.peer.http_task ≡ live t
    → Idle t before
    → IsValid w.peer.receiving_buffer
    → contents w.peer.receiving_buffer ≡ l ++ extra
    → print r ≡ before ++ l
    → site.yyparse ≡ yyparse realloc
    → ((size : ℕ) → realloc size ≡ true)
    → IsWritten r
    → length (print r) ≤ buf_data_maxsize
    → r.http_method ≡ codes "GET"
    → IsValid t.response_buf
    → t.response_buf.num_byte ≡ 0
    → IsValid w.peer.sending_buffer
    → w.peer.sending_buffer.num_byte
        + length (found_text site (got t r) k.full path)
        + length f.rest
        + 1
      ≤ buf_data_maxsize
    → (t' : HttpTask) × (c : Cbuf) × (s : Cbuf) × (handle_http site block w
        ≡ ok (
          keep_conn,
          record {
            request = freed;
            peer = record w.peer {
              http_task = live (reset_http_task t');
              receiving_buffer = c;
              sending_buffer = s;
            };
          },
        ))
      × (contents c ≡ extra)
      × (contents s
          ≡ contents w.peer.sending_buffer
            ++ (found_text site (got t r) k.full path ++ (f.rest ++ (255 ∷ []))))
      × IsValid c
      × IsValid s
handle_http_whole_get site block w t r path f realloc before l extra k e idle v holds whole parser
      always written fits get vr none_yet vs room =
    let (t1, c, round, left, vc, kept) =
      request_round site block w t r realloc before l extra e idle v holds whole parser always
        written fits get in
    let w1 : World = record {
      request = live r;
      peer = record w.peer { http_task = live (got t1 r); receiving_buffer = c };
    } in
    let found : Found site w1 (got t1 r) r path f = record {
      task = refl;
      request = refl;
      state = refl;
      method = refl;
      file = k;
    } in
    let text = text_kept site t t1 r k.full path (ap (λ x. x.last_request) kept) in
    let buffer : t1.response_buf ≡ t.response_buf = ap (λ x. x.response_buf) kept in
    let (t', s, ran, sent, vs') =
      get_rounds site block 2 w1 (got t1 r) r path f found (rw buffer vr) (rw buffer none_yet) vs
        (omega (arith, room, ap length text)) in
    (
      t',
      c,
      s,
      handle_live site block w t e (ground (arith, idle.state))
          ∙ loop_round site block 6 w t w1 e (ground (arith, idle.state)) round
          ∙ ran,
      left,
      sent ∙ ap (λ x. contents w.peer.sending_buffer ++ (x ++ (f.rest ++ (255 ∷ [])))) text,
      vc,
      vs',
    )
