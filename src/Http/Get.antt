-- ===== src/Http/Get.antt =====
-- A GET request for a file in `handle_http` (src/http.c), from the look at its URI to its last byte.
use simle_http_server.Prelude.{
  ℕ, suc, ◌+◌, ◌≤◌, ◌≡◌, refl, sym, ap, ◌∙◌, List, [], ◌∷◌, ◌++◌, false, arith, Outcome, ok, length,
  length-append, append_assoc, pos,
}
use simle_http_server.Cbuf.{Cbuf, buf_data_maxsize}
use simle_http_server.Cbuf.Valid.{IsValid}
use simle_http_server.Cbuf.Contents.{contents, length-contents}
use simle_http_server.Task.{
  live, freed, HttpTask, FileStream, reset_http_task, send_header_state, send_body_state,
  finished_state, get_method,
}
use simle_http_server.Peer.{CString}
use simle_http_server.Parse.{Request}
use simle_http_server.Site.{Site}
use simle_http_server.Response.{ok_num}
use simle_http_server.Http.{World, with_task, keep_conn}
use simle_http_server.Http.Handle.{handle_loop}
use simle_http_server.Http.Shared.{loop_round}
use simle_http_server.Http.GetRounds.{
  Found, found_text, serve_round, header_round, file_round, finish_round,
}

-- What a run of the handler comes to that sends `text`.
abbrev pub Sends : World → List ℕ → Outcome (ℕ × World) → Type 0
Sends w text out =
    (t' : HttpTask) × (s : Cbuf) × (out
      ≡ ok (
        keep_conn,
        record {
          request = freed;
          peer = record w.peer { http_task = live (reset_http_task t'); sending_buffer = s };
        },
      ))
    × (contents s ≡ contents w.peer.sending_buffer ++ text)
    × IsValid s

-- The rounds from a header that is written on.
send_rounds :
    (site : Site) (block : Cbuf) (fuel : ℕ) (w : World) (t : HttpTask) (r : Request)
    (f : FileStream) (text : List ℕ)
    → w.peer.http_task ≡ live t
    → w.request ≡ live r
    → t.state ≡ send_header_state
    → t.response_code ≡ pos ok_num
    → t.method_type ≡ get_method
    → t.fp ≡ live f
    → f.fails ≡ false
    → IsValid t.response_buf
    → contents t.response_buf ≡ text
    → IsValid w.peer.sending_buffer
    → w.peer.sending_buffer.num_byte + length text + length f.rest + 1 ≤ buf_data_maxsize
    → Sends w (text ++ (f.rest ++ (255 ∷ []))) (handle_loop site block (suc (suc (suc fuel))) w)
send_rounds site block fuel w t r f text e req st code m fp reads v held vs fits =
    let count : t.response_buf.num_byte ≡ length text =
      sym (length-contents t.response_buf) ∙ ap length held in
    let (rb, s2, v2, moved, sent) =
      header_round site block w t e st code m v vs (omega (arith, count)) in
    let t2 = record t { response_buf = rb; state = send_body_state } in
    let w2 = record w { peer = record w.peer { http_task = live t2; sending_buffer = s2 } } in
    let count2 : s2.num_byte ≡ w.peer.sending_buffer.num_byte + length text =
      sym (length-contents s2)
      ∙ ap length (moved ∙ ap (λ l. contents w.peer.sending_buffer ++ l) held)
      ∙ length-append (contents w.peer.sending_buffer) text
      ∙ ap (λ n. n + length text) (length-contents w.peer.sending_buffer) in
    let (s3, v3, streamed, ended) =
      file_round site block w2 t2 f refl refl m fp reads v2 (omega (arith, count2)) in
    let t3 = record t2 { fp = freed; state = finished_state } in
    let w3 = record w2 { peer = record w2.peer { http_task = live t3; sending_buffer = s3 } } in
    (
      t3,
      s3,
      loop_round site block (suc (suc fuel)) w t w2 e (ground (arith, st)) sent
          ∙ loop_round site block (suc fuel) w2 t2 w3 refl (ground arith) ended
          ∙ finish_round site block fuel w3 t3 r refl refl req,
      streamed
          ∙ ap (λ l. l ++ (f.rest ++ (255 ∷ [])))
              (moved ∙ ap (λ l. contents w.peer.sending_buffer ++ l) held)
          ∙ append_assoc (contents w.peer.sending_buffer) text (f.rest ++ (255 ∷ [])),
      v3,
    )

-- The rounds of a GET request from the look at its URI on.
pub get_rounds :
    (site : Site) (block : Cbuf) (fuel : ℕ) (w : World) (t : HttpTask) (r : Request)
    (path : CString) (f : FileStream) (k : Found site w t r path f)
    → IsValid t.response_buf
    → t.response_buf.num_byte ≡ 0
    → IsValid w.peer.sending_buffer
    → w.peer.sending_buffer.num_byte
        + length (found_text site t k.file.full path)
        + length f.rest
        + 1
      ≤ buf_data_maxsize
    → Sends w
        (found_text site t k.file.full path ++ (f.rest ++ (255 ∷ [])))
        (handle_loop site block (suc (suc (suc (suc fuel)))) w)
get_rounds site block fuel w t r path f k v none_yet vs fits =
    let text = found_text site t k.file.full path in
    let (buf, vb, held, served) = serve_round site block w t r path f k v (omega arith) in
    let t1 = record t {
      response_buf = buf;
      fp = live f;
      response_code = pos ok_num;
      state = send_header_state;
    } in
    let r1 = record r { http_uri = k.file.uri } in
    let w1 = with_task (record w { request = live r1 }) t1 in
    let empty : contents t.response_buf ≡ [] = rw none_yet in
    let (t3, s3, ran, holds, v3) =
      send_rounds site block fuel w1 t1 r1 f text refl refl refl refl k.method refl k.file.reads vb
        (held ∙ ap (λ l. l ++ text) empty) vs fits in
    (
      t3,
      s3,
      loop_round site block (suc (suc (suc fuel))) w t w1 k.task (ground (arith, k.state)) served
          ∙ ran,
      holds,
      v3,
    )
