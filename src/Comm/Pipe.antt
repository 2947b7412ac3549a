-- ===== src/Comm/Pipe.antt =====
-- `pipe_from_CGI_process_to_client` of src/message.c.
use simle_http_server.Prelude.{
  ℕ, ◌+◌, ◌≤◌, ◌≡◌, refl, arith, ok, length, ◌≢◌, List, [], ◌∷◌, ◌++◌, append-nil, append_assoc,
  length-append,
}
use simle_http_server.Cbuf.{Cbuf, buf_available, buf_put, exit_success, buf_data_maxsize}
use simle_http_server.Cbuf.Valid.{IsValid, available_lem, full_lem, buf_put-IsValid}
use simle_http_server.Cbuf.Contents.{contents, length-contents, contents-put}
use simle_http_server.Peer.{Peer}
use simle_http_server.Comm.{Received, received, pipe_from_cgi_process_to_client, put_all}
use simle_http_server.Comm.Receive.{IsBounded}

put_all_lem :
    (bs : List ℕ) {c : Cbuf}
    → IsValid c
    → c.num_byte + length bs ≤ buf_data_maxsize
    → (contents (put_all c bs) ≡ contents c ++ bs) × IsValid (put_all c bs)
unfolding put_all
put_all_lem [] {c} v h = (rw append-nil, v)
put_all_lem (b ∷ bs) {c} v h =
    let (e0, e1) = contents-put b v in
    let n1 = length-contents (buf_put c b).1 in
    let n0 = length-append (contents c) (b ∷ []) in
    let ih = put_all_lem bs (buf_put-IsValid b v) in
    ground (arith, length-contents c, append_assoc (contents c) (b ∷ []) bs)

-- Bytes from the CGI process are appended to the sending buffer, all of them and in order.
pub pipe_from_cgi_appends :
    (p : Peer) (read : ℕ → Received) (bs : List ℕ)
    → IsValid p.sending_buffer
    → p.sending_buffer.num_byte ≢ buf_data_maxsize
    → IsBounded read
    → read (buf_available p.sending_buffer) ≡ received bs
    → bs ≢ []
    → let after = put_all p.sending_buffer bs in
      (pipe_from_cgi_process_to_client p read
        ≡ ok (exit_success, record p { sending_buffer = after }))
      × (contents after ≡ contents p.sending_buffer ++ bs)
      × IsValid after
unfolding pipe_from_cgi_process_to_client
pipe_from_cgi_appends p read [] v room bounded e ne = absurd (ne refl)
pipe_from_cgi_appends p read (b ∷ bs) v room bounded e ne =
    let fits = bounded (buf_available p.sending_buffer) (b ∷ bs) e in
    let held = put_all_lem (b ∷ bs) v in
    (ground (arith, full_lem v), ground (arith, available_lem v), ground (arith, available_lem v))
