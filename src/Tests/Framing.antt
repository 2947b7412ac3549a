-- ===== src/Tests/Framing.antt =====
-- The empty line for `parse` (src/parser/parse.c) and for `read_header_data` (src/http.c).
use simle_http_server.Prelude.{ℕ, ◌≡◌, refl, [], ◌∷◌, arith, ok, none, slice_of, get_or, List}
use simle_http_server.Cbuf.{Cbuf, exit_success}
use simle_http_server.Cbuf.Contents.{contents}
use simle_http_server.Task.{HttpTask, live}
use simle_http_server.Peer.{Peer}
use simle_http_server.Header.{read_header_data}
use simle_http_server.Parse
use simle_http_server.Parse.{parse, frame_loop, state_start}
use simle_http_server.Parse.Framing.{doubled, parse_agrees, parse_misses}
use simle_http_server.Tests.Data.{no_bytes, new_task, new_task-Reading, peer_of}

parse_agrees_example : parse (λ l. ok none) (65 ∷ 13 ∷ 10 ∷ 13 ∷ 10 ∷ []) ≡ ok none
parse_agrees_example =
    parse_agrees (λ l. ok none) (65 ∷ 13 ∷ 10 ∷ 13 ∷ []) 10 (ground arith) (omega arith)
      (ground arith) (omega arith)

framed : frame_loop state_start (65 ∷ []) 0 ≡ ok (state_start, 65 ∷ [])
unfolding frame_loop Parse.frame_state
framed = refl

-- A connection whose header has a doubled '\r', and one byte more.
abbrev header_bytes : List ℕ
header_bytes = 65 ∷ 13 ∷ 13 ∷ 10 ∷ 13 ∷ 10 ∷ 71 ∷ []

abbrev header_peer : Peer
header_peer = record (peer_of new_task) {
  receiving_buffer = record no_bytes {
    bytes = λ i. get_or header_bytes i 0;
    head = 7;
    num_byte = 7;
  };
}

parse_misses_example :
    (t' : HttpTask) × (c' : Cbuf) × (read_header_data header_peer
      ≡ ok (exit_success, record header_peer { http_task = live t'; receiving_buffer = c' }))
    × (contents c' ≡ 71 ∷ [])
    × (slice_of t'.parse_buf 0 t'.parse_buf_idx ≡ 65 ∷ doubled)
    × (parse (λ l. ok none) (slice_of t'.parse_buf 0 t'.parse_buf_idx) ≡ ok none)
parse_misses_example =
    parse_misses (λ l. ok none) header_peer new_task (65 ∷ []) (71 ∷ []) refl new_task-Reading
      (ground arith) refl (ground arith) (omega arith) framed
