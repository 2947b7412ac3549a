-- ===== src/Http/Invariant.antt =====
-- What holds of a peer and its task between two rounds of `handle_http` (src/http.c).
use simle_http_server.Prelude.{ℕ, ◌≡◌, List, ◌⊎◌}
use simle_http_server.Cbuf.Valid.{IsValid}
use simle_http_server.Task.{live, HttpTask, recv_header_state, processing_cgi}
use simle_http_server.Peer.{Peer}
use simle_http_server.Header.Reading.{Reading}
use simle_http_server.Http.Diagram.{◌⟶◌}
use simle_http_server.Http.{World, Flow, continue, return, close_conn_immediately, close_conn_code}

-- The three buffers are well formed, and a task that receives a header is in the middle of one.
pub record TaskOk (p : Peer) (t : HttpTask) : Type 0 where
  pub task : p.http_task ≡ live t
  pub receiving : IsValid p.receiving_buffer
  pub sending : IsValid p.sending_buffer
  pub response : IsValid t.response_buf
  pub header : t.state ≡ recv_header_state → (h : List ℕ) × Reading t h

abbrev pub PeerOk : Peer → Type 0
PeerOk p = (t : HttpTask) × TaskOk p t

-- What a return leaves: the connection is to be closed at once, or the peer is ready for the next call;
-- and CLOSE_CONN is returned by a start of a script alone.
abbrev pub Handled : ℕ × World → Type 0
Handled (code, w) =
    (code ≡ close_conn_immediately)
    ⊎ (t : HttpTask) × TaskOk w.peer t × (code ≡ close_conn_code → t.state ≡ processing_cgi)

-- A round that starts in the state `s` goes on along an edge of the diagram, or it returns.
abbrev pub Goes : ℕ → Flow → Type 0
Goes s (continue w) = (t : HttpTask) × TaskOk w.peer t × (s ⟶ t.state)
Goes s (return code w) = Handled (code, w)
