-- ===== src/Http.antt =====
-- `handle_http` of src/http.c: a state machine over a peer's task, one function for each state, and the
-- loop that runs it.
pub mod GetHeader
pub mod Steps
pub mod Handle
pub mod Diagram
pub mod Invariant
pub mod Fresh
pub mod Receiving
pub mod Body
pub mod Writing
pub mod Sending
pub mod Ends
pub mod Checking
pub mod Total
pub mod Edges
pub mod Shared
pub mod FileHeader
pub mod GetRounds
pub mod Get
pub mod Incoming
pub mod WholeGet
pub mod PostBody
use simle_http_server.Task.{Ptr, HttpTask}
use simle_http_server.Peer.{Peer}
use simle_http_server.Parse.{Request}
use simle_http_server.Prelude.{ℕ}

-- What the handler reads and writes: the global `request`, which all peers share, and a peer.
pub record World : Type 0 where
  pub request : Ptr Request
  pub peer : Peer

-- A round of the loop goes on, or the handler returns.
pub data Flow : Type 0 where
  continue : World → Flow
  return : ℕ → World → Flow

abbrev pub close_conn_code : ℕ
close_conn_code = 0

abbrev pub close_conn_immediately : ℕ
close_conn_immediately = 1

abbrev pub keep_conn : ℕ
keep_conn = 2

-- The world with another task of the peer.
abbrev pub with_task : World → HttpTask → World
with_task w t = record w { peer = record w.peer { http_task = Ptr.live t } }
