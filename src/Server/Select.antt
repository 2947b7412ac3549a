-- ===== src/Server/Select.antt =====
-- The endless loop of `main` in src/server.c, round by round. What a round meets (what `select`, `accept` and the
-- calls for each client do in it) is an argument.
use simle_http_server.Prelude.{
  ℕ, ◌+◌, List, [], ◌∷◌, Bool, ◌||◌, Outcome, ok, crash, exited, ◌>>=◌, if◌then◌else◌, ℤ, Option,
}
use simle_http_server.Task.{Ptr, null, HttpTask}
use simle_http_server.Peer.{Peer}
use simle_http_server.Parse.{Request}
use simle_http_server.Server.{
  Accepted, handle_new_connection, init_peers, highest, build_fd_sets, close_all,
}
use simle_http_server.Server.Client.{Events, Globals, serve_client}

-- The globals: the request that is being handled, and the table of connections.
pub record Server : Type 0 where
  pub request : Ptr Request
  pub connection_list : List Peer

-- The loop over the clients: client `i` meets `events i`.
unfoldable pub serve_clients : Globals → (ℕ → Events) → ℕ → Ptr Request → List Peer → Outcome Server
serve_clients g events i request [] = ok (record { request = request; connection_list = [] })
serve_clients g events i request (p ∷ ps) = do
  w ← serve_client g (events i) (record { request = request; peer = p })
  s ← serve_clients g events (i + 1) w.request ps
  ok (record s { connection_list = w.peer ∷ s.connection_list })

-- What a round meets. `task_block` is the memory for the task of a new connection.
pub record Round : Type 0 where
  pub select_failed : Bool
  pub listen_readable : Bool
  pub stdin_excepted : Bool
  pub listen_excepted : Bool
  pub accepts : Accepted
  pub task_block : Option HttpTask
  pub events : ℕ → Events

-- `server_shutdown_properly`
unfoldable pub server_shutdown_properly : List Peer → Outcome Server
server_shutdown_properly ps = do _ ← close_all ps; crash exited

-- The default case of the `switch`; the case of a timeout falls through to it.
unfoldable pub serve_selected : Globals → Round → Server → Outcome Server
unfolding server_shutdown_properly serve_clients
serve_selected g r s = do
  ps ←
      if r.listen_readable
      then (do (_, qs) ← handle_new_connection r.accepts r.task_block s.connection_list; ok qs)
      else ok s.connection_list
  (if r.stdin_excepted || r.listen_excepted
      then server_shutdown_properly ps
      else serve_clients g r.events 0 s.request ps)

unfoldable pub server_round : Globals → ℤ → Round → Server → Outcome Server
unfolding serve_selected server_shutdown_properly
server_round g listen_sock r s = do
  _ ← build_fd_sets listen_sock s.connection_list
  _ ← highest listen_sock s.connection_list
  (if r.select_failed then server_shutdown_properly s.connection_list else serve_selected g r s)

-- The rounds of a run, one after another.
unfoldable pub server_rounds : Globals → ℤ → List Round → Server → Outcome Server
unfolding server_round
server_rounds g listen_sock [] s = ok s
server_rounds g listen_sock (r ∷ rs) s = do
  s' ← server_round g listen_sock r s
  server_rounds g listen_sock rs s'

-- `main`, from the table as the process finds it.
unfoldable pub server_main : Globals → ℤ → Option HttpTask → List Round → List Peer → Outcome Server
unfolding server_rounds
server_main g listen_sock task_block rs ps = do
  qs ← init_peers task_block ps
  server_rounds g listen_sock rs (record { request = null; connection_list = qs })
