-- ===== src/Server/Client.antt =====
-- A client's part of a round in src/server.c. What `select` found and what the calls do is an argument.
use simle_http_server.Prelude.{
  ℕ, [], Bool, true, false, not, ◌&&◌, ◌||◌, Option, Outcome, ok, ◌>>=◌, ◌==◌, if◌then◌else◌, ℤ,
  int_eq,
}
use simle_http_server.Cbuf.{Cbuf, buf_empty, exit_success, exit_failure}
use simle_http_server.Task.{Ptr, deref, is_null}
use simle_http_server.Peer.{CString, Peer, no_socket, close_client_connection}
use simle_http_server.Parse.{Request}
use simle_http_server.Comm.{
  Received, Sent, receive_from_peer, send_to_peer, send_to_cgi_process,
  pipe_from_cgi_process_to_client, echo_received_message,
}
use simle_http_server.Site.{Site}
use simle_http_server.Http.{World, close_conn_code, close_conn_immediately}
use simle_http_server.Http.Handle.{handle_http}
use simle_http_server.Server.{close_if}

-- What `select` found, by descriptor, and what the calls of a client's round do. `site` has those of the
-- handler, `block` the memory that malloc gives for the buffer of a script.
pub record Events : Type 0 where
  pub readable : ℤ → Bool
  pub writable : ℤ → Bool
  pub excepted : ℤ → Bool
  pub recv : ℕ → Received
  pub send : Sent
  pub cgi_read : ℕ → Received
  pub cgi_write : Sent
  pub site : Site
  pub block : Cbuf

-- The globals that the command line sets.
pub record Globals : Type 0 where
  pub www_dir : CString
  pub cgi_scripts : Option CString

-- What the handler finds in a client's round.
abbrev pub site_of : Globals → Events → Site
site_of g ev = record ev.site { www_dir = g.www_dir; cgi_scripts = g.cgi_scripts }

-- The bytes to and from the CGI process. After a failed write the connection is closed, and the
-- executor is read again.
unfoldable pub serve_cgi : Events → Peer → Outcome Peer
serve_cgi ev p =
    if not (is_null p.cgi_executor)
    then (do
      e ← deref p.cgi_executor
      (wrote, _, p1) ←
          if ev.writable e.stdin_pipe
          then send_to_cgi_process p ev.cgi_write
          else ok (exit_success, [], p)
      p2 ← close_if (wrote == exit_failure) p1
      e' ← deref p2.cgi_executor
      (piped, p3) ←
          if ev.readable e'.stdout_pipe
          then pipe_from_cgi_process_to_client p2 ev.cgi_read
          else ok (exit_success, p2)
      close_if (piped == exit_failure) p3)
    else ok p

-- How far a client's round got: it goes on with what was done, or it is over.
pub data Stage : Type 0 where
  going : Bool → Peer → Stage
  over : Peer → Stage

abbrev pub closing : Peer → Outcome Stage
closing p = do q ← close_client_connection p; ok (over q)

-- Receiving; the flag is `has_read`.
unfoldable pub serve_receive : Events → Peer → Outcome Stage
serve_receive ev p =
    if not (int_eq p.socket no_socket)
    then if ev.readable p.socket
      then (do
        (ret, p') ← receive_from_peer p echo_received_message ev.recv
        (if ret == exit_success then ok (going true p') else closing p'))
      else ok (going (not (buf_empty p.receiving_buffer)) p)
    else ok (going false p)

-- Sending; the flag is `has_read || has_sent`.
unfoldable pub serve_send : Events → Bool → Peer → Outcome Stage
serve_send ev has_read p =
    if not (int_eq p.socket no_socket) && ev.writable p.socket
    then (do
      (ret, _, p') ← send_to_peer p ev.send
      (if ret == exit_failure then closing p' else ok (going (has_read || ret == exit_success) p')))
    else ok (going has_read p)

unfoldable pub serve_except : Events → Bool → Peer → Outcome Stage
serve_except ev active p =
    if not (int_eq p.socket no_socket) && ev.excepted p.socket
    then closing p
    else ok (going active p)

-- The HTTP handler.
unfoldable pub serve_http : Globals → Events → Ptr Request → Bool → Peer → Outcome World
serve_http g ev request active p =
    if active
    then (do
      (ret, w) ← handle_http (site_of g ev) ev.block (record { request = request; peer = p })
      (if ret == close_conn_immediately
          then (do q ← close_client_connection w.peer; ok (record w { peer = q }))
          else if ret == close_conn_code
          then ok (record w { peer = record w.peer { close_conn = true } })
          else ok w))
    else ok (record { request = request; peer = p })

abbrev pub then_stage : Stage → (Bool → Peer → Outcome Stage) → Outcome Stage
then_stage (going active p) next = next active p
then_stage (over p) next = ok (over p)

unfoldable pub last_stage : Globals → Events → World → Stage → Outcome World
unfolding serve_http
last_stage g ev w (going active q) = serve_http g ev w.request active q
last_stage g ev w (over q) = ok (record w { peer = q })

-- The body of the loop over the clients.
unfoldable pub serve_client : Globals → Events → World → Outcome World
unfolding serve_cgi serve_receive serve_send serve_except last_stage
serve_client g ev w = do
  p ← serve_cgi ev w.peer
  s1 ← serve_receive ev p
  s2 ← then_stage s1 (serve_send ev)
  s3 ← then_stage s2 (serve_except ev)
  last_stage g ev w s3
