-- ===== src/Server.antt =====
-- src/server.c and `handle_new_connection` of src/message.c: the table of connections, the rounds of the
-- loop in `main`, and the shutdown. What `select` found and what the calls of a round do are arguments.
pub mod Client
pub mod Select
pub mod Slot
pub mod Script
pub mod Safety
pub mod Table
pub mod Rounds
pub mod Slots
pub mod Closing
use simle_http_server.Prelude.{
  ℕ, zero, suc, List, [], ◌∷◌, Bool, true, false, not, ◌&&◌, ◌||◌, Option, none, some, Outcome, ok,
  crash, undefined, assertion, ◌>>=◌, ◌>>◌, ◌==◌, ltb, if◌then◌else◌, ℤ, pos, negsuc, int_eq,
}
use simle_http_server.Cbuf.{Cbuf, buf_empty, exit_success, exit_failure}
use simle_http_server.Task.{Ptr, live, null, freed, deref, is_null, HttpTask, create_http_task}
use simle_http_server.Peer.{
  Peer, Address, CgiExecutor, no_socket, create_peer, close_client_connection,
}
use simle_http_server.Parse.{Request}
use simle_http_server.Comm.{
  Received, Sent, receive_from_peer, send_to_peer, send_to_cgi_process,
  pipe_from_cgi_process_to_client, echo_received_message,
}
use simle_http_server.Site.{Site}
use simle_http_server.Http.{World, close_conn_code, close_conn_immediately}
use simle_http_server.Http.Handle.{handle_http}

-- `a > b` on int.
abbrev pub int_gt : ℤ → ℤ → Bool
int_gt (pos a) (pos b) = ltb b a
int_gt (pos a) (negsuc b) = true
int_gt (negsuc a) (pos b) = false
int_gt (negsuc a) (negsuc b) = ltb a b

-- `MAX(a, b)`
abbrev pub int_max : ℤ → ℤ → ℤ
int_max a b = if int_gt a b then a else b

-- What `accept` and the calls of `fcntl` do.
pub data Accepted : Type 0 where
  accept_failed : Accepted
  get_flags_failed : Accepted
  set_flags_failed : Accepted
  accepted : ℤ → Address → Accepted

-- The search for a free slot: whether there was one, and the table.
unfoldable pub fill_slot : ℤ → Address → Option HttpTask → List Peer → Outcome (Bool × List Peer)
fill_slot sock addr block [] = ok (false, [])
fill_slot sock addr block (p ∷ ps) =
    let rest = fill_slot sock addr block ps in
    if int_eq p.socket no_socket
    then (do
      task ← create_http_task block
      ok (
        true,
        record p { socket = sock; addres = addr; close_conn = false; http_task = live task } ∷ ps,
      ))
    else (do (found, qs) ← rest; ok (found, p ∷ qs))

-- The value returned, and the table. `return false` is 0.
unfoldable pub handle_new_connection :
    Accepted → Option HttpTask → List Peer → Outcome (ℤ × List Peer)
unfolding fill_slot
handle_new_connection accept_failed block ps = ok (negsuc 0, ps)
handle_new_connection get_flags_failed block ps = ok (pos 0, ps)
handle_new_connection set_flags_failed block ps = crash assertion
handle_new_connection (accepted sock addr) block ps = do
  (found, qs) ← fill_slot sock addr block ps
  ok ((if found then pos 0 else negsuc 0), qs)

-- The first loop of `main`, for the slots of the table.
unfoldable pub init_peers : Option HttpTask → List Peer → Outcome (List Peer)
init_peers block [] = ok []
init_peers block (p ∷ ps) = do
  q ← create_peer block (record p { socket = no_socket })
  qs ← init_peers block ps
  ok (q ∷ qs)

-- The highest descriptor, which `select` is given.
unfoldable pub highest : ℤ → List Peer → Outcome ℤ
highest high [] = ok high
highest high (p ∷ ps) =
    let h = if int_gt p.socket high then p.socket else high in
    if not (is_null p.cgi_executor)
    then (do e ← deref p.cgi_executor; highest (int_max e.stdout_pipe (int_max e.stdin_pipe h)) ps)
    else highest h ps

-- The three sets of descriptors.
pub record FdSets : Type 0 where
  pub read_fds : List ℤ
  pub write_fds : List ℤ
  pub except_fds : List ℤ

-- The loop of `build_fd_sets`.
unfoldable pub add_fds : FdSets → List Peer → Outcome FdSets
add_fds sets [] = ok sets
add_fds sets (p ∷ ps) =
    if not (int_eq p.socket no_socket)
    then (let s = record sets {
      read_fds = p.socket ∷ sets.read_fds;
      write_fds = p.socket ∷ sets.write_fds;
    } in
        if not (is_null p.cgi_executor)
        then (do
          e ← deref p.cgi_executor
          add_fds
              (record s {
                write_fds = e.stdin_pipe ∷ s.write_fds;
                read_fds = e.stdout_pipe ∷ s.read_fds;
              })
              ps)
        else add_fds s ps)
    else add_fds sets ps

unfoldable pub build_fd_sets : ℤ → List Peer → Outcome FdSets
unfolding add_fds
build_fd_sets listen_sock ps =
    add_fds (record { read_fds = listen_sock ∷ []; write_fds = []; except_fds = listen_sock ∷ [] })
      ps

abbrev pub close_if : Bool → Peer → Outcome Peer
close_if true p = close_client_connection p
close_if false p = ok p

-- `server_shutdown_properly`, up to the call of exit.
unfoldable pub close_all : List Peer → Outcome (List Peer)
close_all [] = ok []
close_all (p ∷ ps) = do
  q ← close_if (not (int_eq p.socket no_socket)) p
  qs ← close_all ps
  ok (q ∷ qs)
