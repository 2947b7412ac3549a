-- ===== src/Tests/Connections.antt =====
-- Runs of src/server.c and of `handle_new_connection` of src/message.c.
use simle_http_server.Prelude.{
  ◌≡◌, refl, [], ◌∷◌, ◌≢◌, arith, ok, crash, undefined, out_of_fuel, some, pos, true, false,
}
use simle_http_server.Cbuf.{buf_reset}
use simle_http_server.Task.{live, null, freed, destroy_http_task}
use simle_http_server.Peer.{
  Peer, no_socket, close_client_connection, free_cgi_executor, reset_sending_buff,
  reset_receiving_buff,
}
use simle_http_server.Comm.{received, send_blocked}
use simle_http_server.Server.{accepted, handle_new_connection}
use simle_http_server.Server.Client.{Events, Globals}
use simle_http_server.Server.Select.{Server, Round, server_round, server_main}
use simle_http_server.Server.Slots.{filled, handle_new_connection_fills}
use simle_http_server.Server.Closing.{server_round_after_close}
use simle_http_server.Server.Table.{TableOk}
use simle_http_server.Server.Rounds.{RoundsEnd, server_main_safe}
use simle_http_server.Tests.Data.{
  no_bytes, new_task, peer_of, some_address, some_executor, some_site, some_site-Ends,
}

abbrev pub free_peer : Peer
free_peer = record (peer_of new_task) { socket = no_socket; http_task = null }

-- A client that sends two bytes and reads nothing.
abbrev pub talking : Events
talking = record {
  readable = λ _. true;
  writable = λ _. false;
  excepted = λ _. false;
  recv = λ _. received (71 ∷ 69 ∷ []);
  send = send_blocked;
  cgi_read = λ _. received [];
  cgi_write = send_blocked;
  site = some_site;
  block = no_bytes;
}

-- A round in which a client connects and sends.
abbrev pub arrival : Round
arrival = record {
  select_failed = false;
  listen_readable = true;
  stdin_excepted = false;
  listen_excepted = false;
  accepts = accepted (pos 5) some_address;
  task_block = some new_task;
  events = λ _. talking;
}

abbrev pub globals : Globals
globals = record { www_dir = some_site.www_dir; cgi_scripts = some_site.cgi_scripts }

arrivals-RoundsEnd : RoundsEnd (arrival ∷ arrival ∷ [])
arrivals-RoundsEnd = (λ _. some_site-Ends, (λ _. some_site-Ends, tt))

server_main_safe_example :
    (server_main globals
        (pos 3)
        (some new_task)
        (arrival ∷ arrival ∷ [])
        (free_peer ∷ free_peer ∷ [])
      ≢ crash out_of_fuel)
    × ((s : Server)
        → server_main globals
            (pos 3)
            (some new_task)
            (arrival ∷ arrival ∷ [])
            (free_peer ∷ free_peer ∷ [])
          ≡ ok s
        → TableOk s.connection_list)
server_main_safe_example =
    server_main_safe globals (pos 3) (some new_task) (arrival ∷ arrival ∷ [])
      (free_peer ∷ free_peer ∷ []) arrivals-RoundsEnd

handle_new_connection_fills_example :
    handle_new_connection
      (accepted (pos 9) some_address)
      (some new_task)
      (peer_of new_task ∷ free_peer ∷ [])
    ≡ ok (pos 0, peer_of new_task ∷ filled (pos 9) some_address new_task free_peer ∷ [])
handle_new_connection_fills_example =
    handle_new_connection_fills (pos 9) some_address new_task free_peer (peer_of new_task ∷ []) []
      (ground arith) refl

-- A connection whose script runs, and the slot after it is closed.
abbrev running : Peer
running = record (peer_of new_task) { cgi_executor = live some_executor }

abbrev closed : Peer
closed = record running {
  socket = no_socket;
  http_task = freed;
  cgi_executor = freed;
  sending_buffer = buf_reset no_bytes;
  receiving_buffer = buf_reset running.receiving_buffer;
}

closes : close_client_connection running ≡ ok closed
unfolding close_client_connection destroy_http_task free_cgi_executor reset_sending_buff
    reset_receiving_buff
closes = refl

server_round_after_close_example :
    server_round globals
      (pos 3)
      arrival
      (record { request = null; connection_list = free_peer ∷ closed ∷ [] })
    ≡ crash undefined
server_round_after_close_example =
    server_round_after_close globals (pos 3) arrival
      (record { request = null; connection_list = free_peer ∷ closed ∷ [] }) (free_peer ∷ []) []
      running closed some_executor refl closes refl
