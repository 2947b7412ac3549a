-- ===== src/Tests/Process.antt =====
-- A request from its bytes to its response (src/http.c), and runs of the whole process (src/server.c,
-- src/utility.c).
use simle_http_server.Prelude.{
  ℕ, ◌+◌, ◌≤◌, ◌≡◌, ◌≢◌, ◌↔◌, ◌⊎◌, refl, List, [], ◌∷◌, ◌++◌, arith, true, false, some, ok, crash,
  out_of_fuel, length, get_or, drop, pos,
}
use simle_http_server.Cbuf.{Cbuf, buf_data_maxsize}
use simle_http_server.Cbuf.Valid.{IsValid}
use simle_http_server.Cbuf.Contents.{contents}
use simle_http_server.Task.{
  live, freed, null, HttpTask, reset_http_task, recv_body_state, check_cgi,
}
use simle_http_server.Peer.{CString}
use simle_http_server.Text
use simle_http_server.Text.{codes, decimal}
use simle_http_server.Path.{lower_extension}
use simle_http_server.Cgi
use simle_http_server.Parse.RoundTrip.{print}
use simle_http_server.Http.{World, continue, with_task, keep_conn}
use simle_http_server.Http.Steps
use simle_http_server.Http.Handle.{step, handle_http}
use simle_http_server.Http.Diagram.{◌⟶◌}
use simle_http_server.Http.Invariant.{TaskOk}
use simle_http_server.Http.Edges.{step-⟶}
use simle_http_server.Http.GetRounds.{found_text}
use simle_http_server.Http.Incoming.{Idle, got, handle_http_part}
use simle_http_server.Http.WholeGet.{handle_http_whole_get}
use simle_http_server.Server.Table.{TableOk}
use simle_http_server.Server.Select.{Server}
use simle_http_server.Startup.{
  by_default, in_child, Network, start_listen_socket, Machine, server_process,
}
use simle_http_server.Startup.Main.{HasFolder, server_process_safe}
use simle_http_server.Startup.Failures.{start_listen_socket_lem}
use simle_http_server.Tests.Data.{
  no_bytes, no_bytes-IsValid, new_task, new_task-Reading, peer_of, two_bytes-IsValid,
  some_site-Ends, some_file, some_site,
}
use simle_http_server.Tests.Connections.{arrival, free_peer}
use simle_http_server.Tests.Files.{file_site, file_request, file_served}
use simle_http_server.Tests.Requests.{page_request-IsWritten}

abbrev early : List ℕ
early = codes "GET "

abbrev late : List ℕ
late = drop 4 (print file_request)

-- A buffer with the given bytes.
abbrev holding : List ℕ → Cbuf
holding l = record no_bytes { bytes = λ i. get_or l i 0; head = length l; num_byte = length l }

-- The last bytes of the request and one byte of the next.
abbrev arrived : Cbuf
arrived = holding (late ++ b'G' ∷ [])

arrived-IsValid : IsValid arrived
arrived-IsValid = ground arith

-- A task that has read the first bytes.
abbrev early_task : HttpTask
early_task = record new_task { parse_buf = λ i. get_or early i 0; parse_buf_idx = 4 }

early_task-Idle : Idle early_task early
early_task-Idle = record {
  state = refl;
  code = refl;
  last = refl;
  method = refl;
  reading = record {
    unended = ground arith;
    count = refl;
    room = omega arith;
    stored = ground arith;
    status = refl;
  };
}

abbrev served : World
served = record {
  request = null;
  peer = record (peer_of early_task) { receiving_buffer = arrived };
}

new_task-Idle : Idle new_task []
new_task-Idle = record {
  state = refl;
  code = refl;
  last = refl;
  method = refl;
  reading = new_task-Reading;
}

abbrev asked : World
asked = record {
  request = null;
  peer = record (peer_of new_task) { receiving_buffer = holding early };
}

handle_http_part_example :
    (t' : HttpTask) × (c : Cbuf) × (handle_http file_site no_bytes asked
      ≡ ok (
        keep_conn,
        record asked { peer = record asked.peer { http_task = live t'; receiving_buffer = c } },
      ))
    × (contents c ≡ [])
    × IsValid c
    × Idle t' early
    × (t'.response_buf ≡ no_bytes)
handle_http_part_example =
    handle_http_part file_site no_bytes asked new_task file_request [] early late refl new_task-Idle
      (ground arith) refl (λ e. cc) refl page_request-IsWritten (omega arith)

abbrev whole_text : CString
whole_text =
    found_text file_site (got early_task file_request) (codes "www/a.HTML") (codes "www/a.html")

whole_fits : 0 + length whole_text + 2 + 1 ≤ buf_data_maxsize
unfolding decimal Text.digits Text.get_mime_type Text.str_eq lower_extension Text.get_filename_ext
    Text.last_index Text.str_tolower Text.to_lower Cgi.get_header_value Cgi.find_header
whole_fits = omega arith

handle_http_whole_get_example :
    (t' : HttpTask) × (c : Cbuf) × (s : Cbuf) × (handle_http file_site no_bytes served
      ≡ ok (
        keep_conn,
        record {
          request = freed;
          peer = record served.peer {
            http_task = live (reset_http_task t');
            receiving_buffer = c;
            sending_buffer = s;
          };
        },
      ))
    × (contents c ≡ b'G' ∷ [])
    × (contents s ≡ contents no_bytes ++ (whole_text ++ (1 ∷ 2 ∷ 255 ∷ [])))
    × IsValid c
    × IsValid s
handle_http_whole_get_example =
    handle_http_whole_get file_site no_bytes served early_task file_request (codes "www/a.html")
      some_file (λ _. true) early late (b'G' ∷ []) file_served refl early_task-Idle arrived-IsValid
      refl refl refl (λ _. refl) page_request-IsWritten (omega arith) refl no_bytes-IsValid refl
      no_bytes-IsValid whole_fits

-- A task whose body of no bytes is complete.
abbrev body_task : HttpTask
body_task = record new_task { state = recv_body_state }

abbrev body_world : World
body_world = record { request = null; peer = peer_of body_task }

abbrev checked_world : World
checked_world = with_task body_world (record body_task { state = check_cgi })

body_task-TaskOk : TaskOk body_world.peer body_task
body_task-TaskOk = record {
  task = refl;
  receiving = two_bytes-IsValid;
  sending = no_bytes-IsValid;
  response = no_bytes-IsValid;
  header = λ e. absurd (omega arith);
}

body_step : step some_site no_bytes body_world body_task ≡ ok (continue checked_world)
unfolding step Steps.recv_body_step Steps.body_loop
body_step = refl

step-⟶_example : (t : HttpTask) × TaskOk checked_world.peer t × (body_task.state ⟶ t.state)
step-⟶_example =
    step-⟶ some_site no_bytes body_world checked_world body_task some_site-Ends body_task-TaskOk
      body_step

abbrev network : Network
network = record {
  socket = some 3;
  setsockopt_fails = false;
  bind_fails = false;
  listen_fails = true;
  close_fails = false;
}

abbrev machine : Machine
machine = record {
  stat = λ _. some (record { is_directory = true; is_regular = false; size = 0 });
  daemon = record { fork = in_child; lock_opens = true; lock_free = true };
  signals = λ _. by_default;
  network = record network { listen_fails = false };
}

server_process_safe_example :
    (server_process machine (some new_task) (arrival ∷ []) [] (free_peer ∷ []) ≢ crash out_of_fuel)
    × ((s : Server)
        → server_process machine (some new_task) (arrival ∷ []) [] (free_peer ∷ []) ≡ ok s
        → HasFolder machine []
          × ((start_listen_socket machine.network).ret ≡ pos 0)
          × TableOk s.connection_list)
server_process_safe_example =
    server_process_safe machine (some new_task) (arrival ∷ []) [] (free_peer ∷ [])
      (λ _. (λ _. true, refl), tt)

start_listen_socket_lem_example :
    ((start_listen_socket network).ret ≡ pos 0 ↔ (
      (fd : ℕ) × (network.socket ≡ some fd)
      × (network.setsockopt_fails ≡ false)
      × (network.bind_fails ≡ false)
      × (network.listen_fails ≡ false)))
    × ((start_listen_socket network).ret ≡ pos 0 → (start_listen_socket network).is_open ≡ true)
    × ((start_listen_socket network).ret ≢ pos 0
        → (start_listen_socket network).is_open ≡ true
        → (network.setsockopt_fails ≡ true) ⊎ (network.close_fails ≡ true))
start_listen_socket_lem_example = start_listen_socket_lem network
