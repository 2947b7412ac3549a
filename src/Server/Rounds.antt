-- ===== src/Server/Rounds.antt =====
-- On termination and well-formedness, for the whole of src/server.c's loop, over any number of
-- rounds.
use simle_http_server.Prelude.{
  ℕ, ◌+◌, ◌≡◌, List, [], ◌∷◌, ◌||◌, Option, ℤ, ok, crash, out_of_fuel, ◌>>=◌, if◌then◌else◌, ◌≢◌,
  Safe, Safe-bind, Safe-if, Safe-ok, Safe-ends, exited-Safe,
}
use simle_http_server.Task.{Ptr, null, HttpTask}
use simle_http_server.Peer.{Peer}
use simle_http_server.Parse.{Request}
use simle_http_server.Http.Receiving.{Ends}
use simle_http_server.Server.{handle_new_connection, init_peers, highest, build_fd_sets, close_all}
use simle_http_server.Server.Client.{Events, Globals, serve_client}
use simle_http_server.Server.Select.{
  Server, serve_clients, Round, server_shutdown_properly, serve_selected, server_round,
  server_rounds, server_main,
}
use simle_http_server.Server.Safety.{WorldOk, serve_client-Safe}
use simle_http_server.Server.Table.{
  TableOk, init_peers-Safe, handle_new_connection-Safe, close_all-Ran, add_fds-Ran, highest-Ran,
}

abbrev pub ServerOk : Server → Type 0
ServerOk s = TableOk s.connection_list

-- In each client's part of each round the parser ends.
abbrev pub AllEnd : (ℕ → Events) → Type 0
AllEnd events = (i : ℕ) → Ends (events i).site

abbrev pub RoundsEnd : List Round → Type 0
RoundsEnd [] = Unit
RoundsEnd (r ∷ rs) = AllEnd r.events × RoundsEnd rs

serve_clients-Safe :
    (g : Globals) (events : ℕ → Events) (i : ℕ) (request : Ptr Request) (ps : List Peer)
    → AllEnd events
    → TableOk ps
    → Safe ServerOk (serve_clients g events i request ps)
unfolding serve_clients
serve_clients-Safe g events i request [] ends k = Safe.done _ tt
serve_clients-Safe g events i request (p ∷ ps) ends (s, ss) =
    Safe-bind WorldOk {m = serve_client g (events i) (record { request = request; peer = p })}
      (serve_client-Safe g (events i) (record { request = request; peer = p }) (ends i) s)
      (λ w s'.
        Safe-bind ServerOk {m = serve_clients g events (i + 1) w.request ps}
          (serve_clients-Safe g events (i + 1) w.request ps ends ss)
          (λ r ss'. Safe.done _ (s', ss')))

shutdown-Safe : (ps : List Peer) → TableOk ps → Safe ServerOk (server_shutdown_properly ps)
unfolding server_shutdown_properly
shutdown-Safe ps k = Safe-bind _ {m = close_all ps} (close_all-Ran ps k) (λ _ _. exited-Safe)

serve_selected-Safe :
    (g : Globals) (r : Round) (s : Server)
    → AllEnd r.events
    → ServerOk s
    → Safe ServerOk (serve_selected g r s)
unfolding serve_selected
serve_selected-Safe g r s ends k =
    Safe-bind TableOk
      {m = if r.listen_readable
        then (handle_new_connection r.accepts r.task_block s.connection_list >>= λ (_, qs). ok qs)
        else ok s.connection_list}
      (Safe-if {b = r.listen_readable}
        (λ _.
          Safe-bind (λ (ret, qs). TableOk qs)
            {m = handle_new_connection r.accepts r.task_block s.connection_list}
            (handle_new_connection-Safe r.accepts r.task_block s.connection_list k)
            (λ q qs. Safe.done _ qs))
        (λ _. Safe.done _ k))
      (λ ps k'.
        Safe-if {b = r.stdin_excepted || r.listen_excepted} (λ _. shutdown-Safe ps k')
          (λ _. serve_clients-Safe g r.events 0 s.request ps ends k'))

server_round-Safe :
    (g : Globals) (listen_sock : ℤ) (r : Round) (s : Server)
    → AllEnd r.events
    → ServerOk s
    → Safe ServerOk (server_round g listen_sock r s)
unfolding server_round build_fd_sets
server_round-Safe g listen_sock r s ends k =
    Safe-bind _
      (add_fds-Ran
        (record { read_fds = listen_sock ∷ []; write_fds = []; except_fds = listen_sock ∷ [] })
        s.connection_list)
      (λ _ _.
        Safe-bind _ {m = highest listen_sock s.connection_list}
          (highest-Ran s.connection_list listen_sock)
          (λ _ _.
            Safe-if {b = r.select_failed} (λ _. shutdown-Safe s.connection_list k)
              (λ _. serve_selected-Safe g r s ends k)))

server_rounds-Safe :
    (g : Globals) (listen_sock : ℤ) (rs : List Round) (s : Server)
    → RoundsEnd rs
    → ServerOk s
    → Safe ServerOk (server_rounds g listen_sock rs s)
unfolding server_rounds
server_rounds-Safe g listen_sock [] s ends k = Safe.done s k
server_rounds-Safe g listen_sock (r ∷ rs) s (e, ends) k =
    Safe-bind ServerOk {m = server_round g listen_sock r s}
      (server_round-Safe g listen_sock r s e k)
      (λ s' k'. server_rounds-Safe g listen_sock rs s' ends k')

server_main-Safe :
    (g : Globals) (listen_sock : ℤ) (task_block : Option HttpTask) (rs : List Round)
    (ps : List Peer)
    → RoundsEnd rs
    → Safe ServerOk (server_main g listen_sock task_block rs ps)
unfolding server_main
server_main-Safe g listen_sock task_block rs ps ends =
    Safe-bind TableOk {m = init_peers task_block ps} (init_peers-Safe task_block ps) (λ qs k.
      server_rounds-Safe g listen_sock rs (record { request = null; connection_list = qs }) ends k)

-- From any table as the process finds it, for any rounds whatever the system calls do in them, and a
-- parser that ends: each round of the server ends, or the process stops at an assert, at a call of exit
-- or at undefined behaviour. After the rounds every slot of the table is well formed: its two buffers
-- are valid, and a slot with a socket has a task that `handle_http` can go on with.
pub server_main_safe :
    (g : Globals) (listen_sock : ℤ) (task_block : Option HttpTask) (rs : List Round)
    (ps : List Peer)
    → RoundsEnd rs
    → (server_main g listen_sock task_block rs ps ≢ crash out_of_fuel)
      × ((s : Server)
          → server_main g listen_sock task_block rs ps ≡ ok s
          → TableOk s.connection_list)
server_main_safe g listen_sock task_block rs ps ends =
    let safe = server_main-Safe g listen_sock task_block rs ps ends in
    (Safe-ends safe, λ s e. Safe-ok s safe e)
