-- ===== src/Startup/Main.antt =====
-- On a whole run of the process: `main` of src/server.c, with the parser of src/parser.
use simle_http_server.Prelude.{
  ℕ, List, [], ◌∷◌, Bool, true, not, Option, ◌≡◌, ◌≢◌, ok, crash, out_of_fuel, ℤ, pos, negsuc, ap,
  ==→eq, int_eq, arith, Safe, Safe-bind, Safe-if, Safe-of, Safe-ok, Safe-ends, undefined-Safe,
  exited-Safe,
}
use simle_http_server.Task.{HttpTask}
use simle_http_server.Peer.{CString, Peer}
use simle_http_server.Parse.Yacc.{yyparse}
use simle_http_server.Parse.Accepts.{yyparse_ends}
use simle_http_server.Site.{Site}
use simle_http_server.Http.Receiving.{Ends, atoi-ends}
use simle_http_server.Path.Stat.{is_dir}
use simle_http_server.Server.Table.{TableOk}
use simle_http_server.Server.Select.{Server, Round, server_main}
use simle_http_server.Server.Rounds.{RoundsEnd, server_main_safe}
use simle_http_server.Server.Client.{Globals}
use simle_http_server.Startup.{
  Machine, Config, read_arguments, init_server, start_listen_socket, server_process,
}

read_arguments-ends : (argv : List CString) → read_arguments argv ≢ crash out_of_fuel
unfolding read_arguments
read_arguments-ends (_ ∷ port ∷ https ∷ _ ∷ _ ∷ _ ∷ _ ∷ _ ∷ _) =
    ground (arith, atoi-ends port, atoi-ends https)
read_arguments-ends _ = ground arith

listening_ok : (ret : ℤ) → int_eq ret (pos 0) ≡ true → ret ≡ pos 0
listening_ok (pos n) e = ap pos (==→eq n 0 e)
listening_ok (negsuc n) e = cc

-- In each round and for each client the parser is that of src/parser, with any memory for the headers.
abbrev pub RoundsParse : List Round → Type 0
RoundsParse [] = Unit
RoundsParse (r ∷ rs) =
    ((i : ℕ) → (realloc : ℕ → Bool) × ((r.events i).site.yyparse ≡ yyparse realloc))
    × RoundsParse rs

-- The parser of src/parser ends, on whatever bytes.
yyparse-Ends : (site : Site) (realloc : ℕ → Bool) → site.yyparse ≡ yyparse realloc → Ends site
yyparse-Ends site realloc e l =
    rw e (Safe-of (yyparse realloc l) (yyparse_ends realloc l) (λ _ _. tt))

RoundsParse-RoundsEnd : (rs : List Round) → RoundsParse rs → RoundsEnd rs
RoundsParse-RoundsEnd [] h = tt
RoundsParse-RoundsEnd (r ∷ rs) (h, hs) =
    (λ i. yyparse-Ends (r.events i).site (h i).0 (h i).1, RoundsParse-RoundsEnd rs hs)

-- The folder that the arguments name is one.
abbrev pub HasFolder : Machine → List CString → Type 0
HasFolder m argv =
    (config : Config) × (read_arguments argv ≡ ok config) × (is_dir m.stat config.www_dir ≡ true)

init_server-HasFolder :
    (m : Machine) (argv : List CString)
    → Safe (λ _. HasFolder m argv) (init_server m.stat m.daemon m.signals argv)
unfolding init_server
init_server-HasFolder m argv =
    Safe-bind (λ config. read_arguments argv ≡ ok config) {m = read_arguments argv}
      (Safe-of (read_arguments argv) (read_arguments-ends argv) (λ _ e. e))
      (λ config e.
        Safe-if {b = not (is_dir m.stat config.www_dir)} (λ _. undefined-Safe)
          (λ is. Safe.done _ (config, e, ground arith)))

-- The whole process, from its arguments on, with the parser of src/parser, from any table as the process
-- finds it, for any rounds and whatever the system calls do in each of them: it does not stay in a
-- round, but it may stop at an assert, at a call of exit or at undefined behaviour. If it gets through
-- the rounds, then the arguments named a folder that exists, the socket was opened and every slot of the
-- table is well formed.
pub server_process_safe :
    (m : Machine) (task_block : Option HttpTask) (rs : List Round) (argv : List CString)
    (ps : List Peer)
    → RoundsParse rs
    → (server_process m task_block rs argv ps ≢ crash out_of_fuel)
      × ((s : Server)
          → server_process m task_block rs argv ps ≡ ok s
          → HasFolder m argv
            × ((start_listen_socket m.network).ret ≡ pos 0)
            × TableOk s.connection_list)
unfolding server_process
server_process_safe m task_block rs argv ps parser =
    let safe : Safe
        (λ s.
          HasFolder m argv
          × ((start_listen_socket m.network).ret ≡ pos 0)
          × TableOk s.connection_list)
        (server_process m task_block rs argv ps) =
      Safe-bind _ {m = init_server m.stat m.daemon m.signals argv} (init_server-HasFolder m argv)
        (λ (config, signals) folder.
          let l = start_listen_socket m.network in
          let g : Globals = record { www_dir = config.www_dir; cgi_scripts = config.cgi_scripts } in
          Safe-if {b = int_eq l.ret (pos 0)}
            (λ e.
              let (ends, table) =
                server_main_safe g l.sock_fd task_block rs ps (RoundsParse-RoundsEnd rs parser) in
              Safe-of (server_main g l.sock_fd task_block rs ps) ends
                (λ s done. (folder, listening_ok l.ret e, table s done)))
            (λ _. exited-Safe)) in
    (Safe-ends safe, λ s e. Safe-ok s safe e)
