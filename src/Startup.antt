-- ===== src/Startup.antt =====
-- How the process starts: `start_listen_socket` and `close_socket` of src/utility.c, and `init_server`,
-- `setup_signals`, `handle_signal_action` and `daemonize` of src/server.c. What a system call does is an
-- argument.
pub mod Main
pub mod Failures
use simle_http_server.Prelude.{
  ℕ, List, [], ◌∷◌, Bool, true, false, not, ◌&&◌, Option, none, some, Outcome, ok, crash, undefined,
  exited, ◌>>=◌, ◌==◌, if◌then◌else◌, ℤ, pos, negsuc, int_eq, length,
}
use simle_http_server.Peer.{CString, Peer}
use simle_http_server.Text.{codes, atoi}
use simle_http_server.Path.Stat.{FileStatus, is_dir}
use simle_http_server.Task.{HttpTask}
use simle_http_server.Server.{close_all}
use simle_http_server.Server.Select.{Server, Round, server_main}

-- The calls of `start_listen_socket`: the descriptor that `socket` gives, and which calls fail.
pub record Network : Type 0 where
  pub socket : Option ℕ
  pub setsockopt_fails : Bool
  pub bind_fails : Bool
  pub listen_fails : Bool
  pub close_fails : Bool

-- The result, `*sock_fd`, and whether this descriptor is left open.
pub record Listening : Type 0 where
  pub ret : ℤ
  pub sock_fd : ℤ
  pub is_open : Bool

abbrev pub failure : ℤ
failure = pos 1

-- The result of `close_socket`, and whether the descriptor is still open.
unfoldable pub close_socket : Bool → ℤ × Bool
close_socket fails = if fails then (pos 1, true) else (pos 0, false)

unfoldable pub start_listen_socket : Network → Listening
unfolding close_socket
start_listen_socket n = elim n.socket [
  | none ↦ record { ret = failure; sock_fd = negsuc 0; is_open = false }
  | some fd ↦
      let given_up : Listening = record {
        ret = failure;
        sock_fd = pos fd;
        is_open = (close_socket n.close_fails).1;
      } in
      if n.setsockopt_fails
      then record { ret = negsuc 0; sock_fd = pos fd; is_open = true }
      else if n.bind_fails
      then given_up
      else if n.listen_fails
      then given_up
      else record { ret = pos 0; sock_fd = pos fd; is_open = true }
]

-- The signals that the server names.
pub data Signal : Type 0 where
  sigint sigterm sigpipe sighup sigchld : Signal

-- What a signal does: what the system does by default, nothing, or a call of `handle_signal_action`.
pub data Disposition : Type 0 where
  by_default ignored handled : Disposition

unfoldable pub setup_signals : (Signal → Disposition) → Signal → Disposition
setup_signals before sigint = handled
setup_signals before sigterm = handled
setup_signals before sigpipe = ignored
setup_signals before sighup = ignored
setup_signals before s = before s

-- The table of connections after the handler. `server_shutdown_properly` closes all and exits.
unfoldable pub handle_signal_action : Signal → List Peer → Outcome (List Peer)
handle_signal_action sigint ps = do _ ← close_all ps; crash exited
handle_signal_action sigpipe ps = do _ ← close_all ps; crash exited
handle_signal_action _ ps = ok ps

-- `fork` as the process sees it.
pub data Forked : Type 0 where
  fork_failed in_parent in_child : Forked

pub record Daemon : Type 0 where
  pub fork : Forked
  pub lock_opens : Bool
  pub lock_free : Bool

unfoldable pub daemon_signals : (Signal → Disposition) → Signal → Disposition
unfolding setup_signals
daemon_signals before sigchld = ignored
daemon_signals before s = setup_signals before s

-- The result, and what the signals do then. The parent exits, and so does a second instance.
unfoldable pub daemonize :
    Daemon → CString → (Signal → Disposition) → Outcome (ℤ × (Signal → Disposition))
unfolding daemon_signals
daemonize d lock_file before = if length lock_file == 0 then ok (failure, before) else elim d.fork [
  | in_child ↦
      if d.lock_opens && d.lock_free then ok (pos 0, daemon_signals before) else crash exited
  | _ ↦ crash exited
]

abbrev pub run_as_daemon : Bool
run_as_daemon = false

-- The globals that the command line sets, and the names of two files.
pub record Config : Type 0 where
  pub http_port : ℤ
  pub https_port : ℤ
  pub www_dir : CString
  pub cgi_scripts : Option CString
  pub log_file : CString
  pub lock_file : Option CString

abbrev pub default_www_dir : CString
default_www_dir = codes "/Users/lincongli/Desktop/CSE124/src/www/"

abbrev pub log_file_name : CString
log_file_name = codes "log.txt"

-- `argv` with the name of the program: eight strings or more are read, fewer are not looked at.
unfoldable pub read_arguments : List CString → Outcome Config
read_arguments (_ ∷ port ∷ https ∷ log ∷ lock ∷ www ∷ cgi ∷ _ ∷ _) = do
  http_port ← atoi port
  https_port ← atoi https
  ok (record {
    http_port = http_port;
    https_port = https_port;
    www_dir = www;
    cgi_scripts = some cgi;
    log_file = log;
    lock_file = some lock;
  })
read_arguments _ = ok (record {
  http_port = pos 9999;
  https_port = pos 0;
  www_dir = default_www_dir;
  cgi_scripts = none;
  log_file = log_file_name;
  lock_file = none;
})

-- The name of the lock file is not set if the arguments are too few.
unfoldable pub run_in_background :
    Daemon → Option CString → (Signal → Disposition) → Outcome (Signal → Disposition)
unfolding daemonize
run_in_background d none before = crash undefined
run_in_background d (some lock) before = do
  (ret, signals) ← daemonize d lock before
  (if int_eq ret (pos 0) then ok signals else crash exited)

-- The globals, and what the signals do. A folder that is none is logged before `log_fd` is set: the
-- stream is a null pointer. The log is the standard output, since LOG_TO_FILE is false.
unfoldable pub init_server :
    (CString → Option FileStatus)
    → Daemon
    → (Signal → Disposition)
    → List CString
    → Outcome (Config × (Signal → Disposition))
unfolding read_arguments run_in_background setup_signals
init_server stat d before argv = do
  config ← read_arguments argv
  (if not (is_dir stat config.www_dir)
      then crash undefined
      else if run_as_daemon
      then (do signals ← run_in_background d config.lock_file before; ok (config, signals))
      else ok (config, setup_signals before))

-- What the start of the process meets.
pub record Machine : Type 0 where
  pub stat : CString → Option FileStatus
  pub daemon : Daemon
  pub signals : Signal → Disposition
  pub network : Network

-- `main` from its arguments on.
unfoldable pub server_process :
    Machine → Option HttpTask → List Round → List CString → List Peer → Outcome Server
unfolding init_server start_listen_socket
server_process m task_block rs argv ps = do
  (config, _) ← init_server m.stat m.daemon m.signals argv
  let l = start_listen_socket m.network
  (if int_eq l.ret (pos 0)
      then server_main (record { www_dir = config.www_dir; cgi_scripts = config.cgi_scripts })
          l.sock_fd task_block rs ps
      else crash exited)
