-- ===== src/Site.antt =====
-- What src/http.c takes from outside the repository, and the globals that the command line sets.
use simle_http_server.Prelude.{ℕ, List, Bool, Option, Outcome}
use simle_http_server.Task.{FileStream}
use simle_http_server.Peer.{CString, Address, CgiExecutor}
use simle_http_server.Parse.{Request}

-- `www_dir` and `cgi_scripts` are the globals; `cgi_scripts` may be null. `access`, `fopen`, `file_len` and `last_modified` read
-- the file system, `curr_time` the clock. `malloc` gives the block for a POST body of the given size,
-- or null; `executor_block` is the memory that a new CGI executor gets. `pipe_stdin`
-- and `pipe_stdout` are the ends that the two calls of pipe give, or nothing if the call fails.
pub record Site : Type 0 where
  pub www_dir : CString
  pub cgi_scripts : Option CString
  pub access : CString → Bool
  pub fopen : CString → Option FileStream
  pub file_len : CString → ℕ
  pub curr_time : CString
  pub last_modified : CString → CString
  pub inet_ntop : Address → CString
  pub yyparse : List ℕ → Outcome (Option Request)
  pub malloc : ℕ → Option (ℕ → ℕ)
  pub executor_block : CgiExecutor
  pub pipe_stdin : Option (ℕ × ℕ)
  pub pipe_stdout : Option (ℕ × ℕ)
  pub fork_fails : Bool
