-- ===== src/Tests/Data.antt =====
-- Sample values of the types of src/message.h and src/parser/parse.h.
use simle_http_server.Prelude.{
  refl, [], ◌∷◌, true, false, some, none, pos, negsuc, arith, ◌==◌, if◌then◌else◌, Safe-of, true,
}
use simle_http_server.Cbuf.{Cbuf, buf_data_maxsize}
use simle_http_server.Cbuf.Valid.{IsValid}
use simle_http_server.Task.{
  live, null, HttpTask, FileStream, recv_header_state, check_cgi, no_method, get_method,
}
use simle_http_server.Peer.{Peer, Address, CgiExecutor}
use simle_http_server.Parse.{Request}
use simle_http_server.Text.{codes}
use simle_http_server.Header.Reading.{Reading}
use simle_http_server.Parse.Yacc.{yyparse}
use simle_http_server.Parse.Accepts.{yyparse_ends}
use simle_http_server.Site.{Site}
use simle_http_server.Http.Invariant.{PeerOk}
use simle_http_server.Http.Receiving.{Ends}

abbrev pub no_bytes : Cbuf
no_bytes = record { bytes = λ _. 0; head = 0; tail = 0; size = buf_data_maxsize; num_byte = 0 }

pub no_bytes-IsValid : IsValid no_bytes
no_bytes-IsValid = omega arith

-- The bytes 97 and 98, from index 8191 on, so that the second one is at index 0.
abbrev pub two_bytes : Cbuf
two_bytes = record {
  bytes = λ i. if i == 0 then 98 else 97;
  head = 1;
  tail = 8191;
  size = buf_data_maxsize;
  num_byte = 2;
}

pub two_bytes-IsValid : IsValid two_bytes
two_bytes-IsValid = omega arith

abbrev pub full_cbuf : Cbuf
full_cbuf = record {
  bytes = λ _. 97;
  head = 0;
  tail = 0;
  size = buf_data_maxsize;
  num_byte = buf_data_maxsize;
}

pub full_cbuf-IsValid : IsValid full_cbuf
full_cbuf-IsValid = omega arith

abbrev pub new_task : HttpTask
new_task = record {
  state = recv_header_state;
  parse_buf = λ _. 0;
  parse_buf_idx = 0;
  header_term_token_status = 0;
  response_buf = no_bytes;
  method_type = no_method;
  last_request = false;
  response_code = negsuc 0;
  body_bytes_num = 0;
  post_body = none;
  post_body_idx = 0;
  fp = null;
}

abbrev pub script_task : HttpTask
script_task = record new_task { state = check_cgi; method_type = get_method; last_request = true }

abbrev pub some_address : Address
some_address = record { sin_family = 2; sin_addr = 127 ∷ 0 ∷ 0 ∷ 1 ∷ []; sin_port = 8080 }

-- A connection with two bytes received and nothing to send.
abbrev pub peer_of : HttpTask → Peer
peer_of t = record {
  socket = pos 5;
  addres = some_address;
  http_task = live t;
  cgi_executor = null;
  sending_buffer = no_bytes;
  receiving_buffer = two_bytes;
  close_conn = false;
}

pub new_task-Reading : Reading new_task []
new_task-Reading = record {
  unended = tt;
  count = refl;
  room = omega arith;
  stored = tt;
  status = refl;
}

pub new_peer-PeerOk : PeerOk (peer_of new_task)
new_peer-PeerOk = (
  new_task,
  record {
    task = refl;
    receiving = two_bytes-IsValid;
    sending = no_bytes-IsValid;
    response = no_bytes-IsValid;
    header = λ _. ([], new_task-Reading);
  },
)

pub script_peer-PeerOk : PeerOk (peer_of script_task)
script_peer-PeerOk = (
  script_task,
  record {
    task = refl;
    receiving = two_bytes-IsValid;
    sending = no_bytes-IsValid;
    response = no_bytes-IsValid;
    header = λ e. absurd (omega arith);
  },
)

abbrev pub script_request : Request
script_request = record {
  http_version = codes "HTTP/1.1";
  http_method = codes "GET";
  http_uri = codes "/cgi/run?a=1";
  headers = (codes "Host", codes "localhost") ∷ [];
}

abbrev pub some_executor : CgiExecutor
some_executor = record {
  stdin_pipe = pos 7;
  stdout_pipe = pos 8;
  cgi_buffer = some two_bytes;
  cgi_parameter = none;
}

abbrev pub some_file : FileStream
some_file = record { rest = 1 ∷ 2 ∷ []; fails = false }

-- A site without files, with the parser of src/parser and memory for all headers.
abbrev pub some_site : Site
some_site = record {
  www_dir = codes "www/";
  cgi_scripts = some (codes "run.py");
  access = λ _. false;
  fopen = λ _. none;
  file_len = λ _. 0;
  curr_time = [];
  last_modified = λ _. [];
  inet_ntop = λ _. codes "127.0.0.1";
  yyparse = yyparse (λ _. true);
  malloc = λ _. none;
  executor_block = some_executor;
  pipe_stdin = some (6, 7);
  pipe_stdout = some (8, 9);
  fork_fails = false;
}

pub some_site-Ends : Ends some_site
some_site-Ends = λ l. Safe-of (yyparse (λ _. true) l) (yyparse_ends (λ _. true) l) (λ _ _. tt)
