-- ===== src/Cgi.antt =====
-- The CGI part of src/http.c: the environment of the script, and its start.
pub mod Environment
pub mod Child
pub mod Spawned
pub mod Failed
pub mod Printed
use simle_http_server.Prelude.{
  ℕ, zero, suc, ◌+◌, ◌-◌, List, [], ◌∷◌, ◌++◌, Bool, true, false, not, pos, Option, none, some,
  Outcome, ok, crash, undefined, assertion, assert, ◌>>=◌, ◌>>◌, ◌==◌, ltb, leb, if◌then◌else◌,
  length, take, drop, slice_of,
}
use simle_http_server.Cbuf.{Cbuf, buf_reset, buf_write}
use simle_http_server.Task.{Ptr, live, null, is_null}
use simle_http_server.Peer.{CString, Peer, CgiParam, CgiExecutor, Address, init_cgi_executor}
use simle_http_server.Parse.{Request}
use simle_http_server.Text.{codes, str_eq, first_index, decimal}
use simle_http_server.Site.{Site}

-- `get_header_value` of src/http.c: an empty string if there is no such header.
unfoldable pub find_header : List (CString × CString) → CString → CString
find_header [] hname = []
find_header ((name, value) ∷ hs) hname = if str_eq name hname then value else find_header hs hname

unfoldable pub get_header_value : Request → CString → CString
unfolding find_header
get_header_value r hname = find_header r.headers hname

abbrev pub cgi_envp_info_maxlen : ℕ
cgi_envp_info_maxlen = 1024

abbrev pub cgi_envp_len : ℕ
cgi_envp_len = 22

-- `set_envp_field_by_str`: sprintf writes the name, '=', the value and the final 0 to `buf`, and
-- `envp[index]` gets a copy; `index` is the number of fields set before.
unfoldable pub set_envp_field : CString → CString → List CString → Outcome (List CString)
set_envp_field name value envp =
    if ltb cgi_envp_info_maxlen (length name + length value + 2)
    then crash undefined
    else if ltb (length envp) cgi_envp_len
    then ok (envp ++ ((name ++ (b'=' ∷ value)) ∷ []))
    else crash undefined

-- The copy of a part of the URI to an array of 512 bytes that holds zeros, and is then read as a string.
unfoldable pub copy_part : CString → Outcome CString
copy_part part = if ltb (length part) 512 then ok part else crash undefined

-- `memcpy` to `path_info` from the fifth byte of the first `split` bytes on: with less than 4 bytes the
-- length wraps.
unfoldable pub path_part : CString → ℕ → Outcome CString
unfolding copy_part
path_part uri split =
    if ltb split 4 then crash undefined else copy_part (take (split - 4) (drop 4 uri))

-- The query string and the path, for the index of the first '?'.
unfoldable pub split_at : CString → Option ℕ → Outcome (CString × CString)
unfolding path_part
split_at uri (some split) = do
  query ← copy_part (drop (split + 1) uri)
  path ← path_part uri split
  ok (query, path)
split_at uri none = do path ← path_part uri (length uri); ok ([], path)

unfoldable pub split_uri : CString → Outcome (CString × CString)
unfolding split_at
split_uri uri = split_at uri (first_index b'?' uri)

-- The headers that become fields of the environment, in the order of the code.
abbrev pub header_fields : List (CString × CString)
header_fields =
    (codes "Content-Length", codes "CONTENT_LENGTH")
    ∷ (codes "Content-Type", codes "CONTENT_TYPE")
    ∷ (codes "Accept", codes "HTTP_ACCEPT")
    ∷ (codes "Referer", codes "HTTP_REFERER")
    ∷ (codes "Accept-Encoding", codes "HTTP_ACCEPT_ENCODING")
    ∷ (codes "Accept-Language", codes "HTTP_ACCEPT_LANGUAGE")
    ∷ (codes "Accept-Charset", codes "HTTP_ACCEPT_CHARSET")
    ∷ (codes "Cookie", codes "HTTP_COOKIE")
    ∷ (codes "User-Agent", codes "HTTP_USER_AGENT")
    ∷ (codes "Host", codes "HTTP_HOST")
    ∷ (codes "Connection", codes "HTTP_CONNECTION")
    ∷ []

-- One field after another.
unfoldable pub set_envp_fields : List (CString × CString) → List CString → Outcome (List CString)
set_envp_fields [] envp = ok envp
set_envp_fields ((name, value) ∷ fs) envp = do
  envp' ← set_envp_field name value envp
  set_envp_fields fs envp'

-- The fields taken from the request, `set_envp_field_with_header`.
unfoldable pub values_of : Request → List (CString × CString) → List (CString × CString)
values_of r [] = []
values_of r ((header, name) ∷ fs) = (name, get_header_value r header) ∷ values_of r fs

abbrev pub first_fields : Request → List (CString × CString)
first_fields r =
    (codes "GATEWAY_INTERFACE", codes "CGI/1.1")
    ∷ (codes "SERVER_SOFTWARE", codes "Liso/1.0")
    ∷ (codes "SERVER_PROTOCOL", codes "HTTP/1.1")
    ∷ (codes "REQUEST_METHOD", r.http_method)
    ∷ (codes "REQUEST_URI", r.http_uri)
    ∷ (codes "SCRIPT_NAME", codes "/cgi")
    ∷ []

-- `build_CGI_param`. The last test is that of `envp[index++] = NULL`.
unfoldable pub build_cgi_param : CString → Request → CString → ℕ → Outcome CgiParam
unfolding split_uri set_envp_fields values_of
build_cgi_param scripts r host port = do
  e1 ← set_envp_fields (first_fields r) []
  (query, path) ← split_uri r.http_uri
  e2 ← set_envp_fields ((codes "QUERY_STRING", query) ∷ (codes "PATH_INFO", path) ∷ []) e1
  e3 ← set_envp_fields (values_of r header_fields) e2
  e4 ← set_envp_fields ((codes "REMOTE_ADDR", host) ∷ (codes "SERVER_PORT", decimal port) ∷ []) e3
  (if ltb (length e4) cgi_envp_len
      then ok (record { filename = scripts; args = scripts ∷ []; envp = e4 })
      else crash undefined)

-- The executor's buffer of `start_CGI_script`: the result of `buf_write` is not looked at.
unfoldable pub body_buffer : Cbuf → List ℕ → Option Cbuf
body_buffer block [] = none
body_buffer block (b ∷ bs) = some (buf_write (buf_reset block) (b ∷ bs)).1

-- The results of `pipe`, less than 0 on failure.
abbrev pub assert_made : Option (ℕ × ℕ) → Outcome (ℕ × ℕ)
assert_made none = crash assertion
assert_made (some ends) = ok ends

-- `start_CGI_script` in the parent process. `block` is the memory that malloc gives for the buffer.
unfoldable pub start_cgi_script : Site → Cbuf → Peer → CgiParam → List ℕ → Outcome Peer
unfolding body_buffer
start_cgi_script site block client param body = do
  assert (is_null client.cgi_executor)
  let e = record (init_cgi_executor site.executor_block) {
    cgi_parameter = some param;
    cgi_buffer = body_buffer block body;
  }
  (stdin0, stdin1) ← assert_made site.pipe_stdin
  (stdout0, stdout1) ← assert_made site.pipe_stdout
  assert (not site.fork_fails)
  ok (record client {
    cgi_executor = live (record e { stdin_pipe = pos stdin1; stdout_pipe = pos stdout0 });
  })
