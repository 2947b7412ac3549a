-- ===== src/Log/Print.antt =====
-- The functions of src/http.c and src/message.c that print, as the text that they write.
use simle_http_server.Prelude.{
  ℕ, suc, ◌+◌, List, [], ◌∷◌, ◌++◌, Outcome, ok, crash, undefined, ◌>>=◌, ltb, if◌then◌else◌,
  length, take, slice_of,
}
use simle_http_server.Task.{HttpTask}
use simle_http_server.Peer.{CString, CgiParam, Peer, Address}
use simle_http_server.Parse.{Request}
use simle_http_server.Text.{codes, decimal}
use simle_http_server.Log.{cgi_log, log_line}

abbrev pub line : CString → CString
line text = text ++ (10 ∷ [])

-- `print_message`, for the first `len` bytes of `msg`.
unfoldable pub print_message : List ℕ → ℕ → CString
print_message msg len = codes "Message: " ++ line (take len msg)

unfoldable pub print_request_body : List ℕ → ℕ → CString
print_request_body body total_bytes_num =
    line (codes "Request body:")
    ++ take total_bytes_num body
    ++ (10 ∷ [])
    ++ line (codes "---body end---")

unfoldable pub print_parse_buf : HttpTask → CString
print_parse_buf t =
    line (codes "Parse buffer:")
    ++ slice_of t.parse_buf 0 t.parse_buf_idx
    ++ line (codes "Parse buffer ends")

unfoldable pub print_headers : List (CString × CString) → CString
print_headers [] = []
print_headers ((name, value) ∷ hs) =
    line (codes "Request Header")
    ++ line (codes "Header name: " ++ name)
    ++ line (line (codes "Header Value: " ++ value))
    ++ print_headers hs

unfoldable pub print_req : Request → CString
unfolding print_headers
print_req r =
    line (codes "Http Method: " ++ r.http_method)
    ++ line (codes "Http Version: " ++ r.http_version)
    ++ line (codes "Http Uri: " ++ r.http_uri)
    ++ print_headers r.headers

-- The fields of the environment from the one with index `i` on.
unfoldable pub print_envp : ℕ → List CString → Outcome CString
print_envp i [] = ok []
print_envp i (field ∷ fields) = do
  number ← log_line cgi_log (decimal (i + 1))
  text ← log_line cgi_log field
  rest ← print_envp (suc i) fields
  ok (number ++ text ++ rest)

-- `args[0]`, which is the name of the script.
abbrev pub first_arg : List CString → Outcome CString
first_arg [] = crash undefined
first_arg (arg ∷ args) = ok arg

unfoldable pub print_cgi_param : CgiParam → Outcome CString
unfolding print_envp
print_cgi_param param = do
  head ← log_line cgi_log (codes "-------CGI Param------")
  file ← log_line cgi_log (codes "Filename]: " ++ param.filename)
  arg ← first_arg param.args
  args ← log_line cgi_log (codes "[Args]: " ++ arg)
  title ← log_line cgi_log (codes "Envp]:")
  envp ← print_envp 0 param.envp
  foot ← log_line cgi_log (codes "-------End CGI Para------")
  ok (head ++ file ++ args ++ title ++ envp ++ foot)

-- `INET_ADDRSTRLEN`
abbrev pub inet_addrstrlen : ℕ
inet_addrstrlen = 16

unfoldable pub peer_get_addres_str : (Address → CString) → Peer → Outcome CString
peer_get_addres_str inet_ntop peer =
    let text = inet_ntop peer.addres ++ (b':' ∷ decimal peer.addres.sin_port) in
    if ltb (inet_addrstrlen + 10) (length text + 1) then crash undefined else ok text
