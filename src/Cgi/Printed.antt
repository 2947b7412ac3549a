-- ===== src/Cgi/Printed.antt =====
-- `print_CGI_param` on what `build_CGI_param` of src/http.c gives.
use simle_http_server.Prelude.{
  ℕ, suc, ◌+◌, ◌≤◌, ◌≡◌, refl, List, [], ◌∷◌, ◌++◌, arith, ok, crash, undefined, ltb, if◌then◌else◌,
  >>=-eq-ok, length, length-append,
}
use simle_http_server.Peer.{CString, CgiParam}
use simle_http_server.Parse.{Request}
use simle_http_server.Text.{codes, decimal}
use simle_http_server.Log.{cgi_log, log_line, log_prefix}
use simle_http_server.Log.Digits.{length-decimal}
use simle_http_server.Log.Print.{print_envp, print_cgi_param}
use simle_http_server.Cgi.{
  cgi_envp_info_maxlen, cgi_envp_len, set_envp_field, set_envp_fields, split_uri, first_fields,
  header_fields, values_of, build_cgi_param,
}

-- Each field has less than 1024 bytes.
abbrev Short : List CString → Type 0
Short [] = Unit
Short (field ∷ fields) = (length field + 1 ≤ cgi_envp_info_maxlen) × Short fields

append-Short :
    (envp : List CString) (field : CString)
    → Short envp
    → length field + 1 ≤ cgi_envp_info_maxlen
    → Short (envp ++ (field ∷ []))
append-Short [] field s h = (h, tt)
append-Short (f ∷ fs) field (h1, s) h = (h1, append-Short fs field s h)

set_envp_field-Short :
    (name value : CString) (envp envp' : List CString)
    → Short envp
    → set_envp_field name value envp ≡ ok envp'
    → Short envp'
unfolding set_envp_field
set_envp_field-Short name value envp envp' s e =
    ground (arith, length-append name (b'=' ∷ value), append-Short envp (name ++ (b'=' ∷ value)) s)

set_envp_fields-Short :
    (fs : List (CString × CString)) (envp envp' : List CString)
    → Short envp
    → set_envp_fields fs envp ≡ ok envp'
    → Short envp'
unfolding set_envp_fields
set_envp_fields-Short [] envp envp' s e = ground arith
set_envp_fields-Short ((name, value) ∷ fs) envp envp' s e =
    let (e1, one, rest) =
      >>=-eq-ok (set_envp_field name value envp) (λ x. set_envp_fields fs x) e in
    set_envp_fields-Short fs e1 envp' (set_envp_field-Short name value envp e1 s one) rest

-- What `build_CGI_param` returns.
record Built (scripts : CString) (param : CgiParam) : Type 0 where
  file : param.filename ≡ scripts
  args : param.args ≡ scripts ∷ []
  short : Short param.envp

returned-Built :
    (scripts : CString) (envp : List CString) (param : CgiParam)
    → Short envp
    → (if ltb (length envp) cgi_envp_len
        then ok (record { filename = scripts; args = scripts ∷ []; envp = envp })
        else crash undefined)
      ≡ ok param
    → Built scripts param
returned-Built scripts envp param s e = record {
  file = ground arith;
  args = ground arith;
  short = ground arith;
}

build_cgi_param-Built :
    (scripts : CString) (r : Request) (host : CString) (port : ℕ) (param : CgiParam)
    → build_cgi_param scripts r host port ≡ ok param
    → Built scripts param
unfolding build_cgi_param
build_cgi_param-Built scripts r host port param e =
    let (e1, a1, h1) = >>=-eq-ok (set_envp_fields (first_fields r) []) _ e in
    let (q, a2, h2) = >>=-eq-ok (split_uri r.http_uri) _ h1 in
    let uri_fields = (codes "QUERY_STRING", q.0) ∷ (codes "PATH_INFO", q.1) ∷ [] in
    let last_fields = (codes "REMOTE_ADDR", host) ∷ (codes "SERVER_PORT", decimal port) ∷ [] in
    let (e2, a3, h3) = >>=-eq-ok (set_envp_fields uri_fields e1) _ h2 in
    let (e3, a4, h4) = >>=-eq-ok (set_envp_fields (values_of r header_fields) e2) _ h3 in
    let (e4, a5, h5) = >>=-eq-ok (set_envp_fields last_fields e3) _ h4 in
    let s1 = set_envp_fields-Short (first_fields r) [] e1 tt a1 in
    let s2 = set_envp_fields-Short uri_fields e1 e2 s1 a3 in
    let s3 = set_envp_fields-Short (values_of r header_fields) e2 e3 s2 a4 in
    let s4 = set_envp_fields-Short last_fields e3 e4 s3 a5 in returned-Built scripts e4 param s4 h5

log_line-fits :
    (m : CString) → length m + 1 ≤ 8192 → (text : CString) × (log_line cgi_log m ≡ ok text)
unfolding log_line
log_line-fits m h = (log_prefix cgi_log ++ m ++ (10 ∷ []), ground arith)

print_envp-fits :
    (i : ℕ) (envp : List CString) → Short envp → (text : CString) × (print_envp i envp ≡ ok text)
unfolding print_envp
print_envp-fits i [] s = ([], refl)
print_envp-fits i (field ∷ fields) (h, s) =
    let (a, e1) = log_line-fits (decimal (i + 1)) (omega (arith, length-decimal (i + 1))) in
    let (b, e2) = log_line-fits field (omega (arith, h)) in
    let (c, e3) = print_envp-fits (suc i) fields s in (a ++ b ++ c, rw e1 (rw e2 (rw e3 refl)))

-- If `build_CGI_param` returns and the name of the script has at most 8000 bytes, no line that
-- `print_CGI_param` logs overflows the 8192 bytes of the macro, and it returns.
pub print_cgi_param-fits :
    (scripts : CString) (r : Request) (host : CString) (port : ℕ) (param : CgiParam)
    → build_cgi_param scripts r host port ≡ ok param
    → length scripts ≤ 8000
    → (text : CString) × (print_cgi_param param ≡ ok text)
unfolding print_cgi_param
print_cgi_param-fits scripts r host port param e h =
    let built = build_cgi_param-Built scripts r host port param e in
    let (a, e1) = log_line-fits (codes "-------CGI Param------") (omega arith) in
    let (b, e2) = log_line-fits (codes "Filename]: " ++ scripts) (omega (arith, h)) in
    let (c, e3) = log_line-fits (codes "[Args]: " ++ scripts) (omega (arith, h)) in
    let (d, e4) = log_line-fits (codes "Envp]:") (omega arith) in
    let (f, e5) = print_envp-fits 0 param.envp built.short in
    let (g, e6) = log_line-fits (codes "-------End CGI Para------") (omega arith) in
    (
      a ++ b ++ c ++ d ++ f ++ g,
      rw (built.file, built.args) (rw e1 (rw e2 (rw e3 (rw e4 (rw e5 (rw e6 refl)))))),
    )
