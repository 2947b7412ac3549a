-- ===== src/Cgi/Environment.antt =====
-- `build_CGI_param` of src/http.c: the environment that a script gets.
use simle_http_server.Prelude.{
  ℕ, zero, suc, ◌+◌, ◌-◌, ◌≤◌, ◌<◌, ◌≡◌, refl, ap, ◌∙◌, List, [], ◌∷◌, ◌++◌, false, arith, ltb,
  Outcome, ok, ◌>>=◌, length, length-append, append_assoc, append-nil, take, drop, length-drop,
}
use simle_http_server.Peer.{CString}
use simle_http_server.Parse.{Request}
use simle_http_server.Text.{codes, decimal}
use simle_http_server.Text.Uri.{Lacks, first_index_lem}
use simle_http_server.Cgi.{
  cgi_envp_info_maxlen, cgi_envp_len, set_envp_field, set_envp_fields, copy_part, path_part,
  split_at, split_uri, first_fields, header_fields, values_of, build_cgi_param,
}

-- `name=value`
abbrev pub field_text : CString × CString → CString
field_text (name, value) = name ++ (b'=' ∷ value)

abbrev pub field_texts : List (CString × CString) → List CString
field_texts [] = []
field_texts (f ∷ fs) = field_text f ∷ field_texts fs

-- Each field fits, with its '=' and the final 0, in the buffer of 1024 bytes.
abbrev pub Fit : List (CString × CString) → Type 0
Fit [] = Unit
Fit ((name, value) ∷ fs) = (length name + length value + 2 ≤ cgi_envp_info_maxlen) × Fit fs

set_envp_field_lem :
    (name value : CString) (envp : List CString)
    → length name + length value + 2 ≤ cgi_envp_info_maxlen
    → length envp < cgi_envp_len
    → set_envp_field name value envp ≡ ok (envp ++ (field_text (name, value) ∷ []))
unfolding set_envp_field
set_envp_field_lem name value envp fits room = ground arith

set_envp_fields_lem :
    (fs : List (CString × CString)) (envp : List CString)
    → Fit fs
    → length envp + length fs ≤ cgi_envp_len
    → set_envp_fields fs envp ≡ ok (envp ++ field_texts fs)
unfolding set_envp_fields
set_envp_fields_lem [] envp fit room = rw append-nil refl
set_envp_fields_lem ((name, value) ∷ fs) envp (fits, fit) room =
    let one = set_envp_field_lem name value envp fits (omega arith) in
    let n = length-append envp (field_text (name, value) ∷ []) in
    let ih =
      set_envp_fields_lem fs (envp ++ (field_text (name, value) ∷ [])) fit (omega (arith, n)) in
    rw one (ih ∙ ap ok (append_assoc envp (field_text (name, value) ∷ []) (field_texts fs)))

drop_past : (c : ℕ) (pre post : CString) → drop (length pre + 1) (pre ++ (c ∷ post)) ≡ post
drop_past c [] post = refl
drop_past c (x ∷ pre) post =
    let e : length (x ∷ pre) + 1 ≡ suc (length pre + 1) = omega arith in rw e (drop_past c pre post)

take_of : (pre post : CString) → take (length pre) (pre ++ post) ≡ pre
take_of [] post = refl
take_of (x ∷ pre) post = ap (λ l. x ∷ l) (take_of pre post)

take_middle :
    (n : ℕ) (pre post : CString)
    → n ≤ length pre
    → take (length pre - n) (drop n (pre ++ post)) ≡ drop n pre
take_middle zero pre post h =
    let e : length pre - 0 ≡ length pre = omega arith in rw e (take_of pre post)
take_middle (suc n) [] post h = absurd (omega arith)
take_middle (suc n) (x ∷ pre) post h =
    let e : length (x ∷ pre) - suc n ≡ length pre - n = omega arith in
    rw e (take_middle n pre post (omega arith))

copy_part_lem : (s : CString) → length s < 512 → copy_part s ≡ ok s
unfolding copy_part
copy_part_lem s h = ground arith

path_part_lem :
    (pre post : CString)
    → 4 ≤ length pre
    → length pre < 516
    → path_part (pre ++ post) (length pre) ≡ ok (drop 4 pre)
unfolding path_part
path_part_lem pre post long short =
    let m = take_middle 4 pre post long in
    let n = length-drop 4 pre in
    let c = copy_part_lem (drop 4 pre) (omega (arith, n)) in
    let not_less : ltb (length pre) 4 ≡ false = ground arith in rw (not_less, m) c

-- The two parts of a URI with a query.
split_uri_lem :
    (pre query : CString)
    → Lacks b'?' pre
    → 4 ≤ length pre
    → length pre < 516
    → length query < 512
    → split_uri (pre ++ (b'?' ∷ query)) ≡ ok (query, drop 4 pre)
unfolding split_uri split_at
split_uri_lem pre query lacks long short fits =
    rw
      (
        first_index_lem b'?' pre query lacks,
        drop_past b'?' pre query,
        copy_part_lem query fits,
        path_part_lem pre (b'?' ∷ query) long short,
      )
      refl

-- All fields of a request's environment but the query string and the path, which the URI gives.
abbrev pub all_fields : Request → CString → ℕ → CString → CString → List (CString × CString)
all_fields r host port query path =
    first_fields r
    ++ ((codes "QUERY_STRING", query)
        ∷ (codes "PATH_INFO", path)
        ∷ (values_of r header_fields
            ++ ((codes "REMOTE_ADDR", host) ∷ (codes "SERVER_PORT", decimal port) ∷ [])))

Fit-append : (fs gs : List (CString × CString)) → Fit (fs ++ gs) → Fit fs × Fit gs
Fit-append [] gs fit = (tt, fit)
Fit-append (f ∷ fs) gs (a, fit) = let (b, c) = Fit-append fs gs fit in ((a, b), c)

bind-ok :
    {A B : Type 0} {m : Outcome A} {a : A} (k : A → Outcome B) {r : Outcome B}
    → m ≡ ok a
    → k a ≡ r
    → (m >>= k) ≡ r
bind-ok k e h = rw e h

-- For a URI of a path of 4 to 515 bytes without '?', a '?' and a query of less than 512 bytes: if each
-- `name=value` fits in 1023 bytes, `build_CGI_param` returns a parameter whose environment is the 21
-- fields in their order, with the query, and as PATH_INFO the path without its first 4 bytes.
pub build_cgi_param_lem :
    (scripts : CString) (r : Request) (host : CString) (port : ℕ) (pre query : CString)
    → r.http_uri ≡ pre ++ (b'?' ∷ query)
    → Lacks b'?' pre
    → 4 ≤ length pre
    → length pre < 516
    → length query < 512
    → Fit (all_fields r host port query (drop 4 pre))
    → build_cgi_param scripts r host port
      ≡ ok (record {
        filename = scripts;
        args = scripts ∷ [];
        envp = field_texts (all_fields r host port query (drop 4 pre));
      })
unfolding build_cgi_param values_of
build_cgi_param_lem scripts r host port pre query uri lacks long short fits fit =
    let parts = split_uri_lem pre query lacks long short fits in
    let uri_fields = (codes "QUERY_STRING", query) ∷ (codes "PATH_INFO", drop 4 pre) ∷ [] in
    let last_fields = (codes "REMOTE_ADDR", host) ∷ (codes "SERVER_PORT", decimal port) ∷ [] in
    let headers = values_of r header_fields in
    let e1 = field_texts (first_fields r) in
    let e2 = e1 ++ field_texts uri_fields in
    let e3 = e2 ++ field_texts headers in
    let (fit1, fit234) = Fit-append (first_fields r) (uri_fields ++ (headers ++ last_fields)) fit in
    let (fit2, fit34) = Fit-append uri_fields (headers ++ last_fields) fit234 in
    let (fit3, fit4) = Fit-append headers last_fields fit34 in
    let room : length {A = CString} [] + length (first_fields r) ≤ cgi_envp_len = omega arith in
    bind-ok _ (set_envp_fields_lem (first_fields r) [] fit1 room) (
      bind-ok _ (ap split_uri uri ∙ parts) (
        bind-ok _ (set_envp_fields_lem uri_fields e1 fit2 (omega arith)) (
          bind-ok _ (set_envp_fields_lem headers e2 fit3 (omega arith))
            (bind-ok _ (set_envp_fields_lem last_fields e3 fit4 (omega arith)) refl))))
