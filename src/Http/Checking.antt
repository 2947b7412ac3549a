-- ===== src/Http/Checking.antt =====
-- On termination and well-formedness, for the state of `handle_http` (src/http.c) that tells a
-- script from a file.
use simle_http_server.Prelude.{
  ℕ, ◌≡◌, refl, List, Bool, Option, none, some, arith, ◌==◌, if◌then◌else◌, inr, ◌≢◌, crash,
  out_of_fuel, assert, Safe, Ran, ran, Safe-bind, Safe-assert, Safe-if, undefined-Safe,
  assertion-Safe, Safe-option, not, pos, ltb, ◌&&◌, ◌||◌,
}
use simle_http_server.Cbuf.{Cbuf}
use simle_http_server.Cbuf.Valid.{IsValid}
use simle_http_server.Task.{
  Ptr, deref, is_null, HttpTask, generate_header_state, send_header_state, processing_cgi,
  check_cgi, get_method, head_method,
}
use simle_http_server.Peer.{Peer, CString, CgiParam, CgiExecutor}
use simle_http_server.Parse.{Request}
use simle_http_server.Text.{codes, str_eq, get_mime_type}
use simle_http_server.Path.{make_full_path, lower_extension}
use simle_http_server.Cgi.{build_cgi_param, assert_made, start_cgi_script}
use simle_http_server.Response.{clrf, ok_num}
use simle_http_server.Site.{Site}
use simle_http_server.Http.{World, with_task}
use simle_http_server.Http.GetHeader.{length_text, file_header, open_file, generate_get_header}
use simle_http_server.Http.Steps.{is_cgi_uri, script_body, run_cgi, serve_static, check_cgi_step}
use simle_http_server.Http.Diagram.{miss, from_check_cgi}
use simle_http_server.Http.Invariant.{TaskOk, Goes}
use simle_http_server.Http.Writing.{
  Wrote, Wrote-IsValid, Wrote-bind, put_task, generate_response_status_line-Wrote,
  generate_response_header-Wrote, generate_response_msg-Wrote,
}
use simle_http_server.Http.Ends.{any, build_cgi_param-Ran, make_full_path-Ran}

length_text-ends : (n : ℕ) → length_text n ≢ crash out_of_fuel
unfolding length_text
length_text-ends n = ground arith

file_header-Wrote :
    (site : Site) (t : HttpTask) (path mime : CString) (last_req : Bool)
    → IsValid t.response_buf
    → Safe (Wrote t) (file_header site t path mime last_req)
unfolding file_header
file_header-Wrote site t path mime last_req v =
    Safe-bind _ {m = length_text (site.file_len path)}
      (any _ (length_text-ends (site.file_len path)))
      (λ len _. Wrote-bind t (generate_response_status_line-Wrote t _ _ v) (λ t1 v1.
        Wrote-bind t1 (generate_response_header-Wrote t1 _ _ v1) (λ t2 v2.
          Wrote-bind t2 (generate_response_header-Wrote t2 _ _ v2) (λ t3 v3.
            Wrote-bind t3 (generate_response_header-Wrote t3 _ _ v3) (λ t4 v4.
              Wrote-bind t4 (generate_response_header-Wrote t4 _ _ v4) (λ t5 v5.
                Wrote-bind t5 (generate_response_header-Wrote t5 _ _ v5) (λ t6 v6.
                  Wrote-bind t6 (generate_response_header-Wrote t6 _ _ v6)
                    (λ t7 v7. generate_response_msg-Wrote t7 clrf v7))))))))

open_file-IsValid :
    (site : Site) (t : HttpTask)
    → IsValid t.response_buf
    → (path : CString) → IsValid (open_file site t path).1.response_buf
unfolding open_file
open_file-IsValid site t v path = ground (arith, v)

generate_get_header-Safe :
    (site : Site) (t : HttpTask) (r : Request) (last_req : Bool)
    → IsValid t.response_buf
    → Safe (λ (code, t', r'). IsValid t'.response_buf) (generate_get_header site t r last_req)
unfolding generate_get_header
generate_get_header-Safe site t r last_req v =
    Safe-bind _ {m = make_full_path site.www_dir r.http_uri} (make_full_path-Ran _ _) (λ q _.
      Safe-if {b = not (site.access q.0)} (λ _. Safe.done _ v)
        (λ _.
          Safe-bind (Wrote t)
            {m = file_header site t (lower_extension q.0).0 (get_mime_type (lower_extension q.0).1)
              last_req}
            (file_header-Wrote site t _ _ last_req v)
            (λ t' wrote.
              Safe.done _
                (open_file-IsValid site t' (Wrote-IsValid t t' wrote) (lower_extension q.0).0))))

serve_static-Goes :
    (site : Site) (w : World) (t : HttpTask) (r : Request)
    → TaskOk w.peer t
    → Safe (Goes check_cgi) (serve_static site w t r)
unfolding serve_static
serve_static-Goes site w t r k =
    Safe-if {b = t.method_type == get_method || t.method_type == head_method}
      (λ _.
        Safe-bind _ {m = generate_get_header site t r t.last_request}
          (generate_get_header-Safe site t r t.last_request k.response)
          (λ (code, t', r') v.
            let state = if code == ok_num then send_header_state else generate_header_state in
            let t2 = record t' { response_code = pos code; state = state } in
            Safe.done _ (t2, put_task w t t2 k v (ground arith), from_check_cgi (code == ok_num))))
      (λ _.
        let t2 = record t { response_code = pos ok_num; state = generate_header_state } in
        Safe.done _ (t2, put_task w t t2 k k.response (ground arith), miss))

assert_made-Ran : (ends : Option (ℕ × ℕ)) → Ran (assert_made ends)
assert_made-Ran none = assertion-Safe
assert_made-Ran (some e) = ran _

-- The start of a script changes the executor alone.
start_cgi_script-Safe :
    (site : Site) (block : Cbuf) (p : Peer) (param : CgiParam) (body : List ℕ)
    → Safe
        (λ p'. (e : Ptr CgiExecutor) × (p' ≡ record p { cgi_executor = e }))
        (start_cgi_script site block p param body)
unfolding start_cgi_script
start_cgi_script-Safe site block p param body =
    Safe-bind _ {m = assert (is_null p.cgi_executor)} (Safe-assert _) (λ _ _.
      Safe-bind _ {m = assert_made site.pipe_stdin} (assert_made-Ran site.pipe_stdin) (λ _ _.
        Safe-bind _ {m = assert_made site.pipe_stdout} (assert_made-Ran site.pipe_stdout) (λ _ _.
          Safe-bind _ {m = assert (not site.fork_fails)} (Safe-assert _)
            (λ _ _. Safe.done _ (_, refl)))))

script_body-Ran : (t : HttpTask) (r : Request) → Ran (script_body t r)
unfolding script_body
script_body-Ran t r =
    Safe-if {b = str_eq r.http_method (codes "POST") && ltb 0 t.body_bytes_num}
      (λ _. Safe-option t.post_body undefined-Safe (λ block. ran _)) (λ _. ran _)

run_cgi-Goes :
    (site : Site) (block : Cbuf) (w : World) (t : HttpTask) (r : Request)
    → TaskOk w.peer t
    → Safe (Goes check_cgi) (run_cgi site block w t r)
unfolding run_cgi
run_cgi-Goes site block w t r k =
    let t2 = record t { state = processing_cgi } in
    let w' = with_task w t2 in
    Safe-option site.cgi_scripts undefined-Safe λ scripts.
      Safe-bind _
        {m = build_cgi_param scripts r (site.inet_ntop w.peer.addres) w.peer.addres.sin_port}
        (build_cgi_param-Ran _ _ _ _)
        (λ param _. Safe-bind _ {m = script_body t r} (script_body-Ran t r) (λ body _.
          Safe-bind _ {m = start_cgi_script site block w'.peer param body}
            (start_cgi_script-Safe site block w'.peer param body)
            (λ p (e, same). Safe.done _ (
              inr (
                t2,
                rw same (record {
                  task = refl;
                  receiving = k.receiving;
                  sending = k.sending;
                  response = k.response;
                  header = λ h. absurd (omega arith);
                }),
                λ _. refl,
              )))))

-- The state that looks at the URI.
pub check_cgi_step-Goes :
    (site : Site) (block : Cbuf) (w : World) (t : HttpTask)
    → TaskOk w.peer t
    → Safe (Goes check_cgi) (check_cgi_step site block w t)
unfolding check_cgi_step
check_cgi_step-Goes site block w t k =
    Safe-bind _ {m = deref w.request} (any _ (ground arith)) (λ r _.
      Safe-if {b = is_cgi_uri r.http_uri} (λ _. run_cgi-Goes site block w t r k)
        (λ _. serve_static-Goes site w t r k))
