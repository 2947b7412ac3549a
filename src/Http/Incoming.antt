-- ===== src/Http/Incoming.antt =====
-- A request that is received, whole or in parts, in `handle_http` (src/http.c), with the parser of
-- src/parser.
use simle_http_server.Prelude.{
  ℕ, suc, ◌≤◌, ◌≡◌, ◌≢◌, refl, ap, sym, ◌∙◌, List, [], ◌∷◌, ◌++◌, Bool, true, false, arith, ok,
  some, length, slice_of, negsuc,
}
use simle_http_server.Cbuf.{Cbuf, buf_data_maxsize, exit_success}
use simle_http_server.Cbuf.Valid.{IsValid}
use simle_http_server.Cbuf.Contents.{contents}
use simle_http_server.Task.{live, HttpTask, recv_header_state, check_cgi, no_method, get_method}
use simle_http_server.Text.{codes, str_eq}
use simle_http_server.Header.{read_header_data, token_status, empty_recv_buf}
use simle_http_server.Header.Terminator.{matched, token_status_lem}
use simle_http_server.Header.Reading.{read_onto, Reading}
use simle_http_server.Header.Ending.{
  Closes, Closes-past, read_header_data_whole, read_header_data_part,
}
use simle_http_server.Parse.{Request, parse}
use simle_http_server.Parse.Yacc.{yyparse}
use simle_http_server.Parse.Walk.{Walk, Walk-print}
use simle_http_server.Parse.RoundTrip.{print, IsWritten}
use simle_http_server.Parse.Whole.{parse-print}
use simle_http_server.Site.{Site}
use simle_http_server.Http.{World, continue, keep_conn}
use simle_http_server.Http.Steps.{choose_method, note_last, parse_header, recv_header_step}
use simle_http_server.Http.Handle.{step, follow, handle_loop, handle_http}
use simle_http_server.Http.Shared.{handle_live}

-- The search of `read_header_data` in the state `s` before the bytes `l`.
abbrev Closing : ℕ → List ℕ → Type 0
Closing s l = (h : List ℕ) → matched h ≡ s → Closes h l

matched_next :
    (h : List ℕ) (s c n : ℕ) → matched h ≡ s → s ≢ 4 → token_status s c ≡ ok n → matched (c ∷ h) ≡ n
matched_next h s c n m ne e =
    let next = rw m at (token_status_lem h c (λ bad. ne (rw (← m) bad))) in
    let same : ok (matched (c ∷ h)) ≡ ok n = sym next ∙ e in cc

unmatched : (h : List ℕ) (s : ℕ) → matched h ≡ s → s ≢ 4 → matched h ≢ 4
unmatched h s m ne bad = ne (sym m ∙ bad)

Closing-Walk : Walk Closing
unfolding token_status
Closing-Walk = record {
  char = λ s c rest h ne f g m.
      let clean = matched_next g s c 0 m (ground arith) (ground arith) in
      (unmatched g s m (ground arith), f (c ∷ g) clean);
  crlf = λ rest f g m.
      let one = matched_next g 0 13 1 m (λ bad. omega arith) refl in
      let two = matched_next (13 ∷ g) 1 10 2 one (λ bad. omega arith) refl in
      (
        unmatched g 0 m (λ bad. omega arith),
        (unmatched (13 ∷ g) 1 one (λ bad. omega arith), f (10 ∷ 13 ∷ g) two),
      );
  last = λ g m.
      let three = matched_next g 2 13 3 m (λ bad. omega arith) refl in
      let four = matched_next (13 ∷ g) 3 10 4 three (λ bad. omega arith) refl in
      (
        unmatched g 2 m (λ bad. omega arith),
        (unmatched (13 ∷ g) 3 three (λ bad. omega arith), four),
      );
}

print-Closes : (r : Request) → IsWritten r → Closes [] (print r)
print-Closes r w = Walk-print Closing-Walk r w [] refl

-- A task that has read the bytes `before` of a request, and of which else nothing but its response
-- buffer is known to be in use.
pub record Idle (t : HttpTask) (before : List ℕ) : Type 0 where
  pub state : t.state ≡ recv_header_state
  pub code : t.response_code ≡ negsuc 0
  pub last : t.last_request ≡ false
  pub method : t.method_type ≡ no_method
  pub reading : Reading t (read_onto before [])

-- The task after the header of a GET request.
abbrev pub got : HttpTask → Request → HttpTask
got t r = record (note_last t r) { method_type = get_method; state = check_cgi }

choose_method_get :
    (site : Site) (t : HttpTask) (r : Request)
    → r.http_method ≡ codes "GET"
    → choose_method site t r ≡ ok (record t { method_type = get_method; state = check_cgi })
unfolding choose_method str_eq
choose_method_get site t r e = rw e refl

step_parsed :
    (site : Site) (block : Cbuf) (w : World) (t t' t'' : HttpTask) (c : Cbuf) (r : Request)
    (before : List ℕ)
    → Idle t before
    → read_header_data w.peer
      ≡ ok (exit_success, record w.peer { http_task = live t'; receiving_buffer = c })
    → parse site.yyparse (slice_of t'.parse_buf 0 t'.parse_buf_idx) ≡ ok (some r)
    → choose_method site (note_last t' r) r ≡ ok t''
    → step site block w t
      ≡ ok (
          continue (record {
            request = live r;
            peer = record w.peer { http_task = live t''; receiving_buffer = c };
          }))
unfolding step recv_header_step parse_header
step_parsed site block w t t' t'' c r before idle returns parsed chosen =
    ground (arith, idle.state, idle.code, idle.last, idle.method, returns, parsed, chosen)

-- The round that receives the last bytes `l` of the header of the request `r`, with `extra` bytes behind
-- them.
pub request_round :
    (site : Site) (block : Cbuf) (w : World) (t : HttpTask) (r : Request) (realloc : ℕ → Bool)
    (before l extra : List ℕ)
    → w.peer.http_task ≡ live t
    → Idle t before
    → IsValid w.peer.receiving_buffer
    → contents w.peer.receiving_buffer ≡ l ++ extra
    → print r ≡ before ++ l
    → site.yyparse ≡ yyparse realloc
    → ((size : ℕ) → realloc size ≡ true)
    → IsWritten r
    → length (print r) ≤ buf_data_maxsize
    → r.http_method ≡ codes "GET"
    → (t' : HttpTask) × (c : Cbuf) × (step site block w t
        ≡ ok (
            continue (record {
              request = live r;
              peer = record w.peer { http_task = live (got t' r); receiving_buffer = c };
            })))
      × (contents c ≡ extra)
      × IsValid c
      × (t' ≡ record t {
        parse_buf = t'.parse_buf;
        parse_buf_idx = t'.parse_buf_idx;
        header_term_token_status = 0;
      })
request_round site block w t r realloc before l extra e idle v holds whole parser always written
      fits get =
    let (t', c, returns, left, valid, taken, kept) =
      read_header_data_whole w.peer t before l extra e idle.reading v holds
        (Closes-past before l [] (rw whole at (print-Closes r written))) (rw whole at fits) in
    let parsed : parse site.yyparse (slice_of t'.parse_buf 0 t'.parse_buf_idx) ≡ ok (some r) =
      rw (parser, taken, ← whole) (parse-print realloc r always written fits) in
    let chosen = choose_method_get site (note_last t' r) r get in
    (
      t',
      c,
      step_parsed site block w t t' (got t' r) c r before idle returns parsed chosen,
      left,
      valid,
      kept,
    )

waits :
    (site : Site) (block : Cbuf) (fuel : ℕ) (w : World) (t t' : HttpTask) (c : Cbuf)
    (before : List ℕ)
    → w.peer.http_task ≡ live t
    → Idle t before
    → read_header_data w.peer
      ≡ ok (empty_recv_buf, record w.peer { http_task = live t'; receiving_buffer = c })
    → handle_loop site block (suc fuel) w
      ≡ ok (
        keep_conn,
        record w { peer = record w.peer { http_task = live t'; receiving_buffer = c } },
      )
unfolding handle_loop follow step recv_header_step parse_header
waits site block fuel w t t' c before e idle returns =
    simp e (ground (arith, idle.state, idle.code, idle.last, idle.method, returns))

-- A request as it is written, of at most 8192 bytes, of which the bytes `before` were read in earlier
-- calls; the receiving buffer holds the next bytes `l` of it, but not all that are missing. One call of
-- `handle_http` takes them and returns KEEP_CONN, whatever the parser; the task has then read `before`
-- and `l` and is as idle as it was.
pub handle_http_part :
    (site : Site) (block : Cbuf) (w : World) (t : HttpTask) (r : Request) (before l later : List ℕ)
    → w.peer.http_task ≡ live t
    → Idle t before
    → IsValid w.peer.receiving_buffer
    → contents w.peer.receiving_buffer ≡ l
    → later ≢ []
    → print r ≡ before ++ (l ++ later)
    → IsWritten r
    → length (print r) ≤ buf_data_maxsize
    → (t' : HttpTask) × (c : Cbuf) × (handle_http site block w
        ≡ ok (
          keep_conn,
          record w { peer = record w.peer { http_task = live t'; receiving_buffer = c } },
        ))
      × (contents c ≡ [])
      × IsValid c
      × Idle t' (before ++ l)
      × (t'.response_buf ≡ t.response_buf)
handle_http_part site block w t r before l later e idle v holds ne whole written fits =
    let (t', c, returns, left, valid, reading, kept) =
      read_header_data_part w.peer t before l later e idle.reading v holds ne
        (Closes-past before (l ++ later) [] (rw whole at (print-Closes r written)))
        (rw whole at fits) in
    (
      t',
      c,
      handle_live site block w t e (ground (arith, idle.state))
          ∙ waits site block 6 w t t' c before e idle returns,
      left,
      valid,
      record {
        state = ap (λ x. x.state) kept ∙ idle.state;
        code = ap (λ x. x.response_code) kept ∙ idle.code;
        last = ap (λ x. x.last_request) kept ∙ idle.last;
        method = ap (λ x. x.method_type) kept ∙ idle.method;
        reading = reading;
      },
      ap (λ x. x.response_buf) kept,
    )
