-- ===== src/Http/Receiving.antt =====
-- On termination and well-formedness, for the states of `handle_http` (src/http.c) that receive.
use simle_http_server.Prelude.{
  ℕ, ◌+◌, ◌≡◌, refl, ap, ◌∙◌, List, [], ◌∷◌, Bool, true, false, arith, ◌==◌, none, some, inl, inr,
  ◌≢◌, ok, crash, out_of_fuel, assert, Safe, Ran, ran, Safe-bind, Safe-assert, Safe-if, Safe-eq,
  Safe-of, ==→eq, undefined-Safe, int_eq, not, negsuc, ltb, slice_of,
}
use simle_http_server.Cbuf.{Cbuf}
use simle_http_server.Cbuf.Valid.{IsValid}
use simle_http_server.Task.{live, deref, HttpTask, recv_header_state, no_method}
use simle_http_server.Peer.{Peer, CString}
use simle_http_server.Parse.{Request, parse, frame_loop, frame_state}
use simle_http_server.Text.{atoi, skip_spaces, after_spaces, signed_value, codes}
use simle_http_server.Header.{read_header_data, empty_recv_buf, parser_buf_overflow}
use simle_http_server.Header.Reading.{Reading, Stopped}
use simle_http_server.Header.Scan.{read_header_data-Scanned}
use simle_http_server.Cgi.{get_header_value}
use simle_http_server.Site.{Site}
use simle_http_server.Http.{World}
use simle_http_server.Http.Steps.{choose_method, note_last, parse_header, recv_header_step}
use simle_http_server.Http.Diagram.{◌⟶◌, ⟶-leaves, from_header}
use simle_http_server.Http.Invariant.{TaskOk, Goes}

-- What `yyparse` is asked for: it ends.
abbrev pub Ends : Site → Type 0
Ends site = (l : List ℕ) → Ran (site.yyparse l)

Stopped-waiting :
    {c : Cbuf} {ret : ℕ} {t : HttpTask} {h : List ℕ}
    → Stopped c ret t h
    → ret ≡ empty_recv_buf
    → Reading t h
Stopped-waiting (Stopped.complete b h u m s) e = absurd (omega arith)
Stopped-waiting (Stopped.waiting r l) e = r
Stopped-waiting (Stopped.overflow u l) e = absurd (omega arith)

abbrev AfterHeader : Peer → HttpTask → ℕ × Peer → Type 0
AfterHeader p t (ret, p') =
    (t' : HttpTask) × (c' : Cbuf) × (p' ≡ record p { http_task = live t'; receiving_buffer = c' })
    × IsValid c'
    × (t'.response_buf ≡ t.response_buf)
    × (ret ≡ empty_recv_buf → (h : List ℕ) × Reading t' h)

read_header_data-Safe :
    (p : Peer) (t : HttpTask)
    → TaskOk p t
    → t.state ≡ recv_header_state
    → Safe (AfterHeader p t) (read_header_data p)
read_header_data-Safe p t k e =
    let (h, reading) = k.header e in
    let (ret, t', c', taken, returns, split, stored, count, kept, valid, stopped) =
      read_header_data-Scanned p t h k.task reading k.receiving in
    Safe-eq (ret, record p { http_task = live t'; receiving_buffer = c' }) returns
      (t', c', refl, valid, ap (λ x. x.response_buf) kept, λ w. (_, Stopped-waiting stopped w))

frame_loop-Ran : (l : List ℕ) (s offset : ℕ) → Ran (frame_loop s l offset)
unfolding frame_loop
frame_loop-Ran [] s offset = ran _
frame_loop-Ran (c ∷ l) s offset =
    Safe-if {b = s == 4} (λ _. ran _)
      (λ _.
        Safe-if {b = ltb offset 8192}
          (λ _.
            Safe-bind _ {m = frame_loop (frame_state s c) l (offset + 1)}
              (frame_loop-Ran l (frame_state s c) (offset + 1)) (λ _ _. ran _))
          (λ _. undefined-Safe))

parse-Ran : (site : Site) (l : List ℕ) → Ends site → Ran (parse site.yyparse l)
unfolding parse
parse-Ran site l ends =
    Safe-bind _ {m = frame_loop 0 l 0} (frame_loop-Ran l 0 0)
      (λ r _. Safe-if {b = r.0 == 4} (λ _. ends r.1) (λ _. ran _))

-- After the method is looked at: the task has left the state that receives the header.
abbrev Chosen : HttpTask → HttpTask → Type 0
Chosen t t' = (t'.response_buf ≡ t.response_buf) × (recv_header_state ⟶ t'.state)

choose_method_lem :
    (site : Site) (t t' : HttpTask) (r : Request) → choose_method site t r ≡ ok t' → Chosen t t'
unfolding choose_method
choose_method_lem site t t' r e = (ground arith, from_header t'.state (ground arith))

signed_value-ends : (minus : Bool) (s : CString) → signed_value minus s ≢ crash out_of_fuel
unfolding signed_value
signed_value-ends minus s = ground arith

after_spaces-ends : (s : CString) → after_spaces s ≢ crash out_of_fuel
unfolding after_spaces
after_spaces-ends [] = ground arith
after_spaces-ends (c ∷ s) =
    ground
      (arith, signed_value-ends true s, signed_value-ends false s, signed_value-ends false (c ∷ s))

pub atoi-ends : (s : CString) → atoi s ≢ crash out_of_fuel
unfolding atoi
atoi-ends s = after_spaces-ends (skip_spaces s)

choose_method-ends :
    (site : Site) (t : HttpTask) (r : Request) → choose_method site t r ≢ crash out_of_fuel
unfolding choose_method
choose_method-ends site t r =
    ground (arith, atoi-ends (get_header_value r (codes "Content-Length")))

choose_method-Safe :
    (site : Site) (t : HttpTask) (r : Request) → Safe (Chosen t) (choose_method site t r)
choose_method-Safe site t r =
    Safe-of (choose_method site t r) (choose_method-ends site t r)
      (λ t' e. choose_method_lem site t t' r e)

abbrev AfterHeaderOk : Peer → HttpTask → Type 0
AfterHeaderOk p t =
    (p.http_task ≡ live t)
    × IsValid p.receiving_buffer
    × IsValid p.sending_buffer
    × IsValid t.response_buf

parse_header-Goes :
    (site : Site) (w : World) (t : HttpTask) (ret : ℕ)
    → Ends site
    → AfterHeaderOk w.peer t
    → (ret ≡ empty_recv_buf → (h : List ℕ) × Reading t h)
    → Safe (Goes recv_header_state) (parse_header site w ret)
unfolding parse_header
parse_header-Goes site w t ret ends (e, vr, vs, vt) reading =
    Safe-if {b = ret == parser_buf_overflow} (λ _. Safe.done _ (inl refl))
      (λ _.
        Safe-if {b = ret == empty_recv_buf}
          (λ waiting. Safe.done _ (
            inr (
              t,
              record {
                task = e;
                receiving = vr;
                sending = vs;
                response = vt;
                header = λ _. reading (==→eq _ _ waiting);
              },
              λ e'. absurd (omega arith),
            )))
          (λ _.
            Safe-bind (λ t0. t0 ≡ t) {m = deref w.peer.http_task} (Safe-eq t (rw e) refl)
              (λ t0 same.
                Safe-bind _ {m = parse site.yyparse (slice_of t0.parse_buf 0 t0.parse_buf_idx)}
                  (parse-Ran site _ ends)
                  (elim [
                    | none ↦ λ _. Safe.done _ (inl refl)
                    | some r ↦ λ _.
                        Safe-bind (Chosen (note_last t0 r))
                          {m = choose_method site (note_last t0 r) r}
                          (choose_method-Safe site (note_last t0 r) r)
                          (λ t' (same_buf, edge). Safe.done _ (
                            t',
                            record {
                              task = refl;
                              receiving = vr;
                              sending = vs;
                              response = rw (same_buf ∙ ap (λ x. x.response_buf) same) vt;
                              header = λ back. absurd (⟶-leaves edge back);
                            },
                            edge,
                          ))
                  ]))))

-- The state that receives the header.
pub recv_header_step-Goes :
    (site : Site) (w : World) (t : HttpTask)
    → Ends site
    → TaskOk w.peer t
    → t.state ≡ recv_header_state
    → Safe (Goes recv_header_state) (recv_header_step site w t)
unfolding recv_header_step
recv_header_step-Goes site w t ends k e =
    Safe-bind _ {m = assert (int_eq t.response_code (negsuc 0))} (Safe-assert _) (λ _ _.
      Safe-bind _ {m = assert (not t.last_request)} (Safe-assert _) (λ _ _.
        Safe-bind _ {m = assert (t.method_type == no_method)} (Safe-assert _) (λ _ _.
          Safe-bind (AfterHeader w.peer t) {m = read_header_data w.peer}
            (read_header_data-Safe w.peer t k e)
            (λ r (t', c', same, valid, buf, reading).
              parse_header-Goes site (record w { peer = r.1 }) t' r.0 ends
                (rw same refl, rw same valid, rw same k.sending, rw buf k.response) reading))))
