-- ===== src/Parse/Framing.antt =====
-- The empty line as `parse` (src/parser/parse.c) finds it, against that of `read_header_data`
-- (src/http.c).
use simle_http_server.Prelude.{
  ℕ, ◌+◌, ◌≤◌, ◌≡◌, List, [], ◌∷◌, ◌++◌, false, ◌==◌, ◌&&◌, arith, ◌≢◌, Outcome, ok, length, Option,
  none, length-append, slice_of,
}
use simle_http_server.Cbuf.{Cbuf, exit_success}
use simle_http_server.Cbuf.Valid.{IsValid}
use simle_http_server.Cbuf.Contents.{contents}
use simle_http_server.Task.{HttpTask, live}
use simle_http_server.Peer.{Peer}
use simle_http_server.Header.{cl, header_term_status, read_header_data}
use simle_http_server.Header.Ending.{Closes, read_header_data_whole}
use simle_http_server.Header.Terminator.{matched, Unended, Unended-matched, last_is}
use simle_http_server.Header.Reading.{Unended-past, read_onto, Reading}
use simle_http_server.Parse.{Request, frame_state, frame_loop, parse, state_start, state_crlf}

-- No '\r' follows another. The bytes are listed from the last one back.
abbrev pub Singles : List ℕ → Type 0
Singles [] = Unit
Singles (b ∷ h) = ((last_is cl h && b == cl) ≡ false) × Singles h

Singles-past : (cs h : List ℕ) → Singles (read_onto cs h) → Singles h
Singles-past [] h s = s
Singles-past (c ∷ cs) h s = (Singles-past cs (c ∷ h) s).1

frame_state_lem :
    (h : List ℕ) (b : ℕ)
    → matched h ≢ header_term_status
    → (last_is cl h && b == cl) ≡ false
    → frame_state (matched h) b ≡ matched (b ∷ h)
unfolding frame_state
frame_state_lem [] b ne s = ground arith
frame_state_lem (x ∷ []) b ne s = ground arith
frame_state_lem (x ∷ y ∷ []) b ne s = ground arith
frame_state_lem (x ∷ y ∷ z ∷ []) b ne s = ground arith
frame_state_lem (x ∷ y ∷ z ∷ w ∷ h) b ne s = ground arith

frame_loop_lem :
    (cs h : List ℕ) (b offset : ℕ)
    → Unended (read_onto cs h)
    → Singles (b ∷ read_onto cs h)
    → offset + length cs + 1 ≤ 8192
    → frame_loop (matched h) (cs ++ (b ∷ [])) offset
      ≡ ok (matched (b ∷ read_onto cs h), cs ++ (b ∷ []))
unfolding frame_loop
frame_loop_lem [] h b offset u s room = ground (arith, frame_state_lem h b, Unended-matched h u)
frame_loop_lem (c ∷ cs) h b offset u s room =
    let uh = Unended-past (c ∷ cs) h u in
    let sc = Singles-past cs (c ∷ h) s.1 in
    ground (
      arith,
      frame_state_lem h c,
      Unended-matched h uh,
      frame_loop_lem cs (c ∷ h) b (offset + 1) u s,
    )

-- A header that `read_header_data` completes with the byte `b`, if no '\r' in it follows another
-- and it fits the parser's buffer, is handed to `yyparse` whole.
pub parse_agrees :
    (yyparse : List ℕ → Outcome (Option Request)) (cs : List ℕ) (b : ℕ)
    → Unended (read_onto cs [])
    → matched (b ∷ read_onto cs []) ≡ header_term_status
    → Singles (b ∷ read_onto cs [])
    → length cs + 1 ≤ 8192
    → parse yyparse (cs ++ (b ∷ [])) ≡ yyparse (cs ++ (b ∷ []))
unfolding parse
parse_agrees yyparse cs b u m s room = ground (arith, frame_loop_lem cs [] b 0 u s)

-- A line end that stands after another '\r', followed by the empty line.
abbrev pub doubled : List ℕ
doubled = 13 ∷ 13 ∷ 10 ∷ 13 ∷ 10 ∷ []

frame_loop-doubled :
    (p : List ℕ) (s offset : ℕ)
    → frame_loop s p offset ≡ ok (state_start, p)
    → offset + length p + 5 ≤ 8192
    → frame_loop s (p ++ doubled) offset ≡ ok (state_crlf, p ++ doubled)
unfolding frame_loop frame_state
frame_loop-doubled [] s offset h room = ground arith
frame_loop-doubled (c ∷ p) s offset h room =
    ground (arith, frame_loop-doubled p (frame_state s c) (offset + 1))

doubled_missed :
    (yyparse : List ℕ → Outcome (Option Request)) (pre : List ℕ)
    → frame_loop state_start pre 0 ≡ ok (state_start, pre)
    → length pre + 5 ≤ 8192
    → parse yyparse (pre ++ doubled) ≡ ok none
unfolding parse
doubled_missed yyparse pre h room = ground (arith, frame_loop-doubled pre state_start 0)

-- A task at the start of a request whose receiving buffer holds `pre`, one more '\r' and "\r\n\r\n", and
-- perhaps more bytes. If no header ends before that, the bytes fit the parser's buffer, and `pre` leaves
-- `parse` in its first state, then `read_header_data` completes the header with these bytes and leaves
-- what follows, but `parse` finds no empty line in what was read, and returns null.
pub parse_misses :
    (yyparse : List ℕ → Outcome (Option Request)) (p : Peer) (t : HttpTask) (pre extra : List ℕ)
    → p.http_task ≡ live t
    → Reading t []
    → IsValid p.receiving_buffer
    → contents p.receiving_buffer ≡ (pre ++ doubled) ++ extra
    → Closes [] (pre ++ doubled)
    → length (pre ++ doubled) ≤ 8192
    → frame_loop state_start pre 0 ≡ ok (state_start, pre)
    → (t' : HttpTask) × (c' : Cbuf) × (read_header_data p
        ≡ ok (exit_success, record p { http_task = live t'; receiving_buffer = c' }))
      × (contents c' ≡ extra)
      × (slice_of t'.parse_buf 0 t'.parse_buf_idx ≡ pre ++ doubled)
      × (parse yyparse (slice_of t'.parse_buf 0 t'.parse_buf_idx) ≡ ok none)
parse_misses yyparse p t pre extra e reading v holds closes fits h =
    let (t', c', returns, left, valid, whole, kept) =
      read_header_data_whole p t [] (pre ++ doubled) extra e reading v holds closes fits in
    let room : length pre + 5 ≤ 8192 = omega (arith, length-append pre doubled) in
    (t', c', returns, left, whole, rw whole (doubled_missed yyparse pre h room))
