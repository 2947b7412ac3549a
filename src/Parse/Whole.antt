-- ===== src/Parse/Whole.antt =====
-- `parse` (src/parser/parse.c) with the parser of src/parser/parser.y, on a request as it is written.
use simle_http_server.Prelude.{ℕ, ◌+◌, ◌≤◌, ◌≡◌, List, ok, Bool, true, arith, some, length}
use simle_http_server.Parse.{Request, frame_state, frame_loop, parse}
use simle_http_server.Parse.Yacc.{yyparse}
use simle_http_server.Parse.Walk.{Walk, Walk-print}
use simle_http_server.Parse.RoundTrip.{print, IsWritten, yyparse-print}

-- From the state `s` the loop takes all bytes, if they fit, and they end with the empty line.
abbrev Frames : ℕ → List ℕ → Type 0
Frames s l = (offset : ℕ) → offset + length l ≤ 8192 → frame_loop s l offset ≡ ok (4, l)

Frames-Walk : Walk Frames
unfolding frame_loop frame_state
Frames-Walk = record {
  char = λ s c rest h ne f offset room.
      let after = f (offset + 1) (omega arith) in ground (arith, after);
  crlf = λ rest f offset room. let after = f (offset + 2) (omega arith) in ground (arith, after);
  last = λ offset room. ground arith;
}

-- Round trip: a request that is written as the grammar wants it, whose parts fit the arrays of `Request`
-- and which takes at most 8192 bytes, is read back by `parse`, if there is always memory for the
-- headers. A URI with a single space in it, or a header with no value, is not written so.
pub parse-print :
    (realloc : ℕ → Bool) (r : Request)
    → ((size : ℕ) → realloc size ≡ true)
    → IsWritten r
    → length (print r) ≤ 8192
    → parse (yyparse realloc) (print r) ≡ ok (some r)
unfolding parse
parse-print realloc r always w room =
    let framed = Walk-print Frames-Walk r w 0 (omega arith) in
    let back = yyparse-print realloc r always w in ground (arith, framed, back)
