-- ===== src/Parse.antt =====
-- `parse` of src/parser/parse.c: it looks for the empty line itself, and hands the bytes up to it to
-- `yyparse`. The parser that yacc and lex generate is a parameter.
pub mod Lexer
pub mod Yacc
pub mod Grammar
pub mod Sound
pub mod Accepts
pub mod Runs
pub mod Written
pub mod Print
pub mod RoundTrip
pub mod Walk
pub mod Whole
pub mod Framing
use simle_http_server.Prelude.{
  ℕ, zero, suc, ◌+◌, List, [], ◌∷◌, Bool, ◌||◌, Option, none, some, Outcome, ok, crash, undefined,
  ◌>>=◌, ◌==◌, ltb, if◌then◌else◌,
}
use simle_http_server.Peer.{CString}

-- `headers` with `header_count` elements.
pub record Request : Type 0 where
  pub http_version : CString
  pub http_method : CString
  pub http_uri : CString
  pub headers : List (CString × CString)

abbrev pub state_start : ℕ
state_start = 0

abbrev pub state_cr : ℕ
state_cr = 1

abbrev pub state_crlf : ℕ
state_crlf = 2

abbrev pub state_crlfcr : ℕ
state_crlfcr = 3

abbrev pub state_crlfcrlf : ℕ
state_crlfcrlf = 4

-- The body of the loop: the `switch` picks the byte that is expected.
unfoldable pub frame_state : ℕ → ℕ → ℕ
frame_state state ch =
    if state == state_start || state == state_crlf
    then (if ch == 13 then state + 1 else state_start)
    else if state == state_cr || state == state_crlfcr
    then (if ch == 10 then state + 1 else state_start)
    else state_start

-- The loop over the bytes that are left, with `offset` bytes written to `buf`: the last state, and
-- the bytes written from there on.
unfoldable pub frame_loop : ℕ → List ℕ → ℕ → Outcome (ℕ × List ℕ)
frame_loop state [] offset = ok (state, [])
frame_loop state (ch ∷ rest) offset =
    let next = frame_loop (frame_state state ch) rest (offset + 1) in
    if state == state_crlfcrlf
    then ok (state, [])
    else if ltb offset 8192
    then (do (final, written) ← next; ok (final, ch ∷ written))
    else crash undefined

-- The result is null if no empty line was found, or the grammar refuses the bytes.
unfoldable pub parse : (List ℕ → Outcome (Option Request)) → List ℕ → Outcome (Option Request)
unfolding frame_loop
parse yyparse buffer = do
  (state, buf) ← frame_loop state_start buffer 0
  if state == state_crlfcrlf then yyparse buf else ok none
