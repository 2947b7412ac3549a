-- ===== src/Header.antt =====
-- `read_header_data` of src/http.c: the bytes of a request's header go from the receiving buffer to
-- the parser's buffer, up to the empty line.
pub mod Terminator
pub mod Reading
pub mod Scan
pub mod Ending
use simle_http_server.Prelude.{
  ℕ, zero, suc, ◌+◌, ◌-◌, ◌≡◌, List, [], ◌∷◌, Bool, true, false, not, Option, none, some, Outcome,
  ok, crash, undefined, out_of_fuel, assertion, assert, ◌>>=◌, ◌>>◌, ◌==◌, ltb, if◌then◌else◌,
  update,
}
use simle_http_server.Cbuf.{Cbuf, buf_empty, buf_get, buf_data_maxsize, byte_of, exit_success}
use simle_http_server.Task.{HttpTask, live, deref}
use simle_http_server.Peer.{Peer}

-- `CL`, which is '\r'
abbrev pub cl : ℕ
cl = 13

-- `RF`, which is '\n'
abbrev pub rf : ℕ
rf = 10

abbrev pub header_term_status : ℕ
header_term_status = 4

abbrev pub parser_buf_overflow : ℕ
parser_buf_overflow = 2

abbrev pub empty_recv_buf : ℕ
empty_recv_buf = 3

-- The new `header_term_token_status` after a byte. Status 2 tests for '\r' twice, as the source
-- does.
unfoldable pub token_status : ℕ → ℕ → Outcome ℕ
token_status status b =
    if status == 0
    then ok (if b == cl then 1 else status)
    else if status == 1
    then ok (if b == rf then 2 else if not (b == cl) then 0 else status)
    else if status == 2
    then ok (if b == cl then 3 else if b == cl then 1 else 0)
    else if status == 3
    then ok (if b == rf then header_term_status else if b == cl then 1 else 0)
    else crash assertion

-- `parse_buf[parse_buf_idx] = data; parse_buf_idx++`
unfoldable pub store_byte : HttpTask → ℕ → Outcome HttpTask
store_byte t b =
    if ltb t.parse_buf_idx buf_data_maxsize
    then ok (record t {
      parse_buf = update t.parse_buf t.parse_buf_idx b;
      parse_buf_idx = t.parse_buf_idx + 1;
    })
    else crash undefined

-- The loop, with fuel.
unfoldable pub header_loop : ℕ → HttpTask → Cbuf → Outcome (ℕ × HttpTask × Cbuf)
header_loop zero t c = crash out_of_fuel
header_loop (suc fuel) t c =
    if t.header_term_token_status == header_term_status
    then ok (exit_success, record t { header_term_token_status = 0 }, c)
    else if buf_empty c
    then ok (empty_recv_buf, t, c)
    else let (ret, out, c') = buf_get c in
      let b = byte_of out 0 in
      (do
        status ← token_status t.header_term_token_status b
        t' ← store_byte (record t { header_term_token_status = status }) b
        let rest = header_loop fuel t' c'
        let overflow = ok (parser_buf_overflow, t', c')
        (if t'.parse_buf_idx == buf_data_maxsize
            then (if not (status == header_term_status) then overflow else rest)
            else rest))

-- The fuel is the number of bytes in the buffer, and two more rounds.
unfoldable pub read_header_data : Peer → Outcome (ℕ × Peer)
read_header_data p = do
  t ← deref p.http_task
  (ret, t', c') ← header_loop (p.receiving_buffer.num_byte + 2) t p.receiving_buffer
  ok (ret, record p { http_task = live t'; receiving_buffer = c' })
