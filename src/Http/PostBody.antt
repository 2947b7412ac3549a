-- ===== src/Http/PostBody.antt =====
-- The state of `handle_http` (src/http.c) that receives a POST body: which bytes it stores, and where.
use mathlib.Core.Path.{subst}
use simle_http_server.Prelude.{
  ℕ, zero, suc, ◌+◌, ◌-◌, ◌≤◌, ◌<◌, ◌≡◌, refl, ◌∙◌, Bool, true, false, arith, if◌then◌else◌, leb,
  min, ◌≢◌, Outcome, ok, take, drop, slice_of, update, some,
}
use native.Mathlib.Decide.{ℕ_discrete}
use simle_http_server.Cbuf.{Cbuf, buf_get}
use simle_http_server.Cbuf.Valid.{IsValid, empty_lem, buf_get-IsValid}
use simle_http_server.Cbuf.Contents.{contents, buf_get_nonempty}
use simle_http_server.Task.{HttpTask, check_cgi}
use simle_http_server.Http.{World, continue, return, with_task, keep_conn}
use simle_http_server.Http.Steps.{store_body, body_loop, recv_body_step}

abbrev with_body : HttpTask → (ℕ → ℕ) → ℕ → HttpTask
with_body t block idx = record t { post_body = some block; post_body_idx = idx }

-- What the loop has done, with `n` bytes of the body missing and the block `block`.
record Filled (t : HttpTask) (block : ℕ → ℕ) (c : Cbuf) (n : ℕ)
    (out : Outcome (Bool × HttpTask × Cbuf)) : Type 0 where
  block' : ℕ → ℕ
  buf : Cbuf
  returns :
      out ≡ ok (leb n c.num_byte, with_body t block' (t.post_body_idx + min n c.num_byte), buf)
  stored : slice_of block' t.post_body_idx (min n c.num_byte) ≡ take (min n c.num_byte) (contents c)
  kept : (i : ℕ) → i < t.post_body_idx → block' i ≡ block i
  left : contents buf ≡ drop (min n c.num_byte) (contents c)
  valid : IsValid buf

body_loop-end :
    (fuel : ℕ) (t : HttpTask) (block : ℕ → ℕ) (c : Cbuf)
    → t.post_body ≡ some block
    → t.body_bytes_num ≡ t.post_body_idx
    → body_loop (suc fuel) t c ≡ ok (true, with_body t block (t.post_body_idx + 0), c)
unfolding body_loop
body_loop-end fuel t block c e done = ground (arith, e, done)

body_loop-wait :
    (fuel : ℕ) (t : HttpTask) (block : ℕ → ℕ) (c : Cbuf)
    → IsValid c
    → c.num_byte ≡ 0
    → t.post_body ≡ some block
    → t.post_body_idx < t.body_bytes_num
    → body_loop (suc fuel) t c ≡ ok (false, with_body t block (t.post_body_idx + 0), c)
unfolding body_loop
body_loop-wait fuel t block c v none_left e less = ground (arith, e, empty_lem v)

body_loop-byte :
    (fuel : ℕ) (t : HttpTask) (block : ℕ → ℕ) (c : Cbuf)
    → IsValid c
    → c.num_byte ≢ 0
    → t.post_body ≡ some block
    → t.post_body_idx < t.body_bytes_num
    → body_loop (suc fuel) t c
      ≡ body_loop fuel
          (with_body t (update block t.post_body_idx (c.bytes c.tail)) (t.post_body_idx + 1))
          (buf_get c).2
unfolding body_loop store_body
body_loop-byte fuel t block c v ne e less = ground (arith, e, empty_lem v, buf_get_nonempty v ne)

-- The loop stops at once.
Filled-none :
    (t : HttpTask) (block : ℕ → ℕ) {c : Cbuf} (n : ℕ) {out : Outcome (Bool × HttpTask × Cbuf)}
    → IsValid c
    → min n c.num_byte ≡ 0
    → out ≡ ok (leb n c.num_byte, with_body t block (t.post_body_idx + 0), c)
    → Filled t block c n out
Filled-none t block {c} n v none_moved e = record {
  block' = block;
  buf = c;
  returns = rw none_moved e;
  stored = rw none_moved refl;
  kept = λ i less. refl;
  left = rw none_moved refl;
  valid = v;
}

-- The loop goes on after a byte.
Filled-cons :
    (t : HttpTask) (block : ℕ → ℕ) {c : Cbuf} (n : ℕ) {out out' : Outcome (Bool × HttpTask × Cbuf)}
    → IsValid c
    → c.num_byte ≢ 0
    → out ≡ out'
    → let block' = update block t.post_body_idx (c.bytes c.tail) in
      Filled (with_body t block' (t.post_body_idx + 1)) block' (buf_get c).2 n out'
      → Filled t block c (suc n) out
Filled-cons t block {c} n v ne same f =
    let (e0, e1, e2, e3) = buf_get_nonempty v ne in
    let more : min (suc n) c.num_byte ≡ suc (min n (buf_get c).2.num_byte) = omega (arith, e3) in
    let first : f.block' t.post_body_idx ≡ c.bytes c.tail =
      f.kept t.post_body_idx (omega arith) ∙ ground arith in
    let index : t.post_body_idx + 1 ≡ suc t.post_body_idx = omega arith in
    let m = min n (buf_get c).2.num_byte in
    let rest : slice_of f.block' (suc t.post_body_idx) m ≡ take m (contents (buf_get c).2) =
      subst (λ i. slice_of f.block' i m ≡ take m (contents (buf_get c).2)) index f.stored in
    record {
      block' = f.block';
      buf = f.buf;
      returns = same ∙ ground (arith, f.returns, e3);
      stored = rw (more, e2) (ground (arith, first, rest));
      kept = λ i less. f.kept i (omega arith) ∙ ground arith;
      left = rw (more, e2) f.left;
      valid = f.valid;
    }

body_loop-Filled :
    (n fuel : ℕ) (t : HttpTask) (block : ℕ → ℕ) {c : Cbuf}
    → IsValid c
    → t.post_body ≡ some block
    → t.body_bytes_num ≡ t.post_body_idx + n
    → c.num_byte < fuel
    → Filled t block c n (body_loop fuel t c)
body_loop-Filled n zero t block v e total h = absurd (omega arith)
body_loop-Filled zero (suc fuel) t block {c} v e total h =
    Filled-none t block 0 v (omega arith)
      (body_loop-end fuel t block c e (omega arith) ∙ ground arith)
body_loop-Filled (suc n) (suc fuel) t block {c} v e total h = elim (ℕ_discrete c.num_byte 0) [
  | yes z ↦
      Filled-none t block (suc n) v (omega arith)
        (body_loop-wait fuel t block c v z e (omega arith) ∙ ground arith)
  | no ne ↦
      let (e0, e1, e2, e3) = buf_get_nonempty v ne in
      let b = c.bytes c.tail in
      let ih =
        body_loop-Filled n fuel (with_body t (update block t.post_body_idx b) (t.post_body_idx + 1))
          (update block t.post_body_idx b) (buf_get-IsValid v) refl (omega arith)
          (omega (arith, e3)) in
      Filled-cons t block n v ne (body_loop-byte fuel t block c v ne e (omega arith)) ih
]

-- The state that receives a body, with a block for it of which the first `post_body_idx` bytes are
-- filled: it moves as many bytes from the receiving buffer as the body lacks, or all that there are, to
-- the block, in order and after those that were there. If the body is then complete the state becomes
-- CHECK_CGI; if not, the handler returns KEEP_CONN.
pub recv_body_step_lem :
    (w : World) (t : HttpTask) (block : ℕ → ℕ)
    → t.post_body ≡ some block
    → t.post_body_idx ≤ t.body_bytes_num
    → IsValid w.peer.receiving_buffer
    → let n = t.body_bytes_num - t.post_body_idx in
      let k = min n w.peer.receiving_buffer.num_byte in
      (block' : ℕ → ℕ) × (c : Cbuf) × (recv_body_step w t
        ≡ ok (
            let w' = record w { peer = record w.peer { receiving_buffer = c } } in
            let t' = record t { post_body = some block'; post_body_idx = t.post_body_idx + k } in
            if leb n w.peer.receiving_buffer.num_byte
            then continue (with_task w' (record t' { state = check_cgi }))
            else return keep_conn (with_task w' t')))
      × (slice_of block' t.post_body_idx k ≡ take k (contents w.peer.receiving_buffer))
      × ((i : ℕ) → i < t.post_body_idx → block' i ≡ block i)
      × (contents c ≡ drop k (contents w.peer.receiving_buffer))
      × IsValid c
unfolding recv_body_step
recv_body_step_lem w t block e less v =
    let c = w.peer.receiving_buffer in
    let f =
      body_loop-Filled (t.body_bytes_num - t.post_body_idx) (c.num_byte + 1) t block v e
        (omega arith) (omega arith) in
    (f.block', f.buf, rw f.returns refl, f.stored, f.kept, f.left, f.valid)
