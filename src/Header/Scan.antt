-- ===== src/Header/Scan.antt =====
-- What `read_header_data` of src/http.c has read when it returns, and why it returned.
use simle_http_server.Prelude.{
  ℕ, zero, suc, ◌+◌, ◌≤◌, ◌≡◌, refl, List, [], ◌∷◌, ◌++◌, ◌==◌, ◌&&◌, if◌then◌else◌, arith, ◌≢◌,
  Outcome, ok, length, update, ap, ◌∙◌, not, ◌⊎◌, inl, inr,
}
use native.Mathlib.Decide.{ℕ_discrete}
use simle_http_server.Cbuf.{Cbuf, buf_data_maxsize, exit_success, buf_get}
use simle_http_server.Cbuf.Valid.{IsValid, empty_lem, buf_get-IsValid}
use simle_http_server.Cbuf.Contents.{contents, buf_get_nonempty}
use simle_http_server.Task.{HttpTask, live}
use simle_http_server.Peer.{Peer}
use simle_http_server.Header.{
  header_term_status, token_status, store_byte, header_loop, read_header_data, empty_recv_buf,
  parser_buf_overflow,
}
use simle_http_server.Header.Terminator.{matched, token_status_lem, Unended-matched}
use simle_http_server.Header.Reading.{read_onto, Stored, Stored-update, Reading, Stopped}

-- The result of the loop: the bytes `taken` moved from the buffer to the task.
pub record Scanned (t : HttpTask) (c : Cbuf) (h : List ℕ) (out : Outcome (ℕ × HttpTask × Cbuf))
    : Type 0 where
  pub ret : ℕ
  pub task : HttpTask
  pub buf : Cbuf
  pub taken : List ℕ
  pub returns : out ≡ ok (ret, task, buf)
  pub valid : IsValid buf
  pub split : contents c ≡ taken ++ contents buf
  pub count : task.parse_buf_idx ≡ length (read_onto taken h)
  pub stored : Stored task.parse_buf (read_onto taken h)
  pub kept : task ≡ record t {
    parse_buf = task.parse_buf;
    parse_buf_idx = task.parse_buf_idx;
    header_term_token_status = task.header_term_token_status;
  }
  pub stopped : Stopped buf ret task (read_onto taken h)

abbrev after : HttpTask → ℕ → ℕ → HttpTask
after t b status = record t {
  header_term_token_status = status;
  parse_buf = update t.parse_buf t.parse_buf_idx b;
  parse_buf_idx = t.parse_buf_idx + 1;
}

-- One round, with a byte to read.
header_loop-round :
    (fuel : ℕ) {t : HttpTask} {c : Cbuf} (h : List ℕ)
    → Reading t h
    → IsValid c
    → c.num_byte ≢ 0
    → let b = c.bytes c.tail in
      let t' = after t b (matched (b ∷ h)) in
      header_loop (suc fuel) t c ≡ (
        if length h + 1 == buf_data_maxsize && not (matched (b ∷ h) == header_term_status)
        then ok (parser_buf_overflow, t', (buf_get c).2)
        else header_loop fuel t' (buf_get c).2)
unfolding header_loop store_byte
header_loop-round fuel {t} {c} h r v ne =
    let (e0, e1, e2, e3) = buf_get_nonempty v ne in
    let st : token_status t.header_term_token_status (c.bytes c.tail)
        ≡ ok (matched (c.bytes c.tail ∷ h)) =
      rw r.status (token_status_lem h (c.bytes c.tail) (Unended-matched h r.unended)) in
    ground (arith, empty_lem v, st)

-- The test of a round, when it fails and when it passes.
no_overflow {ℓ} :
    {A : Type ℓ} (n m : ℕ) (x y : A)
    → (m ≡ header_term_status) ⊎ (n ≢ buf_data_maxsize)
    → (if n == buf_data_maxsize && not (m == header_term_status) then x else y) ≡ y
no_overflow n m x y h = ground arith

overflowing {ℓ} :
    {A : Type ℓ} (n m : ℕ) (x y : A)
    → m ≢ header_term_status
    → n ≡ buf_data_maxsize
    → (if n == buf_data_maxsize && not (m == header_term_status) then x else y) ≡ x
overflowing n m x y h e = ground arith

header_loop-empty :
    (fuel : ℕ) {t : HttpTask} {c : Cbuf} (h : List ℕ)
    → Reading t h
    → IsValid c
    → c.num_byte ≡ 0
    → header_loop (suc fuel) t c ≡ ok (empty_recv_buf, t, c)
unfolding header_loop
header_loop-empty fuel {t} {c} h r v e = ground (arith, empty_lem v, Unended-matched h r.unended)

header_loop-done :
    (fuel : ℕ) {t : HttpTask} {c : Cbuf}
    → t.header_term_token_status ≡ header_term_status
    → header_loop (suc fuel) t c ≡ ok (exit_success, record t { header_term_token_status = 0 }, c)
unfolding header_loop
header_loop-done fuel e = ground arith

-- What the loop does after a round is what it does, with the byte of the round before it.
Scanned-cons :
    (b status : ℕ) {t : HttpTask} {c c' : Cbuf} (h : List ℕ)
    {out out' : Outcome (ℕ × HttpTask × Cbuf)}
    → contents c ≡ b ∷ contents c'
    → out ≡ out'
    → Scanned (after t b status) c' (b ∷ h) out'
    → Scanned t c h out
Scanned-cons b status h e same s = record {
  ret = s.ret;
  task = s.task;
  buf = s.buf;
  taken = b ∷ s.taken;
  returns = same ∙ s.returns;
  valid = s.valid;
  split = e ∙ ap (λ l. b ∷ l) s.split;
  count = s.count;
  stored = s.stored;
  kept = s.kept;
  stopped = s.stopped;
}

-- The loop stops with nothing more to read.
Scanned-stop :
    {t t' : HttpTask} {c : Cbuf} (h : List ℕ) (ret : ℕ) {out : Outcome (ℕ × HttpTask × Cbuf)}
    → out ≡ ok (ret, t', c)
    → IsValid c
    → t'.parse_buf_idx ≡ length h
    → Stored t'.parse_buf h
    → t' ≡ record t {
      parse_buf = t'.parse_buf;
      parse_buf_idx = t'.parse_buf_idx;
      header_term_token_status = t'.header_term_token_status;
    }
    → Stopped c ret t' h
    → Scanned t c h out
Scanned-stop {t' = t'} {c = c} h ret same v n s k why = record {
  ret = ret;
  task = t';
  buf = c;
  taken = [];
  returns = same;
  valid = v;
  split = refl;
  count = n;
  stored = s;
  kept = k;
  stopped = why;
}

pub header_loop-Scanned :
    (fuel : ℕ) {t : HttpTask} {c : Cbuf} (h : List ℕ)
    → Reading t h
    → IsValid c
    → c.num_byte + 2 ≤ fuel
    → Scanned t c h (header_loop fuel t c)
header_loop-Scanned zero h r v f = absurd (omega arith)
header_loop-Scanned (suc zero) h r v f = absurd (omega arith)
header_loop-Scanned (suc (suc fuel)) {t} {c} h r v f = elim (ℕ_discrete c.num_byte 0) [
  | yes e ↦
      Scanned-stop h empty_recv_buf (header_loop-empty (suc fuel) h r v e) v r.count r.stored refl
        (Stopped.waiting r (rw e))
  | no ne ↦
      let b = c.bytes c.tail in
      let t' = after t b (matched (b ∷ h)) in
      let (e0, e1, e2, e3) = buf_get_nonempty v ne in
      let v' = buf_get-IsValid v in
      let kept : Stored t'.parse_buf (b ∷ h) =
        (ground arith, Stored-update t.parse_buf t.parse_buf_idx b h (omega arith) r.stored) in
      let round = header_loop-round (suc fuel) h r v ne in
      elim (ℕ_discrete (matched (b ∷ h)) header_term_status) [
        | yes full ↦
            Scanned-cons b (matched (b ∷ h)) h e2 (round ∙ no_overflow _ _ _ _ (inl full)) (
              Scanned-stop (b ∷ h) exit_success (header_loop-done fuel {t = t'} full) v'
                (omega arith) kept refl (Stopped.complete b h r.unended full refl))
        | no open_ended ↦ elim (ℕ_discrete (length h + 1) buf_data_maxsize) [
          | yes over ↦
              Scanned-cons b (matched (b ∷ h)) h e2 (round ∙ overflowing _ _ _ _ open_ended over) (
                Scanned-stop {t' = t'} (b ∷ h) parser_buf_overflow refl v' (omega arith) kept refl
                  (Stopped.overflow (open_ended, r.unended) (omega arith)))
          | no room ↦
              Scanned-cons b (matched (b ∷ h)) h e2 (round ∙ no_overflow _ _ _ _ (inr room)) (
                header_loop-Scanned (suc fuel) (b ∷ h)
                  (record {
                    unended = (open_ended, r.unended);
                    count = (omega arith);
                    room = (omega arith);
                    stored = kept;
                    status = refl;
                  })
                  v' (omega arith))
        ]
      ]
]

-- `read_header_data` on a valid receiving buffer, for a task that has read the bytes `h` of a header
-- in earlier calls: it returns, the bytes it took from the buffer follow `h` in the parser's
-- buffer, and `Stopped` says why it returned.
pub read_header_data-Scanned :
    (p : Peer) (t : HttpTask) (h : List ℕ)
    → p.http_task ≡ live t
    → Reading t h
    → IsValid p.receiving_buffer
    → (ret : ℕ) × (t' : HttpTask) × (c' : Cbuf) × (taken : List ℕ) × (read_header_data p
        ≡ ok (ret, record p { http_task = live t'; receiving_buffer = c' }))
      × (contents p.receiving_buffer ≡ taken ++ contents c')
      × Stored t'.parse_buf (read_onto taken h)
      × (t'.parse_buf_idx ≡ length (read_onto taken h))
      × (t' ≡ record t {
        parse_buf = t'.parse_buf;
        parse_buf_idx = t'.parse_buf_idx;
        header_term_token_status = t'.header_term_token_status;
      })
      × IsValid c'
      × Stopped c' ret t' (read_onto taken h)
unfolding read_header_data
read_header_data-Scanned p t h e r v =
    let s = header_loop-Scanned (p.receiving_buffer.num_byte + 2) h r v (omega arith) in
    (
      s.ret,
      s.task,
      s.buf,
      s.taken,
      ground (arith, s.returns),
      s.split,
      s.stored,
      s.count,
      s.kept,
      s.valid,
      s.stopped,
    )
