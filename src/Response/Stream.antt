-- ===== src/Response/Stream.antt =====
-- `stream_file_content` of src/http.c: which bytes of a file reach the sending buffer.
use simle_http_server.Prelude.{
  ℕ, zero, suc, ◌+◌, ◌-◌, ◌≡◌, refl, sym, List, [], ◌∷◌, ◌++◌, Bool, true, false, arith, ◌∙◌,
  if◌then◌else◌, Outcome, ok, length, append_assoc, append-nil, ap, ltb, take, drop, ◌≢◌,
}
use simle_http_server.Cbuf.{Cbuf, buf_available, buf_data_maxsize, buf_put}
use simle_http_server.Cbuf.Valid.{IsValid, available_lem, full_lem, buf_put-IsValid}
use simle_http_server.Cbuf.Contents.{contents, buf_put_room}
use simle_http_server.Task.{Ptr, HttpTask, FileStream, live, freed}
use simle_http_server.Peer.{Peer}
use simle_http_server.Response.{
  stream_loop, stream_file_content, stream_file_done, stream_file_not_done, stream_file_error,
}

-- The bytes that one pass over a stream can put: those of the file, and the 255 that its end adds.
abbrev pub streamed : FileStream → List ℕ
streamed f = f.rest ++ (if f.fails then [] else 255 ∷ [])

-- What the loop returns with `n` bytes of room.
abbrev pub answer : ℕ → List ℕ → Bool → Cbuf → ℕ × Ptr FileStream × Cbuf
answer n rest fails buf =
    if ltb (length rest) n
    then ((if fails then stream_file_error else stream_file_done), freed, buf)
    else (stream_file_not_done, live (record { rest = drop n rest; fails = fails }), buf)

answer_zero :
    (rest : List ℕ) (fails : Bool) (buf : Cbuf)
    → answer 0 rest fails buf
      ≡ (stream_file_not_done, live (record { rest = rest; fails = fails }), buf)
answer_zero rest fails buf = ground arith

answer_nil :
    (n : ℕ) (fails : Bool) (buf : Cbuf)
    → answer (suc n) [] fails buf
      ≡ ((if fails then stream_file_error else stream_file_done), freed, buf)
answer_nil n fails buf = ground arith

answer_cons :
    (n b : ℕ) (bs : List ℕ) (fails : Bool) (buf : Cbuf)
    → answer (suc n) (b ∷ bs) fails buf ≡ answer n bs fails buf
answer_cons n b bs fails buf = ground arith

take_nil : (n : ℕ) → take {A = ℕ} n [] ≡ []
take_nil zero = refl
take_nil (suc n) = refl

-- What the loop has done, with `n` bytes of room.
pub record Streamed (f : FileStream) (s : Cbuf) (n : ℕ) (out : Outcome (ℕ × Ptr FileStream × Cbuf))
    : Type 0 where
  pub buf : Cbuf
  pub returns : out ≡ ok (answer n f.rest f.fails buf)
  pub sent : contents buf ≡ contents s ++ take n (streamed f)
  pub valid : IsValid buf

stream_loop-full :
    (fuel : ℕ) (fp : Ptr FileStream) {s : Cbuf}
    → IsValid s
    → s.num_byte ≡ buf_data_maxsize
    → stream_loop (suc fuel) fp s ≡ ok (stream_file_not_done, fp, s)
unfolding stream_loop
stream_loop-full fuel fp v full = ground (arith, full_lem v)

stream_loop-end :
    (fuel : ℕ) (fails : Bool) {s : Cbuf}
    → IsValid s
    → s.num_byte ≢ buf_data_maxsize
    → stream_loop (suc fuel) (live (record { rest = []; fails = fails })) s
      ≡ ok (
        (if fails then stream_file_error else stream_file_done),
        freed,
        (if fails then s else (buf_put s 255).1),
      )
unfolding stream_loop
stream_loop-end fuel fails v room = ground (arith, full_lem v)

stream_loop-byte :
    (fuel b : ℕ) (bs : List ℕ) (fails : Bool) {s : Cbuf}
    → IsValid s
    → s.num_byte ≢ buf_data_maxsize
    → stream_loop (suc fuel) (live (record { rest = b ∷ bs; fails = fails })) s
      ≡ stream_loop fuel (live (record { rest = bs; fails = fails })) (buf_put s b).1
unfolding stream_loop
stream_loop-byte fuel b bs fails v room = ground (arith, full_lem v)

-- The loop with `n` bytes of room and one more round of fuel.
pub stream_loop-Streamed :
    (n : ℕ) (rest : List ℕ) (fails : Bool) {s : Cbuf}
    → IsValid s
    → s.num_byte + n ≡ buf_data_maxsize
    → let f : FileStream = record { rest = rest; fails = fails } in
      Streamed f s n (stream_loop (suc n) (live f) s)
stream_loop-Streamed zero rest fails {s} v h = record {
  buf = s;
  returns =
      stream_loop-full 0 (live (record { rest = rest; fails = fails })) v (omega arith)
      ∙ ap ok (sym (answer_zero rest fails s));
  sent = rw append-nil;
  valid = v;
}
stream_loop-Streamed (suc n) [] true {s} v h = record {
  buf = s;
  returns = stream_loop-end (suc n) true v (omega arith) ∙ ap ok (sym (answer_nil n true s));
  sent = rw append-nil;
  valid = v;
}
stream_loop-Streamed (suc n) [] false {s} v h =
    let (p0, p1, p2) = buf_put_room 255 v (omega arith) in
    record {
      buf = (buf_put s 255).1;
      returns =
          stream_loop-end (suc n) false v (omega arith)
          ∙ ap ok (sym (answer_nil n false (buf_put s 255).1));
      sent = rw (take_nil n) p1;
      valid = buf_put-IsValid 255 v;
    }
stream_loop-Streamed (suc n) (b ∷ bs) fails {s} v h =
    let (p0, p1, p2) = buf_put_room b v (omega arith) in
    let ih = stream_loop-Streamed n bs fails (buf_put-IsValid b v) (omega (arith, p2)) in
    record {
      buf = ih.buf;
      returns =
          stream_loop-byte (suc n) b bs fails v (omega arith)
          ∙ ih.returns
          ∙ ap ok (sym (answer_cons n b bs fails ih.buf));
      sent =
          ih.sent
          ∙ rw p1 (
              append_assoc (contents s) (b ∷ []) (take n (bs ++ (if fails then [] else 255 ∷ []))));
      valid = ih.valid;
    }

-- `stream_file_content`, with `n` bytes of room in the sending buffer: it appends the first `n` bytes of
-- the rest of the file followed by a byte 255. It returns STREAM_FILE_DONE, with the file closed, if
-- the rest of the file is shorter than `n`; otherwise STREAM_FILE_NOT_DONE, with the file at the first
-- byte that was not sent.
pub stream_file_content_lem :
    (p : Peer) (t : HttpTask) (f : FileStream)
    → p.http_task ≡ live t
    → t.fp ≡ live f
    → f.fails ≡ false
    → IsValid p.sending_buffer
    → let n = buf_data_maxsize - p.sending_buffer.num_byte in
      (buf : Cbuf) × (stream_file_content p
        ≡ ok (
            if ltb (length f.rest) n
            then (
              stream_file_done,
              record p { http_task = live (record t { fp = freed }); sending_buffer = buf },
            )
            else (
              stream_file_not_done,
              record p {
                http_task = live (record t { fp = live (record f { rest = drop n f.rest }) });
                sending_buffer = buf;
              },
            )))
      × (contents buf ≡ contents p.sending_buffer ++ take n (f.rest ++ (255 ∷ [])))
      × IsValid buf
unfolding stream_file_content
stream_file_content_lem p t f ep ef nf v =
    let n = buf_data_maxsize - p.sending_buffer.num_byte in
    let s = stream_loop-Streamed n f.rest false v (omega arith) in
    let fuel : buf_available p.sending_buffer + 1 ≡ suc n = omega (arith, available_lem v) in
    (s.buf, ground (arith, s.returns), s.sent, s.valid)
