-- ===== src/Header/Ending.antt =====
-- Where `read_header_data` (src/http.c) stops in bytes that end with their first empty line.
use mathlib.Core.List.{append_cancel_left}
use simle_http_server.Prelude.{
  ℕ, ◌+◌, ◌≤◌, ◌<◌, ◌≡◌, ◌≢◌, refl, sym, ap, ◌∙◌, List, [], ◌∷◌, ◌++◌, ok, arith, length,
  length-append, append_assoc, append-nil, slice_of,
}
use simle_http_server.Cbuf.{Cbuf, buf_data_maxsize, exit_success}
use simle_http_server.Cbuf.Valid.{IsValid}
use simle_http_server.Cbuf.Contents.{contents}
use simle_http_server.Task.{HttpTask, live}
use simle_http_server.Peer.{Peer}
use simle_http_server.Header.{header_term_status, read_header_data, empty_recv_buf}
use simle_http_server.Header.Terminator.{matched, Unended, Unended-matched}
use simle_http_server.Header.Reading.{
  Unended-past, read_onto, read_onto-append, Stored, Reading, Stopped,
}
use simle_http_server.Header.Scan.{read_header_data-Scanned}

-- After the bytes `h`, the bytes `l` are the first ones to end with the terminator.
abbrev pub Closes : List ℕ → List ℕ → Type 0
Closes h [] = matched h ≡ header_term_status
Closes h (c ∷ l) = (matched h ≢ header_term_status) × Closes (c ∷ h) l

Unended-before :
    (cs h h' : List ℕ) (c b : ℕ) → read_onto cs (c ∷ h) ≡ b ∷ h' → Unended h' → Unended h
Unended-before [] h h' c b e u = let same : h ≡ h' = cc in rw same u
Unended-before (d ∷ cs) h h' c b e u = (Unended-before cs (c ∷ h) h' d b e u).1

-- Bytes in which no header ends are fewer than `l`.
shorter :
    (taken l x y h : List ℕ)
    → taken ++ x ≡ l ++ y
    → Closes h l
    → Unended (read_onto taken h)
    → length taken < length l
shorter [] [] x y h e k u = absurd (Unended-matched h u k)
shorter [] (c ∷ l) x y h e k u = omega arith
shorter (c ∷ taken) [] x y h e k u = absurd (Unended-matched h (Unended-past (c ∷ taken) h u) k)
shorter (c ∷ taken) (d ∷ l) x y h e k u =
    let same : c ≡ d = cc in
    let rest : taken ++ x ≡ l ++ y = cc in
    let less = shorter taken l x y (d ∷ h) rest k.1 (rw same at u) in omega arith

-- Bytes at whose end a header ends for the first time are `l`.
exactly :
    (taken l x y h h' : List ℕ) (b : ℕ)
    → taken ++ x ≡ l ++ y
    → Closes h l
    → read_onto taken h ≡ b ∷ h'
    → Unended h'
    → matched (b ∷ h') ≡ header_term_status
    → taken ≡ l
exactly [] [] x y h h' b e k r u m = refl
exactly [] (c ∷ l) x y h h' b e k r u m = absurd (k.0 (ap matched r ∙ m))
exactly (c ∷ taken) [] x y h h' b e k r u m =
    absurd (Unended-matched h (Unended-before taken h h' c b r u) k)
exactly (c ∷ taken) (d ∷ l) x y h h' b e k r u m =
    let same : c ≡ d = cc in
    let rest : taken ++ x ≡ l ++ y = cc in
    let ih = exactly taken l x y (d ∷ h) h' b rest k.1 (rw same at r) u m in cc

length-read_onto : (l h : List ℕ) → length (read_onto l h) ≡ length l + length h
length-read_onto [] h = omega arith
length-read_onto (c ∷ l) h = omega (arith, length-read_onto l (c ∷ h))

Stored-past : (f : ℕ → ℕ) (l h : List ℕ) → Stored f (read_onto l h) → Stored f h
Stored-past f [] h s = s
Stored-past f (c ∷ l) h s = (Stored-past f l (c ∷ h) s).1

slice_of-Stored :
    (f : ℕ → ℕ) (l h : List ℕ) → Stored f (read_onto l h) → slice_of f (length h) (length l) ≡ l
slice_of-Stored f [] h s = refl
slice_of-Stored f (c ∷ l) h s =
    let here = (Stored-past f l (c ∷ h) s).0 in let ih = slice_of-Stored f l (c ∷ h) s in cc

stopped_lem :
    (taken l extra h : List ℕ) {c' : Cbuf} {ret : ℕ} {t' : HttpTask} {g : List ℕ}
    → taken ++ contents c' ≡ l ++ extra
    → Closes h l
    → length h + length l ≤ buf_data_maxsize
    → read_onto taken h ≡ g
    → Stopped c' ret t' g
    → (ret ≡ exit_success) × (taken ≡ l) × (t'.header_term_token_status ≡ 0)
stopped_lem taken l extra h e k fits r (Stopped.complete b h' u m s) =
    (refl, exactly taken l _ extra h h' b e k r u m, s)
stopped_lem taken l extra h {c' = c'} e k fits r (Stopped.waiting reading none_left) =
    let less = shorter taken l (contents c') extra h e k (rw r reading.unended) in
    let size = ap length e in
    let none = ap length none_left in
    absurd (omega (arith, size, none, length-append taken (contents c'), length-append l extra))
stopped_lem taken l extra h {c' = c'} e k fits r (Stopped.overflow u full) =
    let less = shorter taken l (contents c') extra h e k (rw r u) in
    let size = ap length r ∙ full in absurd (omega (arith, size, length-read_onto taken h))

-- A task that has read the bytes `before` of a header. The receiving buffer holds the rest `l`, with which
-- the header ends for the first time and fits the parser's buffer, and perhaps more bytes. The task takes
-- `l` and leaves what follows, and its parser's buffer holds the whole header.
pub read_header_data_whole :
    (p : Peer) (t : HttpTask) (before l extra : List ℕ)
    → p.http_task ≡ live t
    → Reading t (read_onto before [])
    → IsValid p.receiving_buffer
    → contents p.receiving_buffer ≡ l ++ extra
    → Closes (read_onto before []) l
    → length (before ++ l) ≤ buf_data_maxsize
    → (t' : HttpTask) × (c' : Cbuf) × (read_header_data p
        ≡ ok (exit_success, record p { http_task = live t'; receiving_buffer = c' }))
      × (contents c' ≡ extra)
      × IsValid c'
      × (slice_of t'.parse_buf 0 t'.parse_buf_idx ≡ before ++ l)
      × (t' ≡ record t {
        parse_buf = t'.parse_buf;
        parse_buf_idx = t'.parse_buf_idx;
        header_term_token_status = 0;
      })
read_header_data_whole p t before l extra e reading v holds k fits =
    let h = read_onto before [] in
    let (ret, t', c', taken, returns, split, stored, count, kept, valid, stopped) =
      read_header_data-Scanned p t h e reading v in
    let joined = length-append before l in
    let old = length-read_onto before [] in
    let (success, all, status) =
      stopped_lem taken l extra h (sym split ∙ holds) k (omega arith) refl stopped in
    let whole : read_onto taken h ≡ read_onto (before ++ l) [] =
      ap (λ x. read_onto x h) all ∙ sym (read_onto-append before l []) in
    let size : t'.parse_buf_idx ≡ length (before ++ l) =
      omega (arith, count, ap length whole, length-read_onto (before ++ l) []) in
    let held : Stored t'.parse_buf (read_onto (before ++ l) []) = rw whole at stored in
    (
      t',
      c',
      rw success at returns,
      append_cancel_left l (contents c') extra (rw (← all) (sym split) ∙ holds),
      valid,
      rw size (slice_of-Stored t'.parse_buf (before ++ l) [] held),
      rw status at kept,
    )

-- Where a first part `l` of what is left of a header was read, the loop stopped for want of bytes.
waiting_lem :
    (taken l later h : List ℕ) {c' : Cbuf} {ret : ℕ} {t' : HttpTask} {g : List ℕ}
    → taken ++ contents c' ≡ l
    → later ≢ []
    → Closes h (l ++ later)
    → length h + length (l ++ later) ≤ buf_data_maxsize
    → read_onto taken h ≡ g
    → Stopped c' ret t' g
    → (ret ≡ empty_recv_buf) × (taken ≡ l) × (contents c' ≡ []) × Reading t' g
waiting_lem taken l [] h e ne k fits r stopped = absurd (ne refl)
waiting_lem taken l (x ∷ later) h {c' = c'} e ne k fits r (Stopped.complete b h' u m s) =
    let all =
      exactly taken (l ++ x ∷ later) (contents c' ++ x ∷ later) [] h h' b
        (sym (append_assoc taken (contents c') (x ∷ later))
          ∙ ap (λ y. y ++ x ∷ later) e
          ∙ sym (append-nil (l ++ x ∷ later)))
        k r u m in
    absurd (
      omega (
        arith,
        ap length all,
        ap length e,
        length-append taken (contents c'),
        length-append l (x ∷ later),
      ))
waiting_lem taken l later h {c' = c'} e ne k fits r (Stopped.waiting reading none_left) =
    (refl, sym (append-nil taken) ∙ ap (λ y. taken ++ y) (sym none_left) ∙ e, none_left, reading)
waiting_lem taken l (x ∷ later) h {c' = c'} e ne k fits r (Stopped.overflow u full) =
    let size = ap length r ∙ full in
    absurd (
      omega (
        arith,
        size,
        length-read_onto taken h,
        ap length e,
        length-append taken (contents c'),
        length-append l (x ∷ later),
      ))

-- A task that has read the bytes `before` of a header, with a receiving buffer that holds the next bytes
-- `l` of it, but not all of them: it takes them all and waits for more.
pub read_header_data_part :
    (p : Peer) (t : HttpTask) (before l later : List ℕ)
    → p.http_task ≡ live t
    → Reading t (read_onto before [])
    → IsValid p.receiving_buffer
    → contents p.receiving_buffer ≡ l
    → later ≢ []
    → Closes (read_onto before []) (l ++ later)
    → length (before ++ (l ++ later)) ≤ buf_data_maxsize
    → (t' : HttpTask) × (c' : Cbuf) × (read_header_data p
        ≡ ok (empty_recv_buf, record p { http_task = live t'; receiving_buffer = c' }))
      × (contents c' ≡ [])
      × IsValid c'
      × Reading t' (read_onto (before ++ l) [])
      × (t' ≡ record t {
        parse_buf = t'.parse_buf;
        parse_buf_idx = t'.parse_buf_idx;
        header_term_token_status = t'.header_term_token_status;
      })
read_header_data_part p t before l later e reading v holds ne k fits =
    let h = read_onto before [] in
    let (ret, t', c', taken, returns, split, stored, count, kept, valid, stopped) =
      read_header_data-Scanned p t h e reading v in
    let joined = length-append before (l ++ later) in
    let old = length-read_onto before [] in
    let (waits, all, left, reading') =
      waiting_lem taken l later h (sym split ∙ holds) ne k (omega arith) refl stopped in
    let whole : read_onto taken h ≡ read_onto (before ++ l) [] =
      ap (λ x. read_onto x h) all ∙ sym (read_onto-append before l []) in
    (t', c', rw waits at returns, left, valid, rw whole at reading', kept)

pub Closes-past : (a b h : List ℕ) → Closes h (a ++ b) → Closes (read_onto a h) b
Closes-past [] b h k = k
Closes-past (c ∷ a) b h k = Closes-past a b (c ∷ h) k.1
