-- ===== src/Header/Reading.antt =====
-- The state of a task in the middle of `read_header_data` (src/http.c), and how its loop stops.
use simle_http_server.Prelude.{ℕ, ◌<◌, ◌≤◌, ◌≡◌, refl, List, [], ◌∷◌, ◌++◌, arith, length, update}
use simle_http_server.Cbuf.{Cbuf, buf_data_maxsize, exit_success}
use simle_http_server.Cbuf.Contents.{contents}
use simle_http_server.Task.{HttpTask}
use simle_http_server.Header.{header_term_status, empty_recv_buf, parser_buf_overflow}
use simle_http_server.Header.Terminator.{matched, Unended}

-- The bytes `cs` read after those of `h`, from the last one back.
abbrev pub read_onto : List ℕ → List ℕ → List ℕ
read_onto [] h = h
read_onto (c ∷ cs) h = read_onto cs (c ∷ h)

pub Unended-past : (cs h : List ℕ) → Unended (read_onto cs h) → Unended h
Unended-past [] h s = s
Unended-past (c ∷ cs) h s = (Unended-past cs (c ∷ h) s).1

pub read_onto-append : (p q h : List ℕ) → read_onto (p ++ q) h ≡ read_onto q (read_onto p h)
read_onto-append [] q h = refl
read_onto-append (c ∷ p) q h = read_onto-append p q (c ∷ h)

-- The array holds the bytes, the first one at index 0.
abbrev pub Stored : (ℕ → ℕ) → List ℕ → Type 0
Stored f [] = Unit
Stored f (b ∷ h) = (f (length h) ≡ b) × Stored f h

pub Stored-update :
    (f : ℕ → ℕ) (i b : ℕ) (h : List ℕ) → length h ≤ i → Stored f h → Stored (update f i b) h
Stored-update f i b [] le s = tt
Stored-update f i b (x ∷ h) le s = (ground arith, Stored-update f i b h (omega arith) s.1)

-- A task in the middle of a header: it has read the bytes `h`, in which no header ends.
pub record Reading (t : HttpTask) (h : List ℕ) : Type 0 where
  pub unended : Unended h
  pub count : t.parse_buf_idx ≡ length h
  pub room : length h < buf_data_maxsize
  pub stored : Stored t.parse_buf h
  pub status : t.header_term_token_status ≡ matched h

-- Why the loop stopped, with the bytes that the task has read then.
pub data Stopped (c : Cbuf) : ℕ → HttpTask → List ℕ → Type 0 where
  -- the header is complete: its last byte ends the terminator, and no earlier one does
  complete :
      {t : HttpTask} (b : ℕ) (h : List ℕ)
      → Unended h
      → matched (b ∷ h) ≡ header_term_status
      → t.header_term_token_status ≡ 0
      → Stopped c exit_success t (b ∷ h)
  -- no byte is left to read
  waiting :
      {t : HttpTask} {h : List ℕ} → Reading t h → contents c ≡ [] → Stopped c empty_recv_buf t h
  -- the parser's buffer is full
  overflow :
      {t : HttpTask} {h : List ℕ}
      → Unended h
      → length h ≡ buf_data_maxsize
      → Stopped c parser_buf_overflow t h
