-- ===== src/Cbuf/Valid.antt =====
-- The well-formedness of a `cbuf_t` (src/message.c), which every `buf_*` function keeps.
use simle_http_server.Prelude.{ℕ, ◌+◌, ◌-◌, ◌%◌, ◌≤◌, ◌<◌, ◌≡◌, ◌==◌, arith}
use simle_http_server.Cbuf.{
  Cbuf, buf_data_maxsize, buf_reset, buf_available, buf_empty, buf_full, buf_put, buf_get,
  buf_putback,
}

pub record IsValid (c : Cbuf) : Type 0 where
  pub size_max : c.size ≡ buf_data_maxsize
  pub head_in : c.head < buf_data_maxsize
  pub tail_in : c.tail < buf_data_maxsize
  pub num_in : c.num_byte ≤ buf_data_maxsize
  pub head_at : c.head ≡ (c.tail + c.num_byte) % buf_data_maxsize

pub buf_reset-IsValid : (c : Cbuf) → IsValid (buf_reset c)
unfolding buf_reset
buf_reset-IsValid c = omega arith

pub available_lem : {c : Cbuf} → IsValid c → buf_available c ≡ buf_data_maxsize - c.num_byte
unfolding buf_available
available_lem {c} v = rw v.size_max (omega arith)

pub empty_lem : {c : Cbuf} → IsValid c → buf_empty c ≡ (c.num_byte == 0)
unfolding buf_empty
empty_lem v = ground arith

pub full_lem : {c : Cbuf} → IsValid c → buf_full c ≡ (c.num_byte == buf_data_maxsize)
unfolding buf_full
full_lem v = ground arith

pub buf_put-IsValid : {c : Cbuf} (b : ℕ) → IsValid c → IsValid (buf_put c b).1
unfolding buf_put
buf_put-IsValid b v = ground arith

pub buf_get-IsValid : {c : Cbuf} → IsValid c → IsValid (buf_get c).2
unfolding buf_get
buf_get-IsValid v = ground arith

pub buf_putback-IsValid : {c : Cbuf} → IsValid c → IsValid (buf_putback c).1
unfolding buf_putback
buf_putback-IsValid v = ground arith
