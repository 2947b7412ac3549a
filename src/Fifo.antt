-- ===== src/Fifo.antt =====
-- What `cbuf_t` of src/message.c promises: a queue of at most `buf_data_maxsize` bytes, oldest
-- first, with the calls that a client makes and what each returns.
use simle_http_server.Prelude.{
  ℕ, ◌+◌, List, [], ◌∷◌, ◌++◌, if◌then◌else◌, ◌==◌, leb, length, take, drop, min, ℤ, pos, negsuc,
}

pub data Op : Type 0 where
  reset : Op
  put : ℕ → Op
  get : Op
  read : ℕ → Op
  write : List ℕ → Op

-- The value returned, and the bytes handed over.
abbrev pub Reply : Type 0
Reply = ℤ × List ℕ

abbrev pub Fifo : Type 0
Fifo = List ℕ

module _ (capacity : ℕ) where
  unfoldable pub step : Fifo → Op → Reply × Fifo
  step q reset = ((pos 0, []), [])
  step q (put b) = if length q == capacity then ((pos 1, []), q) else ((pos 0, []), q ++ (b ∷ []))
  step [] get = ((pos 1, []), [])
  step (b ∷ q) get = ((pos 0, b ∷ []), q)
  step q (read n) = ((pos (min n (length q)), take n q), drop n q)
  step q (write bs) =
      if leb (length q + length bs) capacity
      then ((pos (length bs), []), q ++ bs)
      else ((negsuc 0, []), q)

  unfoldable pub run : Fifo → List Op → List Reply
  run q [] = []
  run q (op ∷ ops) = let (r, q') = step q op in r ∷ run q' ops
