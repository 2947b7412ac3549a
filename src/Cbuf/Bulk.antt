-- ===== src/Cbuf/Bulk.antt =====
-- `buf_read` and `buf_write` of src/message.c: how many bytes they move, which, and their results.
use simle_http_server.Prelude.{
  ℕ, zero, suc, ◌+◌, ◌-◌, ◌≤◌, ◌≡◌, refl, List, [], ◌∷◌, ◌++◌, true, if◌then◌else◌, arith, length,
  pos, negsuc, append-nil, append_assoc, take, drop, min, take_all, drop_all, length-append, leb,
}
use simle_http_server.Cbuf.{
  Cbuf, buf_data_maxsize, buf_put, buf_get, read_loop, buf_read, write_loop, buf_write,
}
use simle_http_server.Cbuf.Valid.{IsValid, available_lem, buf_get-IsValid, buf_put-IsValid}
use simle_http_server.Cbuf.Contents.{contents, length-contents, buf_get_nonempty, contents-put}

-- The buffer after `n` calls of `buf_get`.
unfoldable pub get_many : ℕ → Cbuf → Cbuf
get_many zero c = c
get_many (suc n) c = get_many n (buf_get c).2

-- What the loop of `buf_read` has done after `n` rounds, if the buffer holds `n` bytes.
pub record Took (n : ℕ) (c : Cbuf) : Type 0 where
  pub looped : read_loop n c ≡ (true, take n (contents c), get_many n c)
  pub valid : IsValid (get_many n c)
  pub left : contents (get_many n c) ≡ drop n (contents c)
  pub count : (get_many n c).num_byte ≡ c.num_byte - n

pub read_loop-Took : (n : ℕ) {c : Cbuf} → IsValid c → n ≤ c.num_byte → Took n c
unfolding read_loop get_many
read_loop-Took zero {c} v h = record { looped = refl; valid = v; left = refl; count = omega arith }
read_loop-Took (suc n) {c} v h =
    let (e0, e1, e2, e3) = buf_get_nonempty v (omega arith) in
    let ih = read_loop-Took n (buf_get-IsValid v) (omega arith) in ground arith

-- `buf_read` of `n` bytes stores the oldest bytes, as many as there are up to `n`, returns their
-- number, and leaves the others.
pub buf_read_lem :
    {c : Cbuf} (n : ℕ)
    → IsValid c
    → ((buf_read c n).0 ≡ pos (min n c.num_byte))
      × ((buf_read c n).1 ≡ take n (contents c))
      × (contents (buf_read c n).2 ≡ drop n (contents c))
      × IsValid (buf_read c n).2
unfolding buf_read
buf_read_lem {c} n v = ground (
  arith,
  read_loop-Took n v,
  read_loop-Took c.num_byte v,
  take_all n (contents c),
  take_all c.num_byte (contents c),
  drop_all n (contents c),
  drop_all c.num_byte (contents c),
  length-contents c,
)

-- The buffer after the loop of `buf_write`, if there is room.
write_loop_lem :
    (bs : List ℕ) {c : Cbuf}
    → IsValid c
    → c.num_byte + length bs ≤ buf_data_maxsize
    → ((write_loop c bs).0 ≡ true)
      × (contents (write_loop c bs).1 ≡ contents c ++ bs)
      × IsValid (write_loop c bs).1
unfolding write_loop
write_loop_lem [] {c} v h = (refl, rw append-nil, v)
write_loop_lem (b ∷ bs) {c} v h =
    let (e0, e1) = contents-put b v in
    let n1 = length-contents (buf_put c b).1 in
    let n0 = length-append (contents c) (b ∷ []) in
    let ih = write_loop_lem bs (buf_put-IsValid b v) in
    ground (arith, length-contents c, append_assoc (contents c) (b ∷ []) bs)

-- `buf_write` appends all the bytes and returns their number, if they fit; otherwise it returns -1
-- and leaves the buffer as it was.
pub buf_write_lem :
    {c : Cbuf} (bs : List ℕ)
    → IsValid c
    → let fits = leb (c.num_byte + length bs) buf_data_maxsize in
      ((buf_write c bs).0 ≡ (if fits then pos (length bs) else negsuc 0))
      × (contents (buf_write c bs).1 ≡ (if fits then contents c ++ bs else contents c))
      × IsValid (buf_write c bs).1
unfolding buf_write
buf_write_lem {c} bs v = ground (arith, available_lem v, write_loop_lem bs v)
