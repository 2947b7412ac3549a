-- ===== src/Comm/Putback.antt =====
-- The loops of src/message.c that put unsent bytes back into a buffer.
use simle_http_server.Prelude.{ℕ, zero, suc, ◌+◌, ◌≤◌, ◌≡◌, refl, arith, ◌∙◌, ok}
use simle_http_server.Cbuf.{Cbuf, buf_get, buf_putback}
use simle_http_server.Cbuf.Valid.{IsValid, buf_get-IsValid}
use simle_http_server.Cbuf.Contents.{buf_get_nonempty, putback-get}
use simle_http_server.Cbuf.Bulk.{get_many}
use simle_http_server.Comm.{putback_loop}

pub get_many-add : (m n : ℕ) (c : Cbuf) → get_many (m + n) c ≡ get_many n (get_many m c)
unfolding get_many
get_many-add zero n c = let e : 0 + n ≡ n = omega arith in rw e
get_many-add (suc m) n c =
    let e : suc m + n ≡ suc (m + n) = omega arith in rw e (get_many-add m n (buf_get c).2)

-- One more round is a round on the buffer that the others leave.
putback_loop-suc :
    (k : ℕ) (c c' : Cbuf) → putback_loop k c ≡ ok c' → putback_loop (suc k) c ≡ putback_loop 1 c'
unfolding putback_loop
putback_loop-suc zero c c' h = ground arith
putback_loop-suc (suc k) c c' h = ground (arith, putback_loop-suc k (buf_putback c).1 c')

-- Putting back the last `k` bytes that were taken undoes the taking.
pub putback_loop-get_many :
    (k : ℕ) {c : Cbuf} → IsValid c → k ≤ c.num_byte → putback_loop k (get_many k c) ≡ ok c
unfolding putback_loop get_many
putback_loop-get_many zero v h = refl
putback_loop-get_many (suc k) {c} v h =
    let (e0, e1, e2, e3) = buf_get_nonempty v (omega arith) in
    let ih = putback_loop-get_many k (buf_get-IsValid v) (omega arith) in
    putback_loop-suc k (get_many k (buf_get c).2) (buf_get c).2 ih ∙ ground (arith, putback-get v)
