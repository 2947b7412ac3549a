-- ===== src/Cbuf/Refine.antt =====
-- The buffer of src/message.c behind its functions, against the bounded queue of `Fifo`.
use simle_http_server.Prelude.{ℕ, ◌≡◌, refl, List, [], ◌∷◌, arith, Option, some, none, pos}
use native.Mathlib.Decide.{ℕ_discrete}
use simle_http_server.Fifo
use simle_http_server.Fifo.{Op, reset, put, get, read, write, Reply}
use simle_http_server.Cbuf.{
  Cbuf, buf_data_maxsize, buf_reset, buf_put, buf_get, exit_success, buf_read, buf_write,
}
use simle_http_server.Cbuf.Valid.{IsValid, buf_get-IsValid, buf_put-IsValid, buf_reset-IsValid}
use simle_http_server.Cbuf.Contents.{
  contents, length-contents, buf_get_nonempty, buf_get_empty, contents-put,
}
use simle_http_server.Cbuf.Bulk.{buf_read_lem, buf_write_lem}

abbrev pub handed : Option ℕ → List ℕ
handed none = []
handed (some b) = b ∷ []

-- One call of a client.
pub call : Cbuf → Op → Reply × Cbuf
call c reset = ((pos exit_success, []), buf_reset c)
call c (put b) = let (ret, c') = buf_put c b in ((pos ret, []), c')
call c get = let (ret, out, c') = buf_get c in ((pos ret, handed out), c')
call c (read n) = let (ret, out, c') = buf_read c n in ((ret, out), c')
call c (write bs) = let (ret, c') = buf_write c bs in ((ret, []), c')

pub calls : Cbuf → List Op → List Reply
unfolding call
calls c [] = []
calls c (op ∷ ops) = let (r, c') = call c op in r ∷ calls c' ops

buf_get-empty_contents : {c : Cbuf} → IsValid c → c.num_byte ≡ 0 → contents c ≡ []
buf_get-empty_contents v e = rw e

-- Each call returns what the queue returns, and leaves the buffer valid, holding the queue.
pub call_refines :
    {c : Cbuf} (op : Op)
    → IsValid c
    → ((call c op).0 ≡ (Fifo.step buf_data_maxsize (contents c) op).0)
      × (contents (call c op).1 ≡ (Fifo.step buf_data_maxsize (contents c) op).1)
      × IsValid (call c op).1
unfolding call Fifo.step
call_refines {c} reset v = (refl, unfold buf_reset in refl, buf_reset-IsValid c)
call_refines {c} (put b) v =
    ground (arith, contents-put b v, buf_put-IsValid b v, length-contents c)
call_refines {c} get v = elim (ℕ_discrete c.num_byte 0) [
  | yes e ↦ ground (arith, buf_get_empty v e, buf_get-empty_contents v e)
  | no ne ↦ ground (arith, buf_get_nonempty v ne, buf_get-IsValid v)
]
call_refines {c} (read n) v = ground (arith, buf_read_lem n v, length-contents c)
call_refines {c} (write bs) v = ground (arith, buf_write_lem bs v, length-contents c)

-- No sequence of calls tells a valid buffer from the bounded queue of the bytes that it holds.
pub calls_refine :
    (ops : List Op) {c : Cbuf}
    → IsValid c
    → calls c ops ≡ Fifo.run buf_data_maxsize (contents c) ops
unfolding calls Fifo.run
calls_refine [] v = refl
calls_refine (op ∷ ops) {c} v =
    let (same, held, v') = call_refines op v in ground (arith, calls_refine ops v')
