-- ===== src/Cbuf.antt =====
-- The circular buffer of src/message.c: `cbuf_t` and the functions `buf_*`.
-- A function that updates `*cbuf` returns the new buffer; every caller passes the address of a
-- buffer and, to `buf_get`, of a byte, so the tests for null pointers always pass.
pub mod Valid
pub mod Contents
pub mod Bulk
pub mod Refine
use simle_http_server.Prelude.{
  ℕ, zero, suc, ◌*◌, ◌%◌, List, [], ◌∷◌, Option, none, some, Bool, true, false, not, ltb, ◌==◌,
  if◌then◌else◌, add_size, sub_size, ℤ, pos, negsuc, int_of_size, update, length,
}

abbrev pub exit_success : ℕ
exit_success = 0

abbrev pub exit_failure : ℕ
exit_failure = 1

abbrev pub buf_data_maxsize : ℕ
buf_data_maxsize = 1024 * 8

-- `bytes` is the array `data`.
pub record Cbuf : Type 0 where
  pub bytes : ℕ → ℕ
  pub head : ℕ
  pub tail : ℕ
  pub size : ℕ
  pub num_byte : ℕ

unfoldable pub buf_reset : Cbuf → Cbuf
buf_reset c = record c { head = 0; tail = 0; size = buf_data_maxsize; num_byte = 0 }

unfoldable pub buf_available : Cbuf → ℕ
buf_available c = sub_size c.size c.num_byte

unfoldable pub buf_empty : Cbuf → Bool
unfolding buf_available
buf_empty c = buf_available c == c.size

unfoldable pub buf_full : Cbuf → Bool
unfolding buf_available
buf_full c = buf_available c == 0

unfoldable pub buf_put : Cbuf → ℕ → ℕ × Cbuf
unfolding buf_full
buf_put c data_byte =
    if not (buf_full c)
    then (
      exit_success,
      record c {
        bytes = update c.bytes c.head data_byte;
        head = add_size c.head 1 % c.size;
        num_byte = add_size c.num_byte 1;
      },
    )
    else (exit_failure, c)

-- The option is what is stored through the pointer `data`.
unfoldable pub buf_get : Cbuf → ℕ × Option ℕ × Cbuf
unfolding buf_empty
buf_get c =
    if not (buf_empty c)
    then (
      exit_success,
      some (c.bytes c.tail),
      record c { tail = add_size c.tail 1 % c.size; num_byte = sub_size c.num_byte 1 },
    )
    else (exit_failure, none, c)

-- The byte at a pointer that was handed to `buf_get`, and held `old` before.
abbrev pub byte_of : Option ℕ → ℕ → ℕ
byte_of none old = old
byte_of (some b) old = b

unfoldable pub buf_putback : Cbuf → ℕ × Cbuf
unfolding buf_full
buf_putback c =
    if not (buf_full c)
    then (
      exit_success,
      record c {
        tail = sub_size (if c.tail == 0 then c.size else c.tail) 1;
        num_byte = add_size c.num_byte 1;
      },
    )
    else (exit_failure, c)

-- The loop of `buf_read` with the rounds that are left: whether it came to its end, the bytes that
-- it stored, and the buffer.
unfoldable pub read_loop : ℕ → Cbuf → Bool × List ℕ × Cbuf
read_loop zero c = (true, [], c)
read_loop (suc n) c =
    let (ret, out, c') = buf_get c in
    let rest = read_loop n c' in
    if ret == exit_success
    then (rest.0, elim out [ none ↦ rest.1 | some b ↦ b ∷ rest.1 ], rest.2)
    else (false, [], c')

-- The value returned, the bytes stored in `data`, and the buffer.
unfoldable pub buf_read : Cbuf → ℕ → ℤ × List ℕ × Cbuf
unfolding read_loop
buf_read c num_bytes =
    let n = if ltb c.num_byte num_bytes then c.num_byte else num_bytes in
    let (done, out, c') = read_loop n c in
    (if done then int_of_size n else pos exit_failure, out, c')

-- The loop of `buf_write` over the bytes that are left.
unfoldable pub write_loop : Cbuf → List ℕ → Bool × Cbuf
write_loop c [] = (true, c)
write_loop c (b ∷ bs) =
    let (ret, c') = buf_put c b in
    let rest = write_loop c' bs in if ret == exit_success then rest else (false, c')

-- The list holds the `num_bytes` bytes of `data`.
unfoldable pub buf_write : Cbuf → List ℕ → ℤ × Cbuf
unfolding buf_available write_loop
buf_write c data_bytes =
    if ltb (buf_available c) (length data_bytes)
    then (negsuc 0, c)
    else let (done, c') = write_loop c data_bytes in
      (if done then int_of_size (length data_bytes) else negsuc 0, c')
