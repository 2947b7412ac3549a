-- ===== src/Cbuf/Contents.antt =====
-- The bytes that a `cbuf_t` (src/message.c) holds, oldest first, and what one call of a `buf_*`
-- function does to them.
use simle_http_server.Prelude.{
  ℕ, zero, suc, ◌+◌, ◌-◌, ◌%◌, ◌<◌, ◌≡◌, refl, List, [], ◌∷◌, ◌++◌, ◌==◌, ap, if◌then◌else◌, arith,
  ◌≢◌, some, none, length, update,
}
use simle_http_server.Cbuf.{
  Cbuf, buf_data_maxsize, buf_put, buf_get, buf_putback, exit_success, exit_failure,
}
use simle_http_server.Cbuf.Valid.{IsValid, empty_lem, full_lem}

-- The `n` bytes of the array from index `i` on, going round at its end.
abbrev pub window : (ℕ → ℕ) → ℕ → ℕ → List ℕ
window f i zero = []
window f i (suc n) = f i ∷ window f ((i + 1) % buf_data_maxsize) n

abbrev pub contents : Cbuf → List ℕ
contents c = window c.bytes c.tail c.num_byte

pub length-window : (f : ℕ → ℕ) (i n : ℕ) → length (window f i n) ≡ n
length-window f i zero = refl
length-window f i (suc n) = ap suc (length-window f ((i + 1) % buf_data_maxsize) n)

pub length-contents : (c : Cbuf) → length (contents c) ≡ c.num_byte
length-contents c = length-window c.bytes c.tail c.num_byte

window_of_pos :
    (f : ℕ → ℕ) (i n : ℕ)
    → n ≢ 0
    → window f i n ≡ f i ∷ window f ((i + 1) % buf_data_maxsize) (n - 1)
window_of_pos f i zero h = absurd (h refl)
window_of_pos f i (suc n) h = ap (λ k. window f i (suc k)) (omega arith)

-- A write just past a window extends it by the byte.
window-update :
    (f : ℕ → ℕ) (b n i h : ℕ)
    → i < buf_data_maxsize
    → n < buf_data_maxsize
    → h ≡ (i + n) % buf_data_maxsize
    → window (update f h b) i (suc n) ≡ window f i n ++ (b ∷ [])
window-update f b zero i h hi hn e = ground arith
window-update f b (suc n) i h hi hn e =
    ground (arith, window-update f b n ((i + 1) % buf_data_maxsize) h)

-- What `buf_put` returns and leaves in the buffer.
pub contents-put :
    {c : Cbuf} (b : ℕ)
    → IsValid c
    → ((buf_put c b).0 ≡ (if c.num_byte == buf_data_maxsize then exit_failure else exit_success))
      × (contents (buf_put c b).1
          ≡ (if c.num_byte == buf_data_maxsize then contents c else contents c ++ (b ∷ [])))
unfolding buf_put
contents-put {c} b v = ground (arith, full_lem v, window-update c.bytes b c.num_byte c.tail c.head)

-- With room for it the byte is appended.
pub buf_put_room :
    {c : Cbuf} (b : ℕ)
    → IsValid c
    → c.num_byte ≢ buf_data_maxsize
    → ((buf_put c b).0 ≡ exit_success)
      × (contents (buf_put c b).1 ≡ contents c ++ (b ∷ []))
      × ((buf_put c b).1.num_byte ≡ c.num_byte + 1)
unfolding buf_put
buf_put_room {c} b v room =
    ground (arith, full_lem v, window-update c.bytes b c.num_byte c.tail c.head)

-- `buf_get` takes the oldest byte, and leaves the others.
pub buf_get_nonempty :
    {c : Cbuf}
    → IsValid c
    → c.num_byte ≢ 0
    → ((buf_get c).0 ≡ exit_success)
      × ((buf_get c).1 ≡ some (c.bytes c.tail))
      × (contents c ≡ c.bytes c.tail ∷ contents (buf_get c).2)
      × ((buf_get c).2.num_byte ≡ c.num_byte - 1)
unfolding buf_get
buf_get_nonempty {c} v ne = ground (arith, empty_lem v, window_of_pos c.bytes c.tail c.num_byte)

pub buf_get_empty : {c : Cbuf} → IsValid c → c.num_byte ≡ 0 → buf_get c ≡ (exit_failure, none, c)
unfolding buf_get
buf_get_empty {c} v e = ground (arith, empty_lem v)

-- Putting back the byte that was just taken restores the buffer, its indices included.
pub putback-get :
    {c : Cbuf} → IsValid c → c.num_byte ≢ 0 → buf_putback (buf_get c).2 ≡ (exit_success, c)
unfolding buf_get buf_putback
putback-get {c} v ne = ground arith
