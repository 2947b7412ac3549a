-- ===== src/Header/Terminator.antt =====
-- What the statuses of `read_header_data` (src/http.c) stand for: how much of the terminator
-- "\r\n\r\n" the bytes read so far end with. The bytes are listed from the last one back.
use simle_http_server.Prelude.{
  ℕ, ◌≡◌, List, [], ◌∷◌, Bool, false, ◌==◌, ◌&&◌, if◌then◌else◌, arith, ◌≢◌, ok,
}
use simle_http_server.Header.{cl, rf, header_term_status, token_status}

abbrev pub last_is : ℕ → List ℕ → Bool
last_is b [] = false
last_is b (x ∷ xs) = x == b

abbrev pub past : List ℕ → List ℕ
past [] = []
past (x ∷ xs) = xs

-- The length of the longest start of "\r\n\r\n" that the bytes end with.
abbrev pub matched : List ℕ → ℕ
matched h =
    if last_is rf h
      && last_is cl (past h)
      && last_is rf (past (past h))
      && last_is cl (past (past (past h)))
    then 4
    else if last_is cl h && last_is rf (past h) && last_is cl (past (past h))
    then 3
    else if last_is rf h && last_is cl (past h)
    then 2
    else if last_is cl h
    then 1
    else 0

-- Neither all the bytes nor any first part of them ends with the terminator.
abbrev pub Unended : List ℕ → Type 0
Unended [] = Unit
Unended (b ∷ h) = (matched (b ∷ h) ≢ header_term_status) × Unended h

-- The status follows the terminator: the code goes from the length matched before a byte to the
-- length matched with it.
pub token_status_lem :
    (h : List ℕ) (b : ℕ)
    → matched h ≢ header_term_status
    → token_status (matched h) b ≡ ok (matched (b ∷ h))
unfolding token_status
token_status_lem [] b ne = ground arith
token_status_lem (x ∷ []) b ne = ground arith
token_status_lem (x ∷ y ∷ []) b ne = ground arith
token_status_lem (x ∷ y ∷ z ∷ []) b ne = ground arith
token_status_lem (x ∷ y ∷ z ∷ w ∷ h) b ne = ground arith

pub Unended-matched : (h : List ℕ) → Unended h → matched h ≢ header_term_status
Unended-matched [] u = ground arith
Unended-matched (b ∷ h) u = u.0
