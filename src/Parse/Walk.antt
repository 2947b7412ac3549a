-- ===== src/Parse/Walk.antt =====
-- The lines of a request as it is written, for what goes through them byte by byte: the two searches for the
-- empty line (src/parser/parse.c, src/http.c).
use simle_http_server.Prelude.{ℕ, ◌≡◌, ◌≢◌, ◌⊎◌, inl, inr, refl, List, [], ◌∷◌, ◌++◌, arith}
use simle_http_server.Peer.{CString}
use simle_http_server.Parse.{Request}
use simle_http_server.Parse.Lexer.Text.{Blanks}
use simle_http_server.Parse.Runs.{IsTextByte}
use simle_http_server.Parse.Written.{Written}
use simle_http_server.Parse.RoundTrip.{print, print_headers, IsWritten, AreHeaders}

-- No byte is '\r'.
abbrev NoCr : List ℕ → Type 0
NoCr [] = Unit
NoCr (c ∷ l) = (c ≢ 13) × NoCr l

NoCr-append : (l k : List ℕ) → NoCr l → NoCr k → NoCr (l ++ k)
NoCr-append [] k h h' = h'
NoCr-append (c ∷ l) k (ne, h) h' = (ne, NoCr-append l k h h')

Blanks-NoCr : (w : List ℕ) → Blanks w → NoCr w
Blanks-NoCr [] h = tt
Blanks-NoCr (c ∷ w) (b, h) = (ground arith, Blanks-NoCr w h)

Written-NoCr :
    {P : ℕ → Type 0} {B : List ℕ → Type 0} (v : List ℕ)
    → ((c : ℕ) → P c → IsTextByte c)
    → Written P B v
    → NoCr v
Written-NoCr v h (Written.first c p) = let text = h c p in (ground arith, tt)
Written-NoCr v h (Written.next {v = u} w c t b ok_b p) =
    let text = h c p in
    NoCr-append u (w ++ c ∷ []) (Written-NoCr u h t)
      (NoCr-append w (c ∷ []) (Blanks-NoCr w b) (ground arith, tt))

Written-ne : {P : ℕ → Type 0} {B : List ℕ → Type 0} {v : List ℕ} → Written P B v → v ≢ []
Written-ne (Written.first c p) = λ bad. cc
Written-ne (Written.next {v = []} w c t b ok_b p) = absurd (Written-ne t refl)
Written-ne (Written.next {v = x ∷ u} w c t b ok_b p) = λ bad. cc

-- What holds of a search in the state `s` before bytes that end with the empty line: a state counts the
-- bytes of "\r\n\r\n" that were found.
pub record Walk (F : ℕ → List ℕ → Type 0) : Type 0 where
  pub char : (s c : ℕ) (rest : List ℕ) → (s ≡ 0) ⊎ (s ≡ 2) → c ≢ 13 → F 0 rest → F s (c ∷ rest)
  pub crlf : (rest : List ℕ) → F 2 rest → F 0 (13 ∷ 10 ∷ rest)
  pub last : F 2 (13 ∷ 10 ∷ [])

module _ {F : ℕ → List ℕ → Type 0} (walk : Walk F) where
  Walk-text : (l rest : List ℕ) → NoCr l → F 0 rest → F 0 (l ++ rest)
  Walk-text [] rest h f = f
  Walk-text (c ∷ l) rest (ne, h) f = walk.char 0 c (l ++ rest) (inl refl) ne (Walk-text l rest h f)

  -- A text that is not empty, in the middle of a line or at its start.
  Walk-word :
      {P : ℕ → Type 0} {B : List ℕ → Type 0} (s : ℕ) (l rest : List ℕ)
      → (s ≡ 0) ⊎ (s ≡ 2)
      → ((c : ℕ) → P c → IsTextByte c)
      → Written P B l
      → F 0 rest
      → F s (l ++ rest)
  Walk-word s l rest h text w f = first l (Written-NoCr l text w) (Written-ne w)
    where
      first : (k : List ℕ) → NoCr k → k ≢ [] → F s (k ++ rest)
      first [] clean ne = absurd (ne refl)
      first (c ∷ k) (n, clean) ne = walk.char s c (k ++ rest) h n (Walk-text k rest clean f)

  Walk-byte : (c : ℕ) (rest : List ℕ) → c ≢ 13 → F 0 rest → F 0 (c ∷ rest)
  Walk-byte c rest = walk.char 0 c rest (inl refl)

  Walk-headers : (hs : List (CString × CString)) → AreHeaders hs → F 2 (print_headers hs)
  Walk-headers [] h = walk.last
  Walk-headers ((n, v) ∷ hs) ((tn, nf), (tv, vf), h) =
      let value =
        Walk-word 0 v _ (inl refl) (λ c t. t) tv
          (walk.crlf (print_headers hs) (Walk-headers hs h)) in
      Walk-word 2 n _ (inr refl) (λ c t. t.0) tn
        (Walk-byte 58 _ (λ bad. omega arith) (Walk-byte 32 _ (λ bad. omega arith) value))

  pub Walk-print : (r : Request) → IsWritten r → F 0 (print r)
  Walk-print r w =
      let version =
        Walk-word 0 r.http_version _ (inl refl) (λ c t. t) w.version
          (walk.crlf (print_headers r.headers) (Walk-headers r.headers w.all_headers)) in
      let uri =
        Walk-word 0 r.http_uri _ (inl refl) (λ c t. t) w.uri
          (Walk-byte 32 _ (λ bad. omega arith) version) in
      Walk-word 0 r.http_method _ (inl refl) (λ c t. t.0) w.method
        (Walk-byte 32 _ (λ bad. omega arith) uri)
