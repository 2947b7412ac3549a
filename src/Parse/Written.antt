-- ===== src/Parse/Written.antt =====
-- Texts as they are written, and how the states of `yyparse` (src/parser/parser.y) read them.
use simle_http_server.Prelude.{
  ℕ, suc, ◌<◌, ◌≡◌, ◌≢◌, ◌⊎◌, inl, inr, List, [], ◌∷◌, ◌++◌, ok, Bool, true, arith, Option, length,
  take_all, length-append, append_assoc,
}
use simle_http_server.Peer.{CString}
use simle_http_server.Parse.{Request}
use simle_http_server.Parse.Lexer.{is_ws}
use simle_http_server.Parse.Yacc.{
  Symbol, char, sp, ws, snprintf, State, more, shift, proceed, scan_then, yyparse_loop,
}
use simle_http_server.Parse.Lexer.Text.{Blanks}
use simle_http_server.Parse.Runs.{
  IsTextByte, kind, Solid, Solid-cons, Lexes, Lexes-text, Lexes-sp, Lexes-ws, Lexes-tab, Parses,
}

-- Bytes that meet `P`, with blanks that meet `B` between them.
pub data Written (P : ℕ → Type 0) (B : List ℕ → Type 0) : List ℕ → Type 0 where
  first : (c : ℕ) → P c → Written P B (c ∷ [])
  next :
      {v : List ℕ} (w : List ℕ) (c : ℕ)
      → Written P B v
      → Blanks w
      → B w
      → P c
      → Written P B (v ++ (w ++ c ∷ []))

pub snprintf_lem : (l : List ℕ) → length l < 8192 → snprintf l ≡ l
snprintf_lem l h = take_all 8191 l (omega arith)

pub text-Solid : (c : ℕ) (rest : List ℕ) → IsTextByte c → Solid (c ∷ rest)
text-Solid c rest h = Solid-cons c rest (ground arith)

pub Written-Solid :
    {P : ℕ → Type 0} {B : List ℕ → Type 0} (v rest : List ℕ)
    → ((c : ℕ) → P c → IsTextByte c)
    → Written P B v
    → Solid (v ++ rest)
Written-Solid v rest h (Written.first c p) = text-Solid c rest (h c p)
Written-Solid v rest h (Written.next {v = u} w c t b ok_b p) =
    rw (append_assoc u (w ++ c ∷ []) rest) (Written-Solid u ((w ++ c ∷ []) ++ rest) h t)

blank_cases : (x : ℕ) → is_ws x ≡ true → (x ≡ 32) ⊎ (x ≡ 9)
blank_cases x h = ground arith

module _ (realloc : ℕ → Bool) where
  pub step :
      (s : State) (l : List ℕ) {rest : List ℕ} {x : Symbol} {s' : State} {o : Option Request}
      → Lexes l x rest
      → shift realloc s x ≡ ok (more s')
      → Parses realloc s' rest o
      → Parses realloc s l o
  unfolding yyparse_loop scan_then proceed
  step s l (t, e, x) moved (fuel, run) = (suc fuel, rw (e, x, moved) run)

-- A state in which a text begins, those in which the text `v` was read, and those after it and blanks.
pub record Reader (realloc : ℕ → Bool) (P : ℕ → Type 0) (B : List ℕ → Type 0) : Type 0 where
  pub before : State
  pub read : CString → State
  pub gap : CString → CString → State
  pub is_text : (c : ℕ) → P c → IsTextByte c
  pub enter :
      (c : ℕ) → P c → shift realloc before (char (kind c) c) ≡ ok (more (read (snprintf (c ∷ []))))
  pub go_on :
      (v : CString) (c : ℕ)
      → P c
      → shift realloc (read v) (char (kind c) c) ≡ ok (more (read (snprintf (v ++ c ∷ []))))
  pub by_sp :
      (v : CString)
      → B (32 ∷ [])
      → shift realloc (read v) sp ≡ ok (more (gap v (snprintf (32 ∷ []))))
  pub by_ws :
      (v w : CString)
      → B w
      → w ≢ []
      → shift realloc (read v) (ws w) ≡ ok (more (gap v (snprintf w)))
  pub after :
      (v w : CString) (c : ℕ)
      → B w
      → w ≢ []
      → P c
      → shift realloc (gap v w) (char (kind c) c) ≡ ok (more (read (snprintf (v ++ (w ++ c ∷ [])))))

module _ {realloc : ℕ → Bool} {P : ℕ → Type 0} {B : List ℕ → Type 0} (m : Reader realloc P B)
    {o : Option Request} where
  gap-Parses :
      (v w : List ℕ) (c : ℕ) (rest : List ℕ)
      → B w
      → w ≢ []
      → P c
      → length (v ++ (w ++ c ∷ [])) < 8192
      → Parses realloc (m.read (v ++ (w ++ c ∷ []))) rest o
      → Parses realloc (m.gap v (snprintf w)) (c ∷ rest) o
  gap-Parses v w c rest b ne p short run =
      let w_short : length w < 8192 =
        ground (arith, length-append v (w ++ c ∷ []), length-append w (c ∷ [])) in
      let read_on : Parses realloc (m.gap v w) (c ∷ rest) o =
        step realloc (m.gap v w) (c ∷ rest) (Lexes-text c rest (m.is_text c p))
          (m.after v w c b ne p) (rw (snprintf_lem (v ++ (w ++ c ∷ [])) short) run) in
      rw (snprintf_lem w w_short) read_on

  one-Parses :
      (v : List ℕ) (x c : ℕ) (rest : List ℕ)
      → (x ≡ 32) ⊎ (x ≡ 9)
      → B (x ∷ [])
      → P c
      → Parses realloc (m.gap v (snprintf (x ∷ []))) (c ∷ rest) o
      → Parses realloc (m.read v) (x ∷ c ∷ rest) o
  one-Parses v x c rest (inl e) b p run = rw e (
      step realloc (m.read v) (32 ∷ c ∷ rest)
        (Lexes-sp (c ∷ rest) (text-Solid c rest (m.is_text c p))) (m.by_sp v (rw e at b))
        (rw e at run))
  one-Parses v x c rest (inr e) b p run = rw e (
      step realloc (m.read v) (9 ∷ c ∷ rest)
        (Lexes-tab (c ∷ rest) (text-Solid c rest (m.is_text c p)))
        (m.by_ws v (9 ∷ []) (rw e at b) (λ bad. cc)) (rw e at run))

  blanks-Parses :
      (v w : List ℕ) (c : ℕ) (rest : List ℕ)
      → Blanks w
      → B w
      → P c
      → length (v ++ (w ++ c ∷ [])) < 8192
      → Parses realloc (m.read (v ++ (w ++ c ∷ []))) rest o
      → Parses realloc (m.read v) (w ++ c ∷ rest) o
  blanks-Parses v [] c rest b h p short run =
      step realloc (m.read v) (c ∷ rest) (Lexes-text c rest (m.is_text c p)) (m.go_on v c p)
        (rw (snprintf_lem (v ++ c ∷ []) short) run)
  blanks-Parses v (x ∷ []) c rest b h p short run =
      one-Parses v x c rest (blank_cases x b.0) h p
        (gap-Parses v (x ∷ []) c rest h (λ bad. cc) p short run)
  blanks-Parses v (x ∷ y ∷ w) c rest b h p short run =
      step realloc (m.read v) (x ∷ y ∷ (w ++ c ∷ rest))
        (Lexes-ws x y w (c ∷ rest) b (text-Solid c rest (m.is_text c p)))
        (m.by_ws v (x ∷ y ∷ w) h (λ bad. cc))
        (gap-Parses v (x ∷ y ∷ w) c rest h (λ bad. cc) p short run)

  pub Written-Parses :
      (v rest : List ℕ)
      → Written P B v
      → length v < 8192
      → Parses realloc (m.read v) rest o
      → Parses realloc m.before (v ++ rest) o
  Written-Parses v rest (Written.first c p) short run =
      step realloc m.before (c ∷ rest) (Lexes-text c rest (m.is_text c p)) (m.enter c p) run
  Written-Parses v rest (Written.next {v = u} w c t b h p) short run =
      let u_short : length u < 8192 = ground (arith, length-append u (w ++ c ∷ [])) in
      rw (append_assoc u (w ++ c ∷ []) rest, append_assoc w (c ∷ []) rest)
        (Written-Parses u (w ++ c ∷ rest) t u_short (blanks-Parses u w c rest b h p short run))
