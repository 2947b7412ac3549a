-- ===== src/Parse/Lexer/Text.antt =====
-- The bytes that the tokens of src/parser/lexer.l stand for.
use mathlib.Core.Path.{subst}
use simle_http_server.Prelude.{
  ℕ, ◌+◌, ◌-◌, ◌≤◌, ◌<◌, ◌≡◌, ◌≢◌, ◌⊎◌, refl, List, [], ◌∷◌, ◌++◌, arith, ◌==◌, Bool, true, false,
  if◌then◌else◌, length, drop,
}
use simle_http_server.Parse.Lexer.{
  Token, t_backslash, t_crlf, t_sp, t_ws, t_digit, t_dot, t_colon, t_separators, t_token_char,
  t_lws, is_ws, span_ws, crlf_or_lws, is_other, sp_or_ws, token_at, is_separator, is_digit,
}

abbrev pub Blanks : List ℕ → Type 0
Blanks [] = Unit
Blanks (c ∷ w) = (is_ws c ≡ true) × Blanks w

-- The bytes that token `t` stands for.
pub data TextOf : Token → List ℕ → Type 0 where
  backslash : TextOf t_backslash (47 ∷ [])
  crlf : TextOf t_crlf (13 ∷ 10 ∷ [])
  sp : TextOf t_sp (32 ∷ [])
  ws : (c : ℕ) (s : List ℕ) → Blanks (c ∷ s) → TextOf (t_ws (c ∷ s)) (c ∷ s)
  digit : (d : ℕ) → d ≤ 9 → TextOf (t_digit d) ((48 + d) ∷ [])
  dot : TextOf t_dot (46 ∷ [])
  colon : TextOf t_colon (58 ∷ [])
  separator : (c : ℕ) → is_separator c ≡ true → TextOf (t_separators c) (c ∷ [])
  token_char :
      (c : ℕ) → 33 ≤ c → c ≤ 126 → is_separator c ≡ false → TextOf (t_token_char c) (c ∷ [])
  lws : (s : List ℕ) → Blanks s → TextOf t_lws (13 ∷ 10 ∷ s)

pub TextOf-longer : {t : Token} {s : List ℕ} → TextOf t s → 1 ≤ length s
TextOf-longer TextOf.backslash = omega arith
TextOf-longer TextOf.crlf = omega arith
TextOf-longer TextOf.sp = omega arith
TextOf-longer (TextOf.ws c s b) = omega arith
TextOf-longer (TextOf.digit d h) = omega arith
TextOf-longer TextOf.dot = omega arith
TextOf-longer TextOf.colon = omega arith
TextOf-longer (TextOf.separator c h) = omega arith
TextOf-longer (TextOf.token_char c h k l) = omega arith
TextOf-longer (TextOf.lws s b) = omega arith

-- The bytes do not begin with '\n'.
abbrev NoLineFeed : List ℕ → Type 0
NoLineFeed [] = Unit
NoLineFeed (d ∷ rest) = d ≢ 10

-- A byte at which no token stands: no blank, no printable character, and no '\r' of a "\r\n".
abbrev pub IsOther : ℕ → List ℕ → Type 0
IsOther c rest = (c ≢ 9) × ((c < 32) ⊎ (126 < c)) × (c ≡ 13 → NoLineFeed rest)

small_or_big : (c : ℕ) → (32 ≤ c → 126 < c) → (c < 32) ⊎ (126 < c)
small_or_big c h = ground arith

pub is_other-IsOther : (c : ℕ) (rest : List ℕ) → is_other c rest ≡ true → IsOther c rest
unfolding is_other
is_other-IsOther c [] h = (ground arith, small_or_big c (ground arith), λ e. tt)
is_other-IsOther c (d ∷ rest) h = (ground arith, small_or_big c (ground arith), λ e. ground arith)

-- The bytes `l` are the text of the token and the rest.
abbrev pub Scanned : List ℕ → Token × List ℕ → Type 0
Scanned l (t, rest) = (s : List ℕ) × TextOf t s × (s ++ rest ≡ l)

span_ws-append : (l : List ℕ) → (span_ws l).0 ++ (span_ws l).1 ≡ l
unfolding span_ws
span_ws-append [] = refl
span_ws-append (c ∷ rest) = ground (arith, span_ws-append rest)

Blanks-if :
    (b : Bool) (p q : List ℕ × List ℕ)
    → (b ≡ true → Blanks p.0)
    → Blanks q.0
    → Blanks (if b then p else q).0
Blanks-if true p q h k = h refl
Blanks-if false p q h k = k

span_ws-Blanks : (l : List ℕ) → Blanks (span_ws l).0
unfolding span_ws
span_ws-Blanks [] = tt
span_ws-Blanks (c ∷ rest) = Blanks-if (is_ws c) _ _ (λ e. (e, span_ws-Blanks rest)) tt

crlf_or_lws-Scanned :
    (p : List ℕ × List ℕ) → Blanks p.0 → Scanned (13 ∷ 10 ∷ (p.0 ++ p.1)) (crlf_or_lws p)
unfolding crlf_or_lws
crlf_or_lws-Scanned ([], after) b = (13 ∷ 10 ∷ [], crlf, refl)
crlf_or_lws-Scanned (w ∷ blanks, after) b = (13 ∷ 10 ∷ w ∷ blanks, lws (w ∷ blanks) b, refl)

Scanned-if :
    {l : List ℕ} (b : Bool) {p q : Token × List ℕ}
    → (b ≡ true → Scanned l p)
    → (b ≡ false → Scanned l q)
    → Scanned l (if b then p else q)
Scanned-if true h k = h refl
Scanned-if false h k = k refl

cr-Scanned :
    (rest : List ℕ)
    → is_other 13 rest ≡ false
    → Scanned (13 ∷ rest) (crlf_or_lws (span_ws (drop 1 rest)))
unfolding is_other
cr-Scanned [] h = absurd (ground arith)
cr-Scanned (d ∷ rest) h =
    let lf : d ≡ 10 = ground arith in
    subst (λ l. Scanned (13 ∷ l) (crlf_or_lws (span_ws rest))) (ground (arith, span_ws-append rest))
      (crlf_or_lws-Scanned (span_ws rest) (span_ws-Blanks rest))

sp_or_ws-Scanned :
    (c : ℕ) (p : List ℕ × List ℕ)
    → is_ws c ≡ true
    → Blanks p.0
    → Scanned (c ∷ (p.0 ++ p.1)) (sp_or_ws c p)
unfolding sp_or_ws
sp_or_ws-Scanned c ([], after) h b = split_sp (c == 32) refl
  where
    split_sp :
        (b : Bool) → (c == 32) ≡ b → Scanned (c ∷ after) (if b then t_sp else t_ws (c ∷ []), after)
    split_sp true e = (32 ∷ [], sp, ground arith)
    split_sp false e = (c ∷ [], ws c [] (h, tt), refl)
sp_or_ws-Scanned c (w ∷ s, after) h b = (c ∷ w ∷ s, ws c (w ∷ s) (h, b), refl)

separator_or_char :
    (c : ℕ) (rest : List ℕ)
    → is_other c rest ≡ false
    → (c == 13) ≡ false
    → is_ws c ≡ false
    → (33 ≤ c) × (c ≤ 126)
unfolding is_other
separator_or_char c [] h e w = ground arith
separator_or_char c (d ∷ rest) h e w = ground arith

pub token_at-Scanned :
    (c : ℕ) (rest : List ℕ) → is_other c rest ≡ false → Scanned (c ∷ rest) (token_at c rest)
unfolding token_at
token_at-Scanned c rest h =
    Scanned-if (c == 47) (λ e. (47 ∷ [], backslash, ground arith))
      λ _.
        Scanned-if (c == 13)
          (λ e.
            let cr : c ≡ 13 = ground arith in
            subst (λ b. Scanned (b ∷ rest) (crlf_or_lws (span_ws (drop 1 rest)))) (ground arith)
              (cr-Scanned rest (rw cr at h)))
          λ no_cr.
            Scanned-if (is_ws c)
              (λ e.
                subst (λ l. Scanned (c ∷ l) (sp_or_ws c (span_ws rest))) (span_ws-append rest)
                  (sp_or_ws-Scanned c (span_ws rest) e (span_ws-Blanks rest)))
              λ no_ws.
                Scanned-if (is_digit c)
                  (λ e. ((48 + (c - 48)) ∷ [], digit (c - 48) (ground arith), ground arith))
                  λ _.
                    Scanned-if (c == 46) (λ e. (46 ∷ [], dot, ground arith))
                      λ _.
                        Scanned-if (c == 58) (λ e. (58 ∷ [], colon, ground arith))
                          λ _.
                            Scanned-if (is_separator c) (λ e. (c ∷ [], separator c e, refl))
                              λ e.
                                let (lo, hi) = separator_or_char c rest h no_cr no_ws in
                                (c ∷ [], token_char c lo hi e, refl)
