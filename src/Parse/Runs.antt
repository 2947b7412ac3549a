-- ===== src/Parse/Runs.antt =====
-- Runs of `yyparse` (src/parser/parser.y) from any state and with any fuel, and the tokens of single
-- bytes.
use simle_http_server.Prelude.{
  ℕ, zero, suc, ◌+◌, ◌≤◌, ◌≡◌, ◌≢◌, refl, List, [], ◌∷◌, ◌++◌, Outcome, ok, crash, out_of_fuel,
  Bool, true, false, arith, Option, none, some, ap, ◌-◌, ◌∙◌, sym, length, ◌>>=◌, ◌==◌,
  if◌then◌else◌,
}
use simle_http_server.Parse.{Request}
use simle_http_server.Parse.Lexer.{
  Token, yylex, span_ws, is_ws, is_digit, is_other, token_at, t_backslash, t_digit, t_dot, t_colon,
  t_separators, t_token_char, is_separator, crlf_or_lws, sp_or_ws,
}
use simle_http_server.Parse.Lexer.Text.{Blanks}
use simle_http_server.Parse.Yacc.{
  Kind, allowed_in_token, allowed_in_text, a_colon, Symbol, char, sp, ws, crlf, symbol, State,
  start, Verdict, more, shift, proceed, scan_then, yyparse_loop, yyparse,
}
use simle_http_server.Parse.Accepts.{yyparse_ends}

-- A byte that stands for itself in a text, and what the grammar calls it.
abbrev pub IsTextByte : ℕ → Type 0
IsTextByte c = (33 ≤ c) × (c ≤ 126)

unfoldable pub kind : ℕ → Kind
kind c = if c == 58 then a_colon else if is_separator c then allowed_in_text else allowed_in_token

-- The bytes do not begin with a blank.
abbrev pub Solid : List ℕ → Type 0
Solid l = span_ws l ≡ ([], l)

pub Solid-cons : (c : ℕ) (rest : List ℕ) → is_ws c ≡ false → Solid (c ∷ rest)
unfolding span_ws
Solid-cons c rest h = ground arith

span_ws_lem : (w rest : List ℕ) → Blanks w → Solid rest → span_ws (w ++ rest) ≡ (w, rest)
unfolding span_ws
span_ws_lem [] rest h solid = solid
span_ws_lem (c ∷ w) rest (b, h) solid = ground (arith, span_ws_lem w rest h solid)

digit_no_separator : (c : ℕ) → 48 ≤ c → c ≤ 57 → is_separator c ≡ false
unfolding is_separator
digit_no_separator c lo hi = ground arith

-- What the scanner and the grammar make of the bytes at the front.
abbrev Gives : Token × List ℕ → Symbol → List ℕ → Type 0
Gives p x rest = (t : Token) × (p ≡ (t, rest)) × (symbol t ≡ x)

abbrev pub Lexes : List ℕ → Symbol → List ℕ → Type 0
Lexes l x rest = (t : Token) × (yylex l ≡ ([], some (t, rest))) × (symbol t ≡ x)

Gives-if :
    {x : Symbol} {rest : List ℕ} (b : Bool) {p q : Token × List ℕ}
    → (b ≡ true → Gives p x rest)
    → (b ≡ false → Gives q x rest)
    → Gives (if b then p else q) x rest
Gives-if true h k = h refl
Gives-if false h k = k refl

text_no_other : (c : ℕ) (rest : List ℕ) → 32 ≤ c → c ≤ 126 → is_other c rest ≡ false
unfolding is_other
text_no_other c [] lo hi = ground arith
text_no_other c (d ∷ rest) lo hi = ground arith

-- At a byte where a token stands, that is what the scanner gives.
yylex-token :
    (c : ℕ) (rest : List ℕ)
    → is_other c rest ≡ false
    → yylex (c ∷ rest) ≡ ([], some (token_at c rest))
unfolding yylex
yylex-token c rest h = rw h refl

Lexes-token :
    (c : ℕ) (rest after : List ℕ) (x : Symbol)
    → is_other c rest ≡ false
    → Gives (token_at c rest) x after
    → Lexes (c ∷ rest) x after
Lexes-token c rest after x h (t, e, s) = (t, yylex-token c rest h ∙ ap (λ p. ([], some p)) e, s)

text_given : (c : ℕ) (rest : List ℕ) → IsTextByte c → Gives (token_at c rest) (char (kind c) c) rest
unfolding token_at symbol kind
text_given c rest h =
    Gives-if (c == 47) (λ e. (t_backslash, refl, ground arith))
      λ other.
        Gives-if (c == 13) (λ e. absurd (ground arith))
          λ other.
            Gives-if (is_ws c) (λ e. absurd (ground arith))
              λ other.
                Gives-if (is_digit c)
                  (λ e. (t_digit (c - 48), refl, ground (arith, digit_no_separator c)))
                  λ other.
                    Gives-if (c == 46) (λ e. (t_dot, refl, ground arith))
                      λ other.
                        Gives-if (c == 58) (λ e. (t_colon, refl, ground arith))
                          λ other.
                            Gives-if (is_separator c) (λ e. (t_separators c, refl, ground arith))
                              λ e. (t_token_char c, refl, ground arith)

pub Lexes-text : (c : ℕ) (rest : List ℕ) → IsTextByte c → Lexes (c ∷ rest) (char (kind c) c) rest
Lexes-text c rest h =
    Lexes-token c rest rest _ (text_no_other c rest (omega (arith, h.0)) h.1) (text_given c rest h)

sp_given : (rest : List ℕ) → Solid rest → Gives (token_at 32 rest) sp rest
unfolding token_at sp_or_ws symbol
sp_given rest h = (Token.t_sp, ground arith, refl)

pub Lexes-sp : (rest : List ℕ) → Solid rest → Lexes (32 ∷ rest) sp rest
Lexes-sp rest h =
    Lexes-token 32 rest rest sp (text_no_other 32 rest (omega arith) (omega arith))
      (sp_given rest h)

crlf_given : (rest : List ℕ) → Solid rest → Gives (token_at 13 (10 ∷ rest)) crlf rest
unfolding token_at crlf_or_lws symbol
crlf_given rest h = (Token.t_crlf, ground arith, refl)

crlf_no_other : (rest : List ℕ) → is_other 13 (10 ∷ rest) ≡ false
unfolding is_other
crlf_no_other rest = refl

pub Lexes-crlf : (rest : List ℕ) → Solid rest → Lexes (13 ∷ 10 ∷ rest) crlf rest
Lexes-crlf rest h = Lexes-token 13 (10 ∷ rest) rest crlf (crlf_no_other rest) (crlf_given rest h)

blank_no_other : (b : ℕ) (rest : List ℕ) → is_ws b ≡ true → is_other b rest ≡ false
unfolding is_other
blank_no_other b [] h = ground arith
blank_no_other b (d ∷ rest) h = ground arith

ws_given :
    (b c : ℕ) (w rest : List ℕ)
    → Blanks (b ∷ c ∷ w)
    → Solid rest
    → Gives (token_at b (c ∷ (w ++ rest))) (ws (b ∷ c ∷ w)) rest
unfolding token_at sp_or_ws symbol
ws_given b c w rest h solid =
    (Token.t_ws (b ∷ c ∷ w), ground (arith, span_ws_lem (c ∷ w) rest h.1 solid), refl)

pub Lexes-ws :
    (b c : ℕ) (w rest : List ℕ)
    → Blanks (b ∷ c ∷ w)
    → Solid rest
    → Lexes (b ∷ c ∷ (w ++ rest)) (ws (b ∷ c ∷ w)) rest
Lexes-ws b c w rest h solid =
    Lexes-token b (c ∷ (w ++ rest)) rest _ (blank_no_other b (c ∷ (w ++ rest)) h.0)
      (ws_given b c w rest h solid)

tab_given : (rest : List ℕ) → Solid rest → Gives (token_at 9 rest) (ws (9 ∷ [])) rest
unfolding token_at sp_or_ws symbol
tab_given rest h = (Token.t_ws (9 ∷ []), ground arith, refl)

pub Lexes-tab : (rest : List ℕ) → Solid rest → Lexes (9 ∷ rest) (ws (9 ∷ [])) rest
Lexes-tab rest h = Lexes-token 9 rest rest _ (blank_no_other 9 rest refl) (tab_given rest h)

module _ (realloc : ℕ → Bool) where
  -- More fuel than is needed changes nothing.
  after_shift-more :
      (m : Outcome Verdict) (run run' : State → Outcome (Option Request))
      → ((s : State) → run s ≢ crash out_of_fuel → run' s ≡ run s)
      → (do v ← m; proceed realloc run v) ≢ crash out_of_fuel
      → (do v ← m; proceed realloc run' v) ≡ (do v ← m; proceed realloc run v)
  unfolding proceed
  after_shift-more (ok (more s)) run run' same h = same s h
  after_shift-more _ run run' same h = refl

  scan-more :
      (o : List ℕ × Option (Token × List ℕ)) (s : State)
      (run run' : List ℕ → State → Outcome (Option Request))
      → ((l : List ℕ) (s' : State) → run l s' ≢ crash out_of_fuel → run' l s' ≡ run l s')
      → scan_then realloc run s o ≢ crash out_of_fuel
      → scan_then realloc run' s o ≡ scan_then realloc run s o
  unfolding scan_then
  scan-more (_, none) s run run' same h = refl
  scan-more (_, some (t, rest)) s run run' same h =
      after_shift-more (shift realloc s (symbol t)) (run rest) (run' rest) (same rest) h

  yyparse_loop-more :
      (fuel n : ℕ) (s : State) (l : List ℕ)
      → fuel ≤ n
      → yyparse_loop realloc fuel s l ≢ crash out_of_fuel
      → yyparse_loop realloc n s l ≡ yyparse_loop realloc fuel s l
  unfolding yyparse_loop
  yyparse_loop-more zero n s l le h = absurd (h refl)
  yyparse_loop-more (suc fuel) zero s l le h = absurd (omega arith)
  yyparse_loop-more (suc fuel) (suc n) s l le h =
      scan-more (yylex l) s (λ rest s'. yyparse_loop realloc fuel s' rest)
        (λ rest s'. yyparse_loop realloc n s' rest)
        (λ rest s'. yyparse_loop-more fuel n s' rest (omega arith)) h

  -- With some fuel the run from a state gives `o`.
  abbrev pub Parses : State → List ℕ → Option Request → Type 0
  Parses s l o = (fuel : ℕ) × (yyparse_loop realloc fuel s l ≡ ok o)

  pub Parses-yyparse :
      (l : List ℕ) (o : Option Request) → Parses start l o → yyparse realloc l ≡ ok o
  unfolding yyparse
  Parses-yyparse l o (fuel, e) =
      let enough = length l + 1 in
      let known = yyparse_loop-more fuel (fuel + enough) start l (omega arith) λ bad. cc in
      let same =
        yyparse_loop-more enough (fuel + enough) start l (omega arith) (yyparse_ends realloc l) in
      sym same ∙ known ∙ e
