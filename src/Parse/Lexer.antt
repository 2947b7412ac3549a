-- ===== src/Parse/Lexer.antt =====
-- The tokens of src/parser/lexer.l, and one call of the scanner that flex makes from its rules: the
-- longest match, of two equally long ones the first rule, and one byte if no rule matches more.
pub mod Text
use simle_http_server.Prelude.{
  ℕ, ◌-◌, List, [], ◌∷◌, drop, Bool, not, ◌&&◌, ◌||◌, Option, none, some, ◌==◌, leb, ltb,
  if◌then◌else◌,
}

-- With `yylval` as the argument where the rule sets it to more than one value.
pub data Token : Type 0 where
  t_backslash : Token
  t_crlf : Token
  t_sp : Token
  t_ws : List ℕ → Token
  t_digit : ℕ → Token
  t_dot : Token
  t_colon : Token
  t_separators : ℕ → Token
  t_token_char : ℕ → Token
  t_lws : Token

-- `[\x20\x09]`
abbrev pub is_ws : ℕ → Bool
is_ws c = c == 32 || c == 9

abbrev pub is_digit : ℕ → Bool
is_digit c = leb 48 c && leb c 57

-- ( ) < > @ , ; : \ " / [ ] ? = { } and the blanks.
unfoldable pub is_separator : ℕ → Bool
is_separator c =
    c == 40
    || c == 41
    || c == 60
    || c == 62
    || c == 64
    || c == 44
    || c == 59
    || c == 58
    || c == 92
    || c == 34
    || c == 47
    || c == 91
    || c == 93
    || c == 63
    || c == 61
    || c == 123
    || c == 125
    || is_ws c

-- The blanks at the front, and what follows them.
unfoldable pub span_ws : List ℕ → List ℕ × List ℕ
span_ws [] = ([], [])
span_ws (c ∷ rest) =
    let (ws, after) = span_ws rest in if is_ws c then (c ∷ ws, after) else ([], c ∷ rest)

-- After "\r\n": rule 2, or rule 10 if blanks make its match longer.
unfoldable pub crlf_or_lws : List ℕ × List ℕ → Token × List ℕ
crlf_or_lws ([], after) = (t_crlf, after)
crlf_or_lws (_ ∷ _, after) = (t_lws, after)

-- Whether no rule but {ws}, with no byte, matches at the byte `c`: at a control byte, DEL, a byte from 128
-- on, and a '\r' without '\n'. For these flex has one more rule, which matches one byte and writes it to the
-- standard output.
unfoldable pub is_other : ℕ → List ℕ → Bool
is_other c [] = (ltb c 32 && not (c == 9)) || ltb 126 c
is_other c (d ∷ rest) = (ltb c 32 && not (c == 9 || (c == 13 && d == 10))) || ltb 126 c

-- After the blank `c`: rule 3 if it is a single space, else rule 4.
unfoldable pub sp_or_ws : ℕ → List ℕ × List ℕ → Token × List ℕ
sp_or_ws c ([], after) = (if c == 32 then t_sp else t_ws (c ∷ []), after)
sp_or_ws c (w ∷ ws, after) = (t_ws (c ∷ w ∷ ws), after)

-- The token at the byte `c`, and the bytes after it. A '\r' is that of "\r\n" here, and what is left at the
-- end are the bytes of rule 9.
unfoldable pub token_at : ℕ → List ℕ → Token × List ℕ
unfolding crlf_or_lws sp_or_ws span_ws is_separator
token_at c rest =
    if c == 47
    then (t_backslash, rest)
    else if c == 13
    then crlf_or_lws (span_ws (drop 1 rest))
    else if is_ws c
    then sp_or_ws c (span_ws rest)
    else if is_digit c
    then (t_digit (c - 48), rest)
    else if c == 46
    then (t_dot, rest)
    else if c == 58
    then (t_colon, rest)
    else if is_separator c
    then (t_separators c, rest)
    else (t_token_char c, rest)

-- One call of the scanner: the bytes that it writes, and the token with what follows it, or nothing at
-- the end.
unfoldable pub yylex : List ℕ → List ℕ × Option (Token × List ℕ)
unfolding is_other token_at
yylex [] = ([], none)
yylex (c ∷ rest) =
    let (echoed, found) = yylex rest in
    if is_other c rest then (c ∷ echoed, found) else ([], some (token_at c rest))
