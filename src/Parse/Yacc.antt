-- ===== src/Parse/Yacc.antt =====
-- `yyparse` of src/parser/parser.y: the states of the parser that yacc makes from the grammar, with what
-- its actions have built so far. Where the grammar allows two steps, yacc shifts: a single space after
-- the URI ends it.
use simle_http_server.Prelude.{
  ℕ, zero, suc, ◌+◌, ◌*◌, List, [], ◌∷◌, ◌++◌, Bool, ◌&&◌, Option, none, some, Outcome, ok, crash,
  undefined, exited, out_of_fuel, ◌>>=◌, ◌==◌, ltb, if◌then◌else◌, length, take,
}
use simle_http_server.Peer.{CString}
use simle_http_server.Text.{codes}
use simle_http_server.Parse.{Request}
use simle_http_server.Parse.Lexer.{
  Token, t_backslash, t_crlf, t_sp, t_ws, t_digit, t_dot, t_colon, t_separators, t_token_char,
  t_lws, yylex,
}

-- `snprintf($$, 8192, …)`
abbrev pub snprintf : List ℕ → CString
snprintf = take 8191

-- The characters that `allowed_char_for_token` allows, those that only `allowed_char_for_text` allows,
-- and of these the colon.
pub data Kind : Type 0 where
  allowed_in_token allowed_in_text a_colon : Kind

-- A token as the rules of the grammar tell them apart.
pub data Symbol : Type 0 where
  char : Kind → ℕ → Symbol
  sp : Symbol
  ws : CString → Symbol
  crlf : Symbol
  lws : Symbol

-- `allowed_char_for_token` and `allowed_char_for_text`.
unfoldable pub symbol : Token → Symbol
symbol (t_token_char c) = char allowed_in_token c
symbol (t_digit d) = char allowed_in_token (48 + d)
symbol t_dot = char allowed_in_token 46
symbol (t_separators c) = char allowed_in_text c
symbol t_backslash = char allowed_in_text 47
symbol t_colon = char a_colon 58
symbol t_sp = sp
symbol (t_ws s) = ws s
symbol t_crlf = crlf
symbol t_lws = lws

-- `parsing_request`, with the number of headers that there is space for, and what the actions have written
-- to the standard output.
pub record Parsing : Type 0 where
  pub request : Request
  pub header_cap : ℕ
  pub printed : CString

-- Where the parser is, named for what was read last, with the values that it still needs.
pub data State : Type 0 where
  start : State
  in_method : CString → State
  before_uri : CString → State
  in_uri : CString → CString → State
  ows_in_uri : CString → CString → CString → State
  before_version : CString → CString → State
  in_version : CString → CString → CString → State
  ows_in_version : CString → CString → CString → CString → State
  between_headers : Parsing → State
  in_name : Parsing → CString → State
  before_colon : Parsing → CString → State
  after_colon : Parsing → CString → State
  before_value : Parsing → CString → State
  in_value : Parsing → CString → CString → State
  ows_in_value : Parsing → CString → CString → CString → State

-- What a token leads to. `syntax_error` is followed by `yyerror`, and the parse fails.
pub data Verdict : Type 0 where
  more : State → Verdict
  success : Request → Verdict
  syntax_error : Verdict

-- The action of `request_line`: an overlong part is written past its array. `header_cap` is HEADER_NUM
-- of src/parser/parse.c.
unfoldable pub request_line : CString → CString → CString → Outcome Parsing
request_line method uri version =
    if ltb (length method) 50 && (ltb (length uri) 4096 && ltb (length version) 50)
    then ok (record {
      request = record {
        http_version = version;
        http_method = method;
        http_uri = uri;
        headers = [];
      };
      header_cap = 20;
      printed = [];
    })
    else crash undefined

module _ (realloc : ℕ → Bool) where
  -- The space for the headers is doubled when it is used up. `realloc` tells whether there is space for
  -- so many of them.
  unfoldable pub resize : Parsing → Outcome Parsing
  resize p =
      if length p.request.headers == p.header_cap
      then (if realloc (2 * p.header_cap)
          then ok (record p {
            header_cap = 2 * p.header_cap;
            printed = p.printed ++ codes "Realloc" ++ 10 ∷ [];
          })
          else crash exited)
      else ok p

  -- The action of `request_header`.
  unfoldable pub request_header : Parsing → CString → CString → Outcome Parsing
  unfolding resize
  request_header p name value =
      if ltb (length name) 4096 && ltb (length value) 4096
      then resize (record p {
        request = record p.request { headers = p.request.headers ++ (name, value) ∷ [] };
      })
      else crash undefined

  -- One step: the token is shifted, after the reductions that it calls for. The headers are taken off
  -- with `ows` before and after the value.
  unfoldable pub shift : State → Symbol → Outcome Verdict
  unfolding request_line request_header
  shift start (char allowed_in_token c) = ok (more (in_method (snprintf (c ∷ []))))
  shift (in_method m) (char allowed_in_token c) = ok (more (in_method (snprintf (m ++ c ∷ []))))
  shift (in_method m) sp = ok (more (before_uri m))
  shift (before_uri m) (char _ c) = ok (more (in_uri m (snprintf (c ∷ []))))
  shift (in_uri m u) (char _ c) = ok (more (in_uri m (snprintf (u ++ ([] ++ c ∷ [])))))
  shift (in_uri m u) sp = ok (more (before_version m u))
  shift (in_uri m u) (ws s) = ok (more (ows_in_uri m u (snprintf s)))
  shift (ows_in_uri m u s) (char _ c) = ok (more (in_uri m (snprintf (u ++ (s ++ c ∷ [])))))
  shift (before_version m u) (char _ c) = ok (more (in_version m u (snprintf (c ∷ []))))
  shift (in_version m u v) (char _ c) = ok (more (in_version m u (snprintf (v ++ ([] ++ c ∷ [])))))
  shift (in_version m u v) sp = ok (more (ows_in_version m u v (snprintf (32 ∷ []))))
  shift (in_version m u v) (ws s) = ok (more (ows_in_version m u v (snprintf s)))
  shift (in_version m u v) crlf = do p ← request_line m u v; ok (more (between_headers p))
  shift (ows_in_version m u v s) (char _ c) =
      ok (more (in_version m u (snprintf (v ++ (s ++ c ∷ [])))))
  shift (between_headers p) (char allowed_in_token c) = ok (more (in_name p (snprintf (c ∷ []))))
  shift (between_headers p) crlf = ok (success p.request)
  shift (in_name p n) (char allowed_in_token c) = ok (more (in_name p (snprintf (n ++ c ∷ []))))
  shift (in_name p n) (char a_colon _) = ok (more (after_colon p n))
  shift (in_name p n) sp = ok (more (before_colon p n))
  shift (in_name p n) (ws _) = ok (more (before_colon p n))
  shift (before_colon p n) (char a_colon _) = ok (more (after_colon p n))
  shift (after_colon p n) sp = ok (more (before_value p n))
  shift (after_colon p n) (ws _) = ok (more (before_value p n))
  shift (after_colon p n) (char _ c) = ok (more (in_value p n (snprintf (c ∷ []))))
  shift (before_value p n) (char _ c) = ok (more (in_value p n (snprintf (c ∷ []))))
  shift (in_value p n v) (char _ c) = ok (more (in_value p n (snprintf (v ++ ([] ++ c ∷ [])))))
  shift (in_value p n v) sp = ok (more (ows_in_value p n v (snprintf (32 ∷ []))))
  shift (in_value p n v) (ws s) = ok (more (ows_in_value p n v (snprintf s)))
  shift (in_value p n v) crlf = do q ← request_header p n v; ok (more (between_headers q))
  shift (ows_in_value p n v s) (char _ c) = ok (more (in_value p n (snprintf (v ++ (s ++ c ∷ [])))))
  shift (ows_in_value p n v _) crlf = do q ← request_header p n v; ok (more (between_headers q))
  shift _ _ = ok syntax_error

  -- What follows a step: nothing after the last one, or `run` from the state it leads to.
  unfoldable pub proceed : (State → Outcome (Option Request)) → Verdict → Outcome (Option Request)
  proceed run (more s) = run s
  proceed run (success r) = ok (some r)
  proceed run syntax_error = ok none

  -- One token is read and shifted. What was written to the standard output is no part of the result.
  unfoldable pub scan_then :
      (List ℕ → State → Outcome (Option Request))
      → State
      → List ℕ × Option (Token × List ℕ)
      → Outcome (Option Request)
  unfolding shift proceed
  scan_then run s (_, none) = ok none
  scan_then run s (_, some (t, rest)) = do verdict ← shift s (symbol t); proceed (run rest) verdict

  -- The parser on the bytes that are left, with fuel. At the end of them there is no rule to apply.
  unfoldable pub yyparse_loop : ℕ → State → List ℕ → Outcome (Option Request)
  unfolding scan_then
  yyparse_loop zero s l = crash out_of_fuel
  yyparse_loop (suc fuel) s l = scan_then (λ rest s'. yyparse_loop fuel s' rest) s (yylex l)

  -- A token takes a byte or more.
  unfoldable pub yyparse : List ℕ → Outcome (Option Request)
  unfolding yyparse_loop
  yyparse l = yyparse_loop (length l + 1) start l
