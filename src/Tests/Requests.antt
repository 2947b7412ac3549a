-- ===== src/Tests/Requests.antt =====
-- The bytes of a request, through the parser of src/parser and `handle_http` of src/http.c.
use simle_http_server.Prelude.{
  ℕ, ◌≡◌, refl, List, [], ◌∷◌, ◌++◌, append_assoc, append-nil, arith, true, ok, crash, undefined,
  none, some,
}
use simle_http_server.Text.{codes}
use simle_http_server.Parse.{Request, parse}
use simle_http_server.Parse.Lexer
use simle_http_server.Parse.Lexer.{is_separator}
use simle_http_server.Parse.Yacc
use simle_http_server.Parse.Yacc.{Symbol, yyparse}
use simle_http_server.Parse.Runs.{IsTextByte}
use simle_http_server.Parse.Written.{Written}
use simle_http_server.Parse.Print.{IsTokenByte, IsToken, IsText, IsUri}
use simle_http_server.Parse.RoundTrip.{print, IsWritten}
use simle_http_server.Parse.Whole.{parse-print}
use simle_http_server.Parse.Grammar.{RequestRule}
use simle_http_server.Parse.Accepts.{Read, yyparse_accepts}
use simle_http_server.Tests.Data.{script_request}

abbrev page_request : Request
page_request = record script_request { http_uri = codes "/a.HTML" }

abbrev All : (ℕ → Type 0) → List ℕ → Type 0
All P [] = Unit
All P (c ∷ l) = P c × All P l

-- Bytes with no blank between them.
word :
    {P : ℕ → Type 0} {B : List ℕ → Type 0} (v l : List ℕ)
    → B []
    → Written P B v
    → All P l
    → Written P B (v ++ l)
word v [] b w h = rw (append-nil v) w
word v (c ∷ l) b w (p, h) =
    rw (← append_assoc v (c ∷ []) l) (word (v ++ c ∷ []) l b (Written.next [] c w tt b p) h)

IsText-codes : (c : ℕ) (l : List ℕ) → All IsTextByte (c ∷ l) → IsText (c ∷ l)
IsText-codes c l (p, h) = word (c ∷ []) l tt (Written.first c p) h

IsUri-codes : (c : ℕ) (l : List ℕ) → All IsTextByte (c ∷ l) → IsUri (c ∷ l)
IsUri-codes c l (p, h) = word (c ∷ []) l (λ e. cc) (Written.first c p) h

IsToken-codes : (c : ℕ) (l : List ℕ) → All IsTokenByte (c ∷ l) → IsToken (c ∷ l)
IsToken-codes c l (p, h) = word (c ∷ []) l refl (Written.first c p) h

pub page_request-IsWritten : IsWritten page_request
unfolding is_separator
page_request-IsWritten = record {
  method = IsToken-codes b'G' (codes "ET") (ground arith);
  method_fits = omega arith;
  uri = IsUri-codes b'/' (codes "a.HTML") (ground arith);
  uri_fits = omega arith;
  version = IsText-codes b'H' (codes "TTP/1.1") (ground arith);
  version_fits = omega arith;
  all_headers = (
    (IsToken-codes b'H' (codes "ost") (ground arith), omega arith),
    (IsText-codes b'l' (codes "ocalhost") (ground arith), omega arith),
    tt,
  );
}

parse-print_example : parse (yyparse (λ _. true)) (print page_request) ≡ ok (some page_request)
parse-print_example =
    parse-print (λ _. true) page_request (λ _. refl) page_request-IsWritten (omega arith)

page_parsed : yyparse (λ _. true) (print page_request) ≡ ok (some page_request)
unfolding yyparse Yacc.yyparse_loop Yacc.scan_then Yacc.proceed Yacc.shift Yacc.request_header
    Yacc.resize Yacc.request_line Yacc.symbol Lexer.yylex Lexer.is_other Lexer.token_at
    Lexer.sp_or_ws Lexer.span_ws Lexer.crlf_or_lws is_separator
page_parsed = refl

yyparse_accepts_example :
    (a : List Symbol) × (rest : List ℕ) × Read (print page_request) a rest
    × RequestRule (λ _. true) page_request a
yyparse_accepts_example = yyparse_accepts (λ _. true) (print page_request) page_request page_parsed

-- A byte at which no token stands is passed over.
passed_over :
    yyparse (λ _. true) (codes "GET /" ++ 233 ∷ codes " HTTP/1.1\r\n\r\n")
    ≡ ok (
        some (record {
          http_version = codes "HTTP/1.1";
          http_method = codes "GET";
          http_uri = codes "/";
          headers = [];
        }))
unfolding yyparse Yacc.yyparse_loop Yacc.scan_then Yacc.proceed Yacc.shift Yacc.request_header
    Yacc.resize Yacc.request_line Yacc.symbol Lexer.yylex Lexer.is_other Lexer.token_at
    Lexer.sp_or_ws Lexer.span_ws Lexer.crlf_or_lws is_separator
passed_over = refl

-- A header without a value: the request is refused.
no_value : yyparse (λ _. true) (codes "GET / HTTP/1.1\r\nAccept:\r\n\r\n") ≡ ok none
unfolding yyparse Yacc.yyparse_loop Yacc.scan_then Yacc.proceed Yacc.shift Yacc.request_header
    Yacc.resize Yacc.request_line Yacc.symbol Lexer.yylex Lexer.is_other Lexer.token_at
    Lexer.sp_or_ws Lexer.span_ws Lexer.crlf_or_lws is_separator
no_value = refl

-- A header that goes on in the next line: `t_lws` is in no rule of the grammar.
folded : yyparse (λ _. true) (codes "GET / HTTP/1.1\r\nA: b\r\n c\r\n\r\n") ≡ ok none
unfolding yyparse Yacc.yyparse_loop Yacc.scan_then Yacc.proceed Yacc.shift Yacc.request_header
    Yacc.resize Yacc.request_line Yacc.symbol Lexer.yylex Lexer.is_other Lexer.token_at
    Lexer.sp_or_ws Lexer.span_ws Lexer.crlf_or_lws is_separator
folded = refl

-- A method of 50 bytes is written past its array.
long_method :
    yyparse (λ _. true) (codes "AAAAAAAAAAAAAAAAAAAAAAAAAAAAAAAAAAAAAAAAAAAAAAAAAA / H\r\n")
    ≡ crash undefined
unfolding yyparse Yacc.yyparse_loop Yacc.scan_then Yacc.proceed Yacc.shift Yacc.request_header
    Yacc.resize Yacc.request_line Yacc.symbol Lexer.yylex Lexer.is_other Lexer.token_at
    Lexer.sp_or_ws Lexer.span_ws Lexer.crlf_or_lws is_separator
long_method = refl
