-- ===== src/Parse/RoundTrip.antt =====
-- Whole requests as they are written, and `yyparse` (src/parser/parser.y) on them.
use simle_http_server.Prelude.{
  ℕ, ◌*◌, ◌≤◌, ◌<◌, ◌≡◌, refl, List, [], ◌∷◌, ◌++◌, ok, Bool, true, arith, Option, some, length,
  ◌==◌, Bool-cases, inl, inr, append_assoc, append-nil,
}
use simle_http_server.Peer.{CString}
use simle_http_server.Text.{codes}
use simle_http_server.Parse.{Request}
use simle_http_server.Parse.Lexer.{span_ws}
use simle_http_server.Parse.Yacc.{
  a_colon, char, Parsing, request_line, resize, request_header, start, in_method, in_uri,
  in_version, between_headers, in_name, after_colon, in_value, shift, proceed, scan_then,
  yyparse_loop, yyparse,
}
use simle_http_server.Parse.Written.{Written-Parses, Written-Solid, step}
use simle_http_server.Parse.Runs.{
  kind, Solid, Solid-cons, Lexes, Lexes-text, Lexes-sp, Lexes-crlf, Parses, Parses-yyparse,
}
use simle_http_server.Parse.Print.{
  IsToken, IsText, IsUri, read_method, read_uri, read_version, read_name, read_value,
}

-- Each header as it is written, with one space after the colon, and the empty line.
abbrev pub print_headers : List (CString × CString) → List ℕ
print_headers [] = 13 ∷ 10 ∷ []
print_headers ((n, v) ∷ hs) = n ++ 58 ∷ 32 ∷ (v ++ 13 ∷ 10 ∷ print_headers hs)

-- The bytes of a request.
abbrev pub print : Request → List ℕ
print r =
    r.http_method ++ 32 ∷ (r.http_uri ++ 32 ∷ (r.http_version ++ 13 ∷ 10 ∷ print_headers r.headers))

abbrev pub AreHeaders : List (CString × CString) → Type 0
AreHeaders [] = Unit
AreHeaders ((n, v) ∷ hs) =
    (IsToken n × (length n < 4096)) × (IsText v × (length v < 4096)) × AreHeaders hs

-- A request whose parts are written as the grammar wants them, and fit the arrays of `Request`.
pub record IsWritten (r : Request) : Type 0 where
  pub method : IsToken r.http_method
  pub method_fits : length r.http_method < 50
  pub uri : IsUri r.http_uri
  pub uri_fits : length r.http_uri < 4096
  pub version : IsText r.http_version
  pub version_fits : length r.http_version < 50
  pub all_headers : AreHeaders r.headers

-- What `request_line` gives for the line of a request.
abbrev fresh : Request → Parsing
fresh r = record { request = record r { headers = [] }; header_cap = 20; printed = [] }

request_line_lem :
    (r : Request)
    → IsWritten r
    → request_line r.http_method r.http_uri r.http_version ≡ ok (fresh r)
unfolding request_line
request_line_lem r w =
    let mf = w.method_fits in let uf = w.uri_fits in let vf = w.version_fits in ground arith

fits : (l : List ℕ) (n : ℕ) → length l < n → n ≤ 8192 → length l < 8192
fits l n h k = omega arith

headers-Solid : (hs : List (CString × CString)) → AreHeaders hs → Solid (print_headers hs)
headers-Solid [] h = Solid-cons 13 (10 ∷ []) refl
headers-Solid ((n, v) ∷ hs) h = Written-Solid n _ (λ c t. t.0) h.0.0

module _ (realloc : ℕ → Bool) where
  resize_lem :
      (p : Parsing)
      → ((size : ℕ) → realloc size ≡ true)
      → (q : Parsing) × (resize realloc p ≡ ok q) × (q.request ≡ p.request)
  unfolding resize
  resize_lem p always = elim (Bool-cases (length p.request.headers == p.header_cap)) [
    | inl full ↦ (
      record p { header_cap = 2 * p.header_cap; printed = p.printed ++ codes "Realloc" ++ 10 ∷ [] },
      ground (arith, always (2 * p.header_cap)),
      refl,
    )
    | inr roomy ↦ (p, ground arith, refl)
  ]

  -- A header is appended, if there is always memory.
  request_header_lem :
      (p : Parsing) (n v : CString)
      → ((size : ℕ) → realloc size ≡ true)
      → length n < 4096
      → length v < 4096
      → (q : Parsing) × (request_header realloc p n v ≡ ok q)
        × (q.request ≡ record p.request { headers = p.request.headers ++ (n, v) ∷ [] })
  unfolding request_header
  request_header_lem p n v always nf vf =
      let p' = record p {
        request = record p.request { headers = p.request.headers ++ (n, v) ∷ [] };
      } in
      let (q, e, same) = resize_lem p' always in (q, ground (arith, e), same)

  Lexes-colon : (rest : List ℕ) → Lexes (58 ∷ rest) (char a_colon 58) rest
  unfolding kind
  Lexes-colon rest = Lexes-text 58 rest (omega arith, omega arith)

  header-Parses :
      (p q : Parsing) (n v rest : List ℕ) {o : Option Request}
      → IsToken n
      → length n < 4096
      → IsText v
      → length v < 4096
      → Solid rest
      → request_header realloc p n v ≡ ok q
      → Parses realloc (between_headers q) rest o
      → Parses realloc (between_headers p) (n ++ 58 ∷ 32 ∷ (v ++ 13 ∷ 10 ∷ rest)) o
  unfolding shift read_name read_value
  header-Parses p q n v rest tn nf tv vf solid stored run =
      let value = Written-Parses (read_value realloc p n) v (13 ∷ 10 ∷ rest) tv (omega arith) (
        step realloc (in_value p n v) (13 ∷ 10 ∷ rest) (Lexes-crlf rest solid) (rw stored refl)
          run) in
      let colon =
        step realloc (after_colon p n) (32 ∷ (v ++ 13 ∷ 10 ∷ rest))
          (Lexes-sp _ (Written-Solid v _ (λ c h. h) tv)) refl value in
      Written-Parses (read_name realloc p) n (58 ∷ 32 ∷ (v ++ 13 ∷ 10 ∷ rest)) tn (omega arith) (
        step realloc (in_name p n) (58 ∷ 32 ∷ (v ++ 13 ∷ 10 ∷ rest))
          (Lexes-colon (32 ∷ (v ++ 13 ∷ 10 ∷ rest))) refl colon)

  end-Parses : (p : Parsing) → Parses realloc (between_headers p) (13 ∷ 10 ∷ []) (some p.request)
  unfolding shift yyparse_loop scan_then proceed span_ws
  end-Parses p = let (t, e, x) = Lexes-crlf [] refl in (1, rw (e, x) refl)

  headers-Parses :
      (p : Parsing) (hs : List (CString × CString))
      → ((size : ℕ) → realloc size ≡ true)
      → AreHeaders hs
      → Parses realloc
          (between_headers p)
          (print_headers hs)
          (some (record p.request { headers = p.request.headers ++ hs }))
  headers-Parses p [] always h = rw (append-nil p.request.headers) (end-Parses p)
  headers-Parses p ((n, v) ∷ hs) always ((tn, nf), (tv, vf), h) =
      let (q, stored, same) = request_header_lem p n v always nf vf in
      let after =
        rw (same, append_assoc p.request.headers ((n, v) ∷ []) hs) at
          (headers-Parses q hs always h) in
      header-Parses p q n v (print_headers hs) tn nf tv vf (headers-Solid hs h) stored after

  line-Parses :
      (r : Request) (rest : List ℕ) {o : Option Request}
      → IsWritten r
      → Solid rest
      → Parses realloc (between_headers (fresh r)) rest o
      → Parses realloc start
          (r.http_method ++ 32 ∷ (r.http_uri ++ 32 ∷ (r.http_version ++ 13 ∷ 10 ∷ rest)))
          o
  unfolding shift request_line read_method read_uri read_version
  line-Parses r rest w solid run =
      let m = r.http_method in
      let u = r.http_uri in
      let v = r.http_version in
      let version =
        Written-Parses (read_version realloc m u) v (13 ∷ 10 ∷ rest) w.version
          (fits v 50 w.version_fits (omega arith))
          (step realloc (in_version m u v) (13 ∷ 10 ∷ rest) (Lexes-crlf rest solid)
            (rw (request_line_lem r w) refl) run) in
      let uri =
        Written-Parses (read_uri realloc m) u (32 ∷ (v ++ 13 ∷ 10 ∷ rest)) w.uri
          (fits u 4096 w.uri_fits (omega arith))
          (step realloc (in_uri m u) (32 ∷ (v ++ 13 ∷ 10 ∷ rest))
            (Lexes-sp _ (Written-Solid v _ (λ c h. h) w.version)) refl version) in
      Written-Parses (read_method realloc) m (32 ∷ (u ++ 32 ∷ (v ++ 13 ∷ 10 ∷ rest))) w.method
        (fits m 50 w.method_fits (omega arith))
        (step realloc (in_method m) (32 ∷ (u ++ 32 ∷ (v ++ 13 ∷ 10 ∷ rest)))
          (Lexes-sp _ (Written-Solid u _ (λ c h. h) w.uri)) refl uri)

-- Round trip: if there is always memory for the headers, the parser reads back every request that is
-- written as the grammar wants it and fits the arrays of `Request`. A single space in the URI, or a
-- header with no value, is not written so.
pub yyparse-print :
    (realloc : ℕ → Bool) (r : Request)
    → ((size : ℕ) → realloc size ≡ true)
    → IsWritten r
    → yyparse realloc (print r) ≡ ok (some r)
yyparse-print realloc r always w = Parses-yyparse realloc (print r) (some r) (
    line-Parses realloc r (print_headers r.headers) w (headers-Solid r.headers w.all_headers)
      (headers-Parses realloc (fresh r) r.headers always w.all_headers))
