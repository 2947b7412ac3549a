-- ===== src/Parse/Sound.antt =====
-- What the parser of src/parser/parser.y accepts, by its grammar.
use simle_http_server.Prelude.{
  ℕ, List, [], ◌∷◌, Outcome, ok, crash, out_of_fuel, ◌≢◌, ◌>>=◌, Safe, Safe-of, Safe-bind, ◌≡◌,
  refl, Bool, arith,
}
use simle_http_server.Peer.{CString}
use simle_http_server.Parse.Yacc.{
  allowed_in_token, a_colon, Symbol, char, sp, ws, crlf, resize, Parsing, request_line,
  request_header, State, start, in_method, before_uri, in_uri, ows_in_uri, before_version,
  in_version, ows_in_version, between_headers, in_name, before_colon, after_colon, before_value,
  in_value, ows_in_value, Verdict, more, success, syntax_error, shift,
}
use simle_http_server.Parse.Grammar.{Ows, TokenRule, TextRule, LineRule, HeadersRule, RequestRule}

-- The parts of a request that the grammar gives for the symbols read so far.
abbrev AfterMethod : CString → List Symbol → Type 0
AfterMethod m l = (a : List Symbol) × TokenRule [] m a × (l ≡ sp ∷ a)

abbrev AfterUri : CString → CString → List Symbol → Type 0
AfterUri m u l = (a : List Symbol) × AfterMethod m a × TextRule a u l

abbrev AfterUriSp : CString → CString → List Symbol → Type 0
AfterUriSp m u l = (a : List Symbol) × AfterUri m u a × (l ≡ sp ∷ a)

abbrev AfterVersion : CString → CString → CString → List Symbol → Type 0
AfterVersion m u v l = (a : List Symbol) × AfterUriSp m u a × TextRule a v l

-- What is known of the result of a run that ends.
Safe-self : {A : Type 0} (m : Outcome A) → m ≢ crash out_of_fuel → Safe (λ a. m ≡ ok a) m
Safe-self m ends = Safe-of m ends λ a e. e

request_line_ends : (m u v : CString) → request_line m u v ≢ crash out_of_fuel
unfolding request_line
request_line_ends m u v = ground arith

module _ (realloc : ℕ → Bool) where
  abbrev AfterName : Parsing → CString → List Symbol → Type 0
  AfterName p n l = (a : List Symbol) × HeadersRule realloc p a × TokenRule a n l

  abbrev AfterNameOws : Parsing → CString → List Symbol → Type 0
  AfterNameOws p n l = (a : List Symbol) × (w : CString) × AfterName p n a × Ows a w l

  abbrev AfterColon : Parsing → CString → List Symbol → Type 0
  AfterColon p n l = (a : List Symbol) × (c : ℕ) × AfterNameOws p n a × (l ≡ char a_colon c ∷ a)

  abbrev AfterColonOws : Parsing → CString → List Symbol → Type 0
  AfterColonOws p n l = (a : List Symbol) × (w : CString) × AfterColon p n a × Ows a w l

  abbrev AfterValue : Parsing → CString → CString → List Symbol → Type 0
  AfterValue p n v l = (a : List Symbol) × AfterColonOws p n a × TextRule a v l

  -- What a state of the parser knows of the symbols read so far.
  abbrev pub Knows : State → List Symbol → Type 0
  Knows start l = l ≡ []
  Knows (in_method m) l = TokenRule [] m l
  Knows (before_uri m) l = AfterMethod m l
  Knows (in_uri m u) l = AfterUri m u l
  Knows (ows_in_uri m u s) l = (a : List Symbol) × AfterUri m u a × Ows a s l
  Knows (before_version m u) l = AfterUriSp m u l
  Knows (in_version m u v) l = AfterVersion m u v l
  Knows (ows_in_version m u v s) l = (a : List Symbol) × AfterVersion m u v a × Ows a s l
  Knows (between_headers p) l = HeadersRule realloc p l
  Knows (in_name p n) l = AfterName p n l
  Knows (before_colon p n) l = AfterNameOws p n l
  Knows (after_colon p n) l = AfterColon p n l
  Knows (before_value p n) l = AfterColonOws p n l
  Knows (in_value p n v) l = AfterValue p n v l
  Knows (ows_in_value p n v s) l = (a : List Symbol) × AfterValue p n v a × Ows a s l

  -- What a step says of the symbols read, the last one included.
  abbrev pub Says : Verdict → List Symbol → Type 0
  Says (more s) l = Knows s l
  Says (success r) l = RequestRule realloc r l
  Says syntax_error l = Unit

  request_header_ends :
      (p : Parsing) (n v : CString) → request_header realloc p n v ≢ crash out_of_fuel
  unfolding request_header resize
  request_header_ends p n v = ground arith

  line-Safe :
      (m u v : CString) {a : List Symbol}
      → AfterVersion m u v a
      → Safe (λ w. Says w (crlf ∷ a)) (do p ← request_line m u v; ok (more (between_headers p)))
  line-Safe m u v (a₁, (a₂, (a₃, (a₄, t, e₄), x₃), e₂), x₁) =
      Safe-bind (λ p. request_line m u v ≡ ok p) (Safe-self _ (request_line_ends m u v))
        λ p h. Safe.done _ (HeadersRule.none_yet (LineRule.line t (rw e₄ at x₃) (rw e₂ at x₁) h))

  header-Safe :
      (p : Parsing) (n v s : CString) {a o : List Symbol}
      → AfterValue p n v a
      → Ows a s o
      → Safe
          (λ w. Says w (crlf ∷ o))
          (do q ← request_header realloc p n v; ok (more (between_headers q)))
  header-Safe p n v s (a₁, (a₂, w₂, (a₃, c, (a₄, w₁, (a₅, hs, t), o₁), e₃), o₂), x) o₃ =
      Safe-bind (λ q. request_header realloc p n v ≡ ok q) (Safe-self _ (request_header_ends p n v))
        λ q h. Safe.done _ (HeadersRule.header c hs t o₁ (rw e₃ at o₂) x o₃ h)

  pub shift-Safe :
      (s : State) (x : Symbol) (l : List Symbol)
      → Knows s l
      → Safe (λ w. Says w (x ∷ l)) (shift realloc s x)
  unfolding shift
  shift-Safe start (char allowed_in_token c) l k = Safe.done _ (rw k (TokenRule.first c))
  shift-Safe (in_method m) (char allowed_in_token c) l k = Safe.done _ (TokenRule.next c k)
  shift-Safe (in_method m) sp l k = Safe.done _ (l, k, refl)
  shift-Safe (before_uri m) (char kind c) l k = Safe.done _ (l, k, TextRule.first kind c)
  shift-Safe (in_uri m u) (char kind c) l (a, k, t) =
      Safe.done _ (a, k, TextRule.next kind c t Ows.nothing)
  shift-Safe (in_uri m u) sp l k = Safe.done _ (l, k, refl)
  shift-Safe (in_uri m u) (ws s) l k = Safe.done _ (l, k, Ows.some_ws s)
  shift-Safe (ows_in_uri m u s) (char kind c) l (a, (b, k, t), o) =
      Safe.done _ (b, k, TextRule.next kind c t o)
  shift-Safe (before_version m u) (char kind c) l k = Safe.done _ (l, k, TextRule.first kind c)
  shift-Safe (in_version m u v) (char kind c) l (a, k, t) =
      Safe.done _ (a, k, TextRule.next kind c t Ows.nothing)
  shift-Safe (in_version m u v) sp l k = Safe.done _ (l, k, Ows.one_sp)
  shift-Safe (in_version m u v) (ws s) l k = Safe.done _ (l, k, Ows.some_ws s)
  shift-Safe (in_version m u v) crlf l k = line-Safe m u v k
  shift-Safe (ows_in_version m u v s) (char kind c) l (a, (b, k, t), o) =
      Safe.done _ (b, k, TextRule.next kind c t o)
  shift-Safe (between_headers p) (char allowed_in_token c) l k =
      Safe.done _ (l, k, TokenRule.first c)
  shift-Safe (between_headers p) crlf l k = Safe.done _ (RequestRule.request k)
  shift-Safe (in_name p n) (char allowed_in_token c) l (a, k, t) =
      Safe.done _ (a, k, TokenRule.next c t)
  shift-Safe (in_name p n) (char a_colon c) l k = Safe.done _ (l, c, (l, [], k, Ows.nothing), refl)
  shift-Safe (in_name p n) sp l k = Safe.done _ (l, _, k, Ows.one_sp)
  shift-Safe (in_name p n) (ws s) l k = Safe.done _ (l, _, k, Ows.some_ws s)
  shift-Safe (before_colon p n) (char a_colon c) l k = Safe.done _ (l, c, k, refl)
  shift-Safe (after_colon p n) sp l k = Safe.done _ (l, _, k, Ows.one_sp)
  shift-Safe (after_colon p n) (ws s) l k = Safe.done _ (l, _, k, Ows.some_ws s)
  shift-Safe (after_colon p n) (char kind c) l k =
      Safe.done _ (l, (l, [], k, Ows.nothing), TextRule.first kind c)
  shift-Safe (before_value p n) (char kind c) l k = Safe.done _ (l, k, TextRule.first kind c)
  shift-Safe (in_value p n v) (char kind c) l (a, k, t) =
      Safe.done _ (a, k, TextRule.next kind c t Ows.nothing)
  shift-Safe (in_value p n v) sp l k = Safe.done _ (l, k, Ows.one_sp)
  shift-Safe (in_value p n v) (ws s) l k = Safe.done _ (l, k, Ows.some_ws s)
  shift-Safe (in_value p n v) crlf l k = header-Safe p n v [] k Ows.nothing
  shift-Safe (ows_in_value p n v s) (char kind c) l (a, (b, k, t), o) =
      Safe.done _ (b, k, TextRule.next kind c t o)
  shift-Safe (ows_in_value p n v s) crlf l (a, k, o) = header-Safe p n v s k o
  shift-Safe _ _ l k = Safe.done _ tt
