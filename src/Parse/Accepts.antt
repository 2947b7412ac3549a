-- ===== src/Parse/Accepts.antt =====
-- `yyparse` on the bytes of a request (src/parser/lexer.l, src/parser/parser.y): that it ends, and what
-- it accepts.
use simle_http_server.Prelude.{
  ℕ, zero, suc, ◌+◌, ◌<◌, ◌≡◌, refl, List, [], ◌∷◌, ◌++◌, Outcome, ok, crash, Bool, arith, Option,
  none, some, Safe, Safe-bind, Safe-ok, Safe-ends, ◌≢◌, out_of_fuel, length, length-append, ap,
  true, false, if◌then◌else◌,
}
use simle_http_server.Parse.{Request}
use simle_http_server.Parse.Lexer.{Token, is_other, token_at, yylex}
use simle_http_server.Parse.Lexer.Text.{
  TextOf, TextOf-longer, IsOther, is_other-IsOther, Scanned, token_at-Scanned,
}
use simle_http_server.Parse.Yacc.{
  Symbol, symbol, State, start, Verdict, more, success, syntax_error, proceed, scan_then,
  yyparse_loop, yyparse,
}
use simle_http_server.Parse.Grammar.{RequestRule}
use simle_http_server.Parse.Sound.{Knows, Says, shift-Safe}

-- The tokens read from the bytes `l`, from the last one back, and the bytes that are left. A byte at which no
-- token stands is passed over.
pub data Read (l : List ℕ) : List Symbol → List ℕ → Type 0 where
  nothing : Read l [] l
  token :
      {a : List Symbol} {s rest : List ℕ} (t : Token)
      → Read l a (s ++ rest)
      → TextOf t s
      → Read l (symbol t ∷ a) rest
  passed :
      {a : List Symbol} {c : ℕ} {rest : List ℕ}
      → Read l a (c ∷ rest)
      → IsOther c rest
      → Read l a rest

-- What a call of the scanner gives, after `a`, for bytes fewer than `n`.
abbrev Found : List ℕ → List Symbol → ℕ → List ℕ × Option (Token × List ℕ) → Type 0
Found l a n (_, none) = Unit
Found l a n (_, some (t, after)) = Read l (symbol t ∷ a) after × (length after < n)

Found-if :
    (l : List ℕ) (a : List Symbol) (n : ℕ) (b : Bool) (p q : List ℕ × Option (Token × List ℕ))
    → (b ≡ true → Found l a n p)
    → (b ≡ false → Found l a n q)
    → Found l a n (if b then p else q)
Found-if l a n true p q h k = h refl
Found-if l a n false p q h k = k refl

Found-past :
    (l : List ℕ) (a : List Symbol) (n c : ℕ) (p : List ℕ × Option (Token × List ℕ))
    → Found l a n p
    → Found l a (suc n) (c ∷ p.0, p.1)
Found-past l a n c (_, none) h = tt
Found-past l a n c (_, some (t, after)) (r, less) = (r, omega arith)

Found-token :
    {l : List ℕ} {a : List Symbol} (c : ℕ) (rest : List ℕ) (p : Token × List ℕ)
    → Read l a (c ∷ rest)
    → Scanned (c ∷ rest) p
    → Found l a (suc (length rest)) ([], some p)
Found-token c rest (t, after) r (s, x, e) =
    let size = ap length e in
    (Read.token t (rw e r) x, omega (arith, TextOf-longer x, size, length-append s after))

yylex-Found :
    {l : List ℕ} {a : List Symbol} (rest : List ℕ)
    → Read l a rest
    → Found l a (length rest) (yylex rest)
unfolding yylex
yylex-Found {l} {a} [] r = tt
yylex-Found {l} {a} (c ∷ rest) r =
    Found-if l a _ (is_other c rest) _ _
      (λ e.
        Found-past l a (length rest) c (yylex rest)
          (yylex-Found rest (Read.passed r (is_other-IsOther c rest e))))
      (λ e. Found-token c rest (token_at c rest) r (token_at-Scanned c rest e))

module _ (realloc : ℕ → Bool) where
  -- The request, if there is one, is what the grammar gives for the tokens at the front of the bytes.
  abbrev pub Accepts : List ℕ → Option Request → Type 0
  Accepts l none = Unit
  Accepts l (some r) = (a : List Symbol) × (rest : List ℕ) × Read l a rest × RequestRule realloc r a

  proceed-Safe :
      (l : List ℕ) (run : State → Outcome (Option Request)) (a : List Symbol) (rest : List ℕ)
      → Read l a rest
      → ((s : State) → Knows realloc s a → Safe (Accepts l) (run s))
      → (v : Verdict) → Says realloc v a
      → Safe (Accepts l) (proceed realloc run v)
  unfolding proceed
  proceed-Safe l run a rest r go (more s) k = go s k
  proceed-Safe l run a rest r go (success q) k = Safe.done _ (a, rest, r, k)
  proceed-Safe l run a rest r go syntax_error k = Safe.done _ tt

  scan_then-Safe :
      (l : List ℕ) (n : ℕ) (s : State) (a : List Symbol)
      (run : List ℕ → State → Outcome (Option Request)) (o : List ℕ × Option (Token × List ℕ))
      → Knows realloc s a
      → Found l a n o
      → ((b : List Symbol) (after : List ℕ)
          → Read l b after
          → length after < n
          → (s' : State) → Knows realloc s' b
          → Safe (Accepts l) (run after s'))
      → Safe (Accepts l) (scan_then realloc run s o)
  unfolding scan_then
  scan_then-Safe l n s a run (_, none) k found go = Safe.done _ tt
  scan_then-Safe l n s a run (_, some (t, after)) k (seen, less) go =
      Safe-bind _ (shift-Safe realloc s (symbol t) a k)
        λ v says. proceed-Safe l (run after) (symbol t ∷ a) after seen (go _ after seen less) v says

  yyparse_loop-Safe :
      (l : List ℕ) (fuel : ℕ) (s : State) (a : List Symbol) (rest : List ℕ)
      → Read l a rest
      → Knows realloc s a
      → length rest < fuel
      → Safe (Accepts l) (yyparse_loop realloc fuel s rest)
  unfolding yyparse_loop
  yyparse_loop-Safe l zero s a rest r k room = absurd (omega arith)
  yyparse_loop-Safe l (suc fuel) s a rest r k room =
      scan_then-Safe l (length rest) s a _ (yylex rest) k (yylex-Found rest r)
        λ b after seen less s' k'. yyparse_loop-Safe l fuel s' b after seen k' (omega arith)

  yyparse-Safe : (l : List ℕ) → Safe (Accepts l) (yyparse realloc l)
  unfolding yyparse
  yyparse-Safe l = yyparse_loop-Safe l (length l + 1) start [] l Read.nothing refl (omega arith)

  -- The parser ends on any bytes: it accepts or refuses them, or stops the process or overruns an array.
  pub yyparse_ends : (l : List ℕ) → yyparse realloc l ≢ crash out_of_fuel
  yyparse_ends l = Safe-ends (yyparse-Safe l)

  -- If the parser accepts the bytes, then at their front stand the texts of some tokens, with nothing between
  -- them but bytes at which no token stands, and the grammar derives a request from these tokens, whose
  -- actions give the request that is returned.
  pub yyparse_accepts :
      (l : List ℕ) (r : Request)
      → yyparse realloc l ≡ ok (some r)
      → (a : List Symbol) × (rest : List ℕ) × Read l a rest × RequestRule realloc r a
  yyparse_accepts l r = Safe-ok (some r) (yyparse-Safe l)
