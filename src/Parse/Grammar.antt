-- ===== src/Parse/Grammar.antt =====
-- The grammar of src/parser/parser.y as relations. Each rule leads from the symbols read before it to
-- those read after it, both listed from the last one back.
use simle_http_server.Prelude.{ℕ, List, [], ◌∷◌, ◌++◌, ok, ◌≡◌, Bool}
use simle_http_server.Peer.{CString}
use simle_http_server.Parse.{Request}
use simle_http_server.Parse.Yacc.{
  Kind, allowed_in_token, a_colon, Symbol, char, sp, ws, crlf, snprintf, Parsing, request_line,
  request_header,
}

-- `ows`
pub data Ows (b : List Symbol) : CString → List Symbol → Type 0 where
  nothing : Ows b [] b
  one_sp : Ows b (snprintf (32 ∷ [])) (sp ∷ b)
  some_ws : (s : CString) → Ows b (snprintf s) (ws s ∷ b)

-- `token`
pub data TokenRule (b : List Symbol) : CString → List Symbol → Type 0 where
  first : (c : ℕ) → TokenRule b (snprintf (c ∷ [])) (char allowed_in_token c ∷ b)
  next :
      {s : CString} {a : List Symbol} (c : ℕ)
      → TokenRule b s a
      → TokenRule b (snprintf (s ++ c ∷ [])) (char allowed_in_token c ∷ a)

-- `text`
pub data TextRule (b : List Symbol) : CString → List Symbol → Type 0 where
  first : (k : Kind) (c : ℕ) → TextRule b (snprintf (c ∷ [])) (char k c ∷ b)
  next :
      {s w : CString} {a o : List Symbol} (k : Kind) (c : ℕ)
      → TextRule b s a
      → Ows a w o
      → TextRule b (snprintf (s ++ (w ++ c ∷ []))) (char k c ∷ o)

-- `request_line`
pub data LineRule : Parsing → List Symbol → Type 0 where
  line :
      {m u v : CString} {a b c : List Symbol} {p : Parsing}
      → TokenRule [] m a
      → TextRule (sp ∷ a) u b
      → TextRule (sp ∷ b) v c
      → request_line m u v ≡ ok p
      → LineRule p (crlf ∷ c)

-- `request_line request_headers`, with `request_header` in the second rule.
pub data HeadersRule (realloc : ℕ → Bool) : Parsing → List Symbol → Type 0 where
  none_yet : {p : Parsing} {a : List Symbol} → LineRule p a → HeadersRule realloc p a
  header :
      {n v w₁ w₂ w₃ : CString} {a b c d e f : List Symbol} {p q : Parsing} (colon : ℕ)
      → HeadersRule realloc p a
      → TokenRule a n b
      → Ows b w₁ c
      → Ows (char a_colon colon ∷ c) w₂ d
      → TextRule d v e
      → Ows e w₃ f
      → request_header realloc p n v ≡ ok q
      → HeadersRule realloc q (crlf ∷ f)

-- `request`
pub data RequestRule (realloc : ℕ → Bool) : Request → List Symbol → Type 0 where
  request :
      {p : Parsing} {a : List Symbol}
      → HeadersRule realloc p a
      → RequestRule realloc p.request (crlf ∷ a)
