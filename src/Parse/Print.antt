-- ===== src/Parse/Print.antt =====
-- The parts of a request as they are written, and the states of `yyparse` (src/parser/parser.y) that read
-- them.
use simle_http_server.Prelude.{ℕ, ◌≡◌, ◌≢◌, refl, [], ◌∷◌, Bool, false, arith}
use simle_http_server.Peer.{CString}
use simle_http_server.Parse.Lexer.{is_separator}
use simle_http_server.Parse.Yacc.{
  allowed_in_token, Parsing, start, in_method, before_uri, in_uri, ows_in_uri, before_version,
  in_version, ows_in_version, between_headers, in_name, before_value, in_value, ows_in_value, shift,
}
use simle_http_server.Parse.Written.{Written, Reader}
use simle_http_server.Parse.Runs.{IsTextByte, kind}

abbrev pub IsTokenByte : ℕ → Type 0
IsTokenByte c = IsTextByte c × (is_separator c ≡ false)

-- `token`, and `text` with blanks inside it; for a URI no single space is one of these.
abbrev pub IsToken : CString → Type 0
IsToken = Written IsTokenByte (λ w. w ≡ [])

abbrev pub IsText : CString → Type 0
IsText = Written IsTextByte (λ w. Unit)

abbrev pub IsUri : CString → Type 0
IsUri = Written IsTextByte (λ w. w ≢ 32 ∷ [])

pub kind-token : (c : ℕ) → IsTokenByte c → kind c ≡ allowed_in_token
unfolding kind is_separator
kind-token c h = ground arith

module _ (realloc : ℕ → Bool) where
  unfoldable pub read_method : Reader realloc IsTokenByte (λ w. w ≡ [])
  unfolding shift
  read_method = record {
    before = start;
    read = in_method;
    gap = λ v w. start;
    is_text = λ c h. h.0;
    enter = λ c h. rw (kind-token c h) refl;
    go_on = λ v c h. rw (kind-token c h) refl;
    by_sp = λ v b. absurd (cc);
    by_ws = λ v w b ne. absurd (ne b);
    after = λ v w c b ne h. absurd (ne b);
  }

  unfoldable pub read_uri : CString → Reader realloc IsTextByte (λ w. w ≢ 32 ∷ [])
  unfolding shift
  read_uri m = record {
    before = before_uri m;
    read = in_uri m;
    gap = ows_in_uri m;
    is_text = λ c h. h;
    enter = λ c h. refl;
    go_on = λ v c h. refl;
    by_sp = λ v b. absurd (b refl);
    by_ws = λ v w b ne. refl;
    after = λ v w c b ne h. refl;
  }

  unfoldable pub read_version : CString → CString → Reader realloc IsTextByte (λ w. Unit)
  unfolding shift
  read_version m u = record {
    before = before_version m u;
    read = in_version m u;
    gap = ows_in_version m u;
    is_text = λ c h. h;
    enter = λ c h. refl;
    go_on = λ v c h. refl;
    by_sp = λ v b. refl;
    by_ws = λ v w b ne. refl;
    after = λ v w c b ne h. refl;
  }

  unfoldable pub read_name : Parsing → Reader realloc IsTokenByte (λ w. w ≡ [])
  unfolding shift
  read_name p = record {
    before = between_headers p;
    read = in_name p;
    gap = λ v w. start;
    is_text = λ c h. h.0;
    enter = λ c h. rw (kind-token c h) refl;
    go_on = λ v c h. rw (kind-token c h) refl;
    by_sp = λ v b. absurd (cc);
    by_ws = λ v w b ne. absurd (ne b);
    after = λ v w c b ne h. absurd (ne b);
  }

  unfoldable pub read_value : Parsing → CString → Reader realloc IsTextByte (λ w. Unit)
  unfolding shift
  read_value p n = record {
    before = before_value p n;
    read = in_value p n;
    gap = ows_in_value p n;
    is_text = λ c h. h;
    enter = λ c h. refl;
    go_on = λ v c h. refl;
    by_sp = λ v b. refl;
    by_ws = λ v w b ne. refl;
    after = λ v w c b ne h. refl;
  }
