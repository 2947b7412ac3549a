-- ===== src/Text/Uri.antt =====
-- The string helpers of src/http.c and src/file_handlers.c on URIs and file names.
use simle_http_server.Prelude.{
  ℕ, suc, ◌+◌, ◌-◌, ◌≡◌, refl, ap, [], ◌∷◌, ◌++◌, false, arith, ◌==◌, if◌then◌else◌, none, some, ok,
  length, length-append, take, get_or, ◌≢◌,
}
use simle_http_server.Peer.{CString}
use simle_http_server.Text.{
  codes, last_index, first_index, get_filename_ext, last_byte, starts_with,
  remove_redundancy_from_uri,
}

-- The byte is not in the string.
abbrev pub Lacks : ℕ → CString → Type 0
Lacks c [] = Unit
Lacks c (x ∷ xs) = (x ≢ c) × Lacks c xs

pub first_index_lem :
    (c : ℕ) (pre post : CString)
    → Lacks c pre
    → first_index c (pre ++ (c ∷ post)) ≡ some (length pre)
unfolding first_index
first_index_lem c [] post lacks = ground arith
first_index_lem c (x ∷ pre) post (ne, lacks) =
    let ih = first_index_lem c pre post lacks in ground (arith, ih)

last_index-Lacks : (c : ℕ) (s : CString) → Lacks c s → last_index c s ≡ none
unfolding last_index
last_index-Lacks c [] lacks = refl
last_index-Lacks c (x ∷ s) (ne, lacks) = let ih = last_index-Lacks c s lacks in ground (arith, ih)

last_index_lem :
    (c : ℕ) (pre post : CString)
    → Lacks c post
    → last_index c (pre ++ (c ∷ post)) ≡ some (length pre)
unfolding last_index
last_index_lem c [] post lacks =
    let none_after = last_index-Lacks c post lacks in ground (arith, none_after)
last_index_lem c (x ∷ pre) post lacks =
    let ih = last_index_lem c pre post lacks in ground (arith, ih)

-- The extension of a file name starts after its last dot; a name whose only dot is its first byte
-- has none.
pub get_filename_ext_lem :
    (name ext : CString)
    → Lacks b'.' ext
    → get_filename_ext (name ++ (b'.' ∷ ext))
      ≡ (if length name == 0 then none else some (length name + 1))
unfolding get_filename_ext
get_filename_ext_lem name ext lacks =
    let i = last_index_lem b'.' name ext lacks in ground (arith, i)

get_or-last : (s : CString) (c d : ℕ) → get_or (s ++ (c ∷ [])) (length s) d ≡ c
get_or-last [] c d = refl
get_or-last (x ∷ s) c d = get_or-last s c d

pub last_byte-append : (s : CString) (c : ℕ) → last_byte (s ++ (c ∷ [])) ≡ ok c
unfolding last_byte
last_byte-append [] c = refl
last_byte-append (x ∷ s) c =
    let n : length (s ++ (c ∷ [])) ≡ suc (length s) = omega (arith, length-append s (c ∷ [])) in
    rw n (ap ok (get_or-last s c 0))

pub take_init : (s : CString) (c : ℕ) → take (length (s ++ (c ∷ [])) - 1) (s ++ (c ∷ [])) ≡ s
take_init s c = rw (n s) (keep s)
  where
    n : (s : CString) → length (s ++ (c ∷ [])) - 1 ≡ length s
    n s = omega (arith, length-append s (c ∷ []))

    keep : (s : CString) → take (length s) (s ++ (c ∷ [])) ≡ s
    keep [] = refl
    keep (x ∷ s) = ap (λ l. x ∷ l) (keep s)

-- Of a URI that is not empty and does not start with "http://", `remove_redundancy_from_uri` drops a
-- last slash and no other byte.
pub remove_redundancy_from_uri_lem :
    (s : CString) (c : ℕ)
    → starts_with (codes "http://") (s ++ (c ∷ [])) ≡ false
    → remove_redundancy_from_uri (s ++ (c ∷ [])) ≡ ok (if c == b'/' then s else s ++ (c ∷ []))
unfolding remove_redundancy_from_uri
remove_redundancy_from_uri_lem s c other =
    ground (arith, other, last_byte-append s c, take_init s c)
