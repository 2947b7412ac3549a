-- ===== src/Path/Files.antt =====
-- Which file a request gets: `make_full_path` and the extension in src/http.c.
use simle_http_server.Prelude.{
  ℕ, suc, ◌+◌, ◌<◌, ◌≡◌, refl, sym, ap, ◌∙◌, [], ◌∷◌, ◌++◌, Bool, true, false, arith, ◌==◌,
  if◌then◌else◌, ok, length, length-append, append_assoc, append-nil, take, drop, ◌≢◌,
}
use simle_http_server.Peer.{CString}
use simle_http_server.Text.{
  codes, starts_with, strn_eq, str_tolower, remove_redundancy_from_uri, requested_path_is_dir,
}
use simle_http_server.Text.Uri.{
  Lacks, get_filename_ext_lem, last_byte-append, take_init, remove_redundancy_from_uri_lem,
}
use simle_http_server.Path.{fits_path, drop_last, make_full_path, index_file, lower_extension}

fits_path_lem : (s : CString) → length s < 4096 → fits_path s ≡ ok s
unfolding fits_path
fits_path_lem s h = ground arith

drop_last_lem : (s : CString) (c : ℕ) → drop_last (s ++ (c ∷ [])) ≡ ok s
unfolding drop_last
drop_last_lem s c = rw (last_byte-append s c, take_init s c) refl

not_absolute : (s : CString) → starts_with (codes "http://") (b'/' ∷ s) ≡ false
unfolding starts_with strn_eq
not_absolute s = ground arith

is_dir_lem :
    (s : CString) (c : ℕ) → requested_path_is_dir (s ++ (c ∷ [])) ≡ ok (if c == b'/' then 1 else 0)
unfolding requested_path_is_dir
is_dir_lem s c = rw (last_byte-append s c) refl

-- The URI after its redundancies are removed, for one that starts with '/' and has its last slash, if
-- any, removed.
cleaned :
    (s : CString) (c : ℕ) (slash : Bool)
    → c ≢ b'/'
    → remove_redundancy_from_uri (b'/' ∷ (s ++ (c ∷ (if slash then b'/' ∷ [] else []))))
      ≡ ok (b'/' ∷ (s ++ (c ∷ [])))
cleaned s c false ne =
    let r = remove_redundancy_from_uri_lem (b'/' ∷ s) c (not_absolute (s ++ (c ∷ []))) in
    r ∙ ground arith
cleaned s c true ne =
    let shape : s ++ (c ∷ (b'/' ∷ [])) ≡ (s ++ (c ∷ [])) ++ (b'/' ∷ []) =
      sym (append_assoc s (c ∷ []) (b'/' ∷ [])) in
    rw shape (
      remove_redundancy_from_uri_lem (b'/' ∷ (s ++ (c ∷ []))) b'/'
        (not_absolute ((s ++ (c ∷ [])) ++ (b'/' ∷ []))))

-- With a `www_dir` that ends with '/', a URI `/` + `s` + `c`, with `c` not a slash, or the same followed by
-- a slash: the file is `www_dir` followed by `s` and `c`, if that fits. No byte of `s` is looked at, so a
-- URI with `..` leaves the directory, and a URI that ends with a slash never means an index file.
pub make_full_path_lem :
    (root s : CString) (c : ℕ) (slash : Bool)
    → c ≢ b'/'
    → length root + length s + 2 < 4096
    → make_full_path (root ++ (b'/' ∷ [])) (b'/' ∷ (s ++ (c ∷ (if slash then b'/' ∷ [] else []))))
      ≡ ok (root ++ (b'/' ∷ (s ++ (c ∷ []))), b'/' ∷ (s ++ (c ∷ [])))
unfolding make_full_path
make_full_path_lem root s c slash ne fits =
    let n0 = length-append root (b'/' ∷ []) in
    let n1 = length-append s (c ∷ []) in
    let n2 = length-append root (b'/' ∷ (s ++ (c ∷ []))) in
    let shape : root ++ (b'/' ∷ (s ++ (c ∷ []))) ≡ (root ++ (b'/' ∷ s)) ++ (c ∷ []) =
      sym (append_assoc root (b'/' ∷ s) (c ∷ [])) in
    let file : requested_path_is_dir (root ++ (b'/' ∷ (s ++ (c ∷ [])))) ≡ ok 0 =
      rw shape (is_dir_lem (root ++ (b'/' ∷ s)) c ∙ ground arith) in
    rw
      (
        fits_path_lem (root ++ (b'/' ∷ [])) (omega (arith, n0)),
        cleaned s c slash ne,
        drop_last_lem root b'/',
        fits_path_lem (root ++ (b'/' ∷ (s ++ (c ∷ [])))) (omega (arith, n1, n2)),
        file,
      )
      refl

-- The URI `/` means the file Index.html in `www_dir`, if that fits.
pub make_full_path_root :
    (root : CString)
    → length root + 11 < 4096
    → make_full_path (root ++ (b'/' ∷ [])) (b'/' ∷ []) ≡ ok (root ++ (b'/' ∷ index_file), [])
unfolding make_full_path
make_full_path_root root fits =
    let n0 = length-append root (b'/' ∷ []) in
    let n1 = length-append root (b'/' ∷ index_file) in
    let clean : remove_redundancy_from_uri (b'/' ∷ []) ≡ ok [] =
      remove_redundancy_from_uri_lem [] b'/' (not_absolute []) in
    let end : (root ++ (b'/' ∷ [])) ++ [] ≡ root ++ (b'/' ∷ []) =
      append-nil (root ++ (b'/' ∷ [])) in
    let all : (root ++ (b'/' ∷ [])) ++ index_file ≡ root ++ (b'/' ∷ index_file) =
      append_assoc root (b'/' ∷ []) index_file in
    rw
      (
        fits_path_lem (root ++ (b'/' ∷ [])) (omega (arith, n0)),
        clean,
        end,
        fits_path_lem (root ++ (b'/' ∷ [])) (omega (arith, n0)),
        is_dir_lem root b'/',
        all,
        fits_path_lem (root ++ (b'/' ∷ index_file)) (omega (arith, n1)),
      )
      refl

take_name : (s post : CString) → take (length s + 1) (s ++ (b'.' ∷ post)) ≡ s ++ (b'.' ∷ [])
take_name [] post = refl
take_name (x ∷ s) post =
    let e : length (x ∷ s) + 1 ≡ suc (length s + 1) = omega arith in
    rw e (ap (λ l. x ∷ l) (take_name s post))

drop_name : (s post : CString) → drop (length s + 1) (s ++ (b'.' ∷ post)) ≡ post
drop_name [] post = refl
drop_name (x ∷ s) post =
    let e : length (x ∷ s) + 1 ≡ suc (length s + 1) = omega arith in rw e (drop_name s post)

-- For a path with a last dot, not as its first byte, the extension is put in lower case, and in the path
-- with it: the file that is opened need not be the file that `access` found.
pub lower_extension_lem :
    (name ext : CString)
    → name ≢ []
    → Lacks b'.' ext
    → lower_extension (name ++ (b'.' ∷ ext)) ≡ (name ++ (b'.' ∷ str_tolower ext), str_tolower ext)
unfolding lower_extension
lower_extension_lem [] ext ne lacks = absurd (ne refl)
lower_extension_lem (x ∷ name) ext ne lacks =
    let e = get_filename_ext_lem (x ∷ name) ext lacks in
    let t = take_name (x ∷ name) ext in
    let d = drop_name (x ∷ name) ext in
    let a = append_assoc (x ∷ name) (b'.' ∷ []) (str_tolower ext) in ground (arith, e, t, d, a)
