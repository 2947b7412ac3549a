-- ===== src/Path.antt =====
-- `make_full_path` of src/http.c: the file that a request asks for.
pub mod Files
pub mod Stat
pub mod Dates
use simle_http_server.Prelude.{
  ℕ, zero, suc, ◌+◌, ◌-◌, List, [], ◌∷◌, ◌++◌, Bool, true, false, Option, none, some, Outcome, ok,
  crash, undefined, ◌>>=◌, ◌>>◌, ◌==◌, ltb, if◌then◌else◌, length, take, drop, assert,
}
use simle_http_server.Peer.{CString}
use simle_http_server.Text.{
  codes, remove_redundancy_from_uri, requested_path_is_dir, get_filename_ext, str_tolower,
  last_byte,
}

-- A write of a string to the array `fullpath` of 4096 bytes.
unfoldable pub fits_path : CString → Outcome CString
fits_path s = if ltb (length s) 4096 then ok s else crash undefined

abbrev pub index_file : CString
index_file = codes "Index.html"

abbrev pub begins_with_slash : CString → Bool
begins_with_slash [] = false
begins_with_slash (c ∷ s) = c == b'/'

-- `full_path[strlen(full_path) - 1] = 0`
unfoldable pub drop_last : CString → Outcome CString
unfolding last_byte
drop_last s = do _ ← last_byte s; ok (take (length s - 1) s)

-- The full path, and the URI of the request as it is left. The code reads and changes the URI of the
-- global request, which at the one call is the argument `uri`.
unfoldable pub make_full_path : CString → CString → Outcome (CString × CString)
unfolding fits_path drop_last
make_full_path www_dir uri = do
  root ← fits_path www_dir
  uri' ← remove_redundancy_from_uri uri
  base ← if begins_with_slash uri' then drop_last root else ok root
  path ← fits_path (base ++ uri')
  is_dir ← requested_path_is_dir path
  full ← if is_dir == 0 then ok path else fits_path (path ++ index_file)
  ok (full, uri')

-- `extension = get_filename_ext(fullpath); str_tolower(extension);` the extension is a part of
-- `fullpath`, which changes with it. The results are the path as it is left and the extension.
unfoldable pub lower_extension : CString → CString × CString
lower_extension path = elim (get_filename_ext path) [
  | none ↦ (path, [])
  | some i ↦ (take i path ++ str_tolower (drop i path), str_tolower (drop i path))
]
