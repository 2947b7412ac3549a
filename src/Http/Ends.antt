-- ===== src/Http/Ends.antt =====
-- On termination, for the parts of src/http.c that make a script's environment and a file's path.
use simle_http_server.Prelude.{
  ℕ, ◌+◌, List, [], ◌∷◌, ◌++◌, arith, ◌==◌, if◌then◌else◌, Option, none, some, ◌≢◌, Outcome, ok,
  crash, out_of_fuel, Ran, ran, Safe-bind, Safe-if, Safe-of, undefined-Safe, ltb, length, drop,
}
use simle_http_server.Peer.{CString}
use simle_http_server.Parse.{Request}
use simle_http_server.Text.{
  codes, first_index, decimal, remove_redundancy_from_uri, requested_path_is_dir, starts_with, chop,
  last_byte,
}
use simle_http_server.Path.{fits_path, drop_last, make_full_path, begins_with_slash, index_file}
use simle_http_server.Cgi.{
  set_envp_field, set_envp_fields, copy_part, path_part, split_at, split_uri, build_cgi_param,
  first_fields, header_fields, values_of,
}

-- A run whose end is by its shape.
pub any : {A : Type 0} (m : Outcome A) → m ≢ crash out_of_fuel → Ran m
any m ends = Safe-of m ends (λ _ _. tt)

set_envp_fields-Ran :
    (fs : List (CString × CString)) (envp : List CString) → Ran (set_envp_fields fs envp)
unfolding set_envp_fields set_envp_field
set_envp_fields-Ran [] envp = ran envp
set_envp_fields-Ran ((name, value) ∷ fs) envp =
    Safe-bind _ {m = set_envp_field name value envp} (any _ (ground arith))
      (λ envp' _. set_envp_fields-Ran fs envp')

copy_part-Ran : (s : CString) → Ran (copy_part s)
unfolding copy_part
copy_part-Ran s = any _ (ground arith)

path_part-Ran : (s : CString) (n : ℕ) → Ran (path_part s n)
unfolding path_part
path_part-Ran s n = Safe-if {b = ltb n 4} (λ _. undefined-Safe) (λ _. copy_part-Ran _)

split_at-Ran : (uri : CString) (split : Option ℕ) → Ran (split_at uri split)
unfolding split_at
split_at-Ran uri none =
    Safe-bind _ {m = path_part uri (length uri)} (path_part-Ran uri (length uri)) (λ p _. ran _)
split_at-Ran uri (some split) =
    Safe-bind _ {m = copy_part (drop (split + 1) uri)} (copy_part-Ran _)
      (λ q _. Safe-bind _ {m = path_part uri split} (path_part-Ran uri split) (λ p _. ran _))

split_uri-Ran : (uri : CString) → Ran (split_uri uri)
unfolding split_uri
split_uri-Ran uri = split_at-Ran uri (first_index b'?' uri)

pub build_cgi_param-Ran :
    (scripts : CString) (r : Request) (host : CString) (port : ℕ)
    → Ran (build_cgi_param scripts r host port)
unfolding build_cgi_param
build_cgi_param-Ran scripts r host port =
    Safe-bind _ {m = set_envp_fields (first_fields r) []} (set_envp_fields-Ran (first_fields r) [])
      (λ e1 _. Safe-bind _ {m = split_uri r.http_uri} (split_uri-Ran _) (λ q _.
        Safe-bind _
          (set_envp_fields-Ran ((codes "QUERY_STRING", q.0) ∷ (codes "PATH_INFO", q.1) ∷ []) e1)
          (λ e2 _. Safe-bind _ (set_envp_fields-Ran (values_of r header_fields) e2) (λ e3 _.
            Safe-bind _
              (set_envp_fields-Ran
                ((codes "REMOTE_ADDR", host) ∷ (codes "SERVER_PORT", decimal port) ∷ []) e3)
              (λ e4 _. Safe-if {b = ltb (length e4) 22} (λ _. ran _) (λ _. undefined-Safe))))))

last_byte-Ran : (s : CString) → Ran (last_byte s)
unfolding last_byte
last_byte-Ran [] = undefined-Safe
last_byte-Ran (c ∷ s) = ran _

chop-Ran : (uri : CString) → Ran (chop uri 7)
unfolding chop
chop-Ran uri = ran _

remove_redundancy_from_uri-Ran : (uri : CString) → Ran (remove_redundancy_from_uri uri)
unfolding remove_redundancy_from_uri
remove_redundancy_from_uri-Ran uri =
    Safe-bind _ {m = if starts_with (codes "http://") uri then chop uri 7 else ok uri}
      (Safe-if {b = starts_with (codes "http://") uri} (λ _. chop-Ran uri) (λ _. ran _))
      (λ s _. Safe-bind _ {m = last_byte s} (last_byte-Ran s) (λ b _. ran _))

pub make_full_path-Ran : (www uri : CString) → Ran (make_full_path www uri)
unfolding make_full_path fits_path requested_path_is_dir drop_last
make_full_path-Ran www uri = Safe-bind _ {m = fits_path www} (any _ (ground arith)) (λ root _.
    Safe-bind _ {m = remove_redundancy_from_uri uri} (remove_redundancy_from_uri-Ran uri) (λ uri' _.
      Safe-bind _ {m = if begins_with_slash uri' then drop_last root else ok root}
        (Safe-if {b = begins_with_slash uri'}
          (λ _. Safe-bind _ {m = last_byte root} (last_byte-Ran root) (λ _ _. ran _)) (λ _. ran _))
        (λ base _. Safe-bind _ {m = fits_path (base ++ uri')} (any _ (ground arith)) (λ path _.
          Safe-bind _ {m = requested_path_is_dir path}
            (Safe-bind _ {m = last_byte path} (last_byte-Ran path) (λ _ _. ran _))
            (λ d _.
              Safe-bind _ {m = if d == 0 then ok path else fits_path (path ++ index_file)}
                (any _ (ground arith)) (λ full _. ran _))))))
