-- ===== src/Tests/Strings.antt =====
-- Runs of the string handling of src/http.c and of the framing of src/parser/parse.c.
use simle_http_server.Prelude.{◌≡◌, refl, [], ◌∷◌, arith, ok, true, false}
use simle_http_server.Peer.{CString, CgiParam}
use simle_http_server.Text
use simle_http_server.Text.{
  codes, atoi, decimal, str_tolower, remove_redundancy_from_uri, strn_eq, starts_with, first_index,
  digits,
}
use simle_http_server.Path.{make_full_path}
use simle_http_server.Path.Files.{make_full_path_lem}
use simle_http_server.Cgi.{
  build_cgi_param, set_envp_field, set_envp_fields, values_of, get_header_value, find_header,
  split_uri, split_at, path_part, copy_part,
}
use simle_http_server.Cgi.Printed.{print_cgi_param-fits}
use simle_http_server.Log.Print.{print_cgi_param}
use simle_http_server.Cgi.Environment.{all_fields, field_texts, Fit, build_cgi_param_lem}
use simle_http_server.Tests.Data.{script_request}

not_absolute : starts_with (codes "http://") (codes "/a/") ≡ false
unfolding starts_with strn_eq
not_absolute = refl

make_full_path_lem_example :
    make_full_path (codes "www/") (codes "/../a/") ≡ ok (codes "www/../a", codes "/../a")
make_full_path_lem_example =
    make_full_path_lem (codes "www") (codes "../") b'a' true (omega arith) (omega arith)

script_fields-Fit :
    Fit (all_fields script_request (codes "127.0.0.1") 8080 (codes "a=1") (codes "/run"))
unfolding values_of get_header_value find_header Text.str_eq decimal digits
script_fields-Fit = ground arith

abbrev script_param : CgiParam
script_param = record {
  filename = codes "run.py";
  args = codes "run.py" ∷ [];
  envp =
      field_texts (all_fields script_request (codes "127.0.0.1") 8080 (codes "a=1") (codes "/run"));
}

build_cgi_param_lem_example :
    build_cgi_param (codes "run.py") script_request (codes "127.0.0.1") 8080 ≡ ok script_param
build_cgi_param_lem_example =
    build_cgi_param_lem (codes "run.py") script_request (codes "127.0.0.1") 8080 (codes "/cgi/run")
      (codes "a=1") refl (ground arith) (omega arith) (omega arith) (omega arith) script_fields-Fit

built : build_cgi_param (codes "run.py") script_request (codes "127.0.0.1") 8080 ≡ ok script_param
unfolding build_cgi_param set_envp_fields set_envp_field split_uri split_at path_part copy_part
    values_of get_header_value find_header first_index Text.str_eq decimal digits
built = refl

print_cgi_param-fits_example : (text : CString) × (print_cgi_param script_param ≡ ok text)
print_cgi_param-fits_example =
    print_cgi_param-fits (codes "run.py") script_request (codes "127.0.0.1") 8080 script_param built
      (omega arith)
