-- ===== src/Tests/Files.antt =====
-- A run of `handle_http` of src/http.c for a file.
use simle_http_server.Prelude.{◌<◌, ◌≡◌, refl, arith, true, false, some, ok, length}
use simle_http_server.Task.{live, HttpTask, check_cgi, get_method}
use simle_http_server.Parse.{Request}
use simle_http_server.Text
use simle_http_server.Text.{codes, decimal}
use simle_http_server.Path
use simle_http_server.Path.{make_full_path, lower_extension}
use simle_http_server.Site.{Site}
use simle_http_server.Http.{World}
use simle_http_server.Http.Steps.{is_cgi_uri}
use simle_http_server.Http.GetRounds.{Served}
use simle_http_server.Tests.Data.{new_task, peer_of, script_request, some_site, some_file}

abbrev pub file_site : Site
file_site = record some_site { access = λ _. true; fopen = λ _. some some_file; file_len = λ _. 2 }

abbrev pub file_request : Request
file_request = record script_request { http_uri = codes "/a.HTML" }

abbrev asking_task : HttpTask
asking_task = record new_task { state = check_cgi; method_type = get_method }

abbrev asking : World
asking = record { request = live file_request; peer = peer_of asking_task }

pub static_uri : is_cgi_uri (codes "/a.HTML") ≡ false
unfolding is_cgi_uri Text.str_eq
static_uri = refl

pub file_path :
    make_full_path (codes "www/") (codes "/a.HTML") ≡ ok (codes "www/a.HTML", codes "/a.HTML")
unfolding make_full_path Path.fits_path Path.drop_last Text.remove_redundancy_from_uri
    Text.starts_with Text.strn_eq Text.last_byte Text.requested_path_is_dir
file_path = refl

pub file_lowered : (lower_extension (codes "www/a.HTML")).0 ≡ codes "www/a.html"
unfolding lower_extension Text.get_filename_ext Text.last_index Text.str_tolower Text.to_lower
file_lowered = refl

pub two_digits : length (decimal 2) < 16
unfolding decimal Text.digits
two_digits = omega arith

abbrev pub file_served : Served file_site file_request (codes "www/a.html") some_file
file_served = record {
  static = static_uri;
  full = codes "www/a.HTML";
  uri = codes "/a.HTML";
  resolved = file_path;
  access = refl;
  lowered = file_lowered;
  opened = refl;
  reads = refl;
  digits_fit = two_digits;
}
