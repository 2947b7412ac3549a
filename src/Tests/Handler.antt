-- ===== src/Tests/Handler.antt =====
-- Runs of `handle_http` of src/http.c.
use simle_http_server.Prelude.{ℕ, ◌≡◌, refl, ◌⊎◌, ◌≢◌, Outcome, ok, crash, out_of_fuel}
use simle_http_server.Task.{live, null, HttpTask, processing_cgi}
use simle_http_server.Text
use simle_http_server.Cgi
use simle_http_server.Http.{World, close_conn_code, close_conn_immediately}
use simle_http_server.Http.Steps
use simle_http_server.Http.Handle
use simle_http_server.Http.Handle.{handle_http}
use simle_http_server.Http.Invariant.{PeerOk}
use simle_http_server.Http.Total.{handle_http_total, handle_http_close}
use simle_http_server.Tests.Data.{
  no_bytes, new_task, script_task, peer_of, script_request, some_site, some_site-Ends,
  new_peer-PeerOk, script_peer-PeerOk,
}

abbrev new_world : World
new_world = record { request = null; peer = peer_of new_task }

-- A request for a script, with `Connection: Close` seen.
abbrev script_world : World
script_world = record { request = live script_request; peer = peer_of script_task }

handle_http_total_example :
    (handle_http some_site no_bytes new_world ≢ crash out_of_fuel)
    × ((code : ℕ) (w' : World)
        → handle_http some_site no_bytes new_world ≡ ok (code, w')
        → (code ≡ close_conn_immediately) ⊎ PeerOk w'.peer)
handle_http_total_example =
    handle_http_total some_site no_bytes new_world some_site-Ends new_peer-PeerOk

abbrev world_of : Outcome (ℕ × World) → World
world_of (ok (code, w)) = w
world_of (crash f) = new_world

abbrev script_result : World
script_result = world_of (handle_http some_site no_bytes script_world)

started : handle_http some_site no_bytes script_world ≡ ok (close_conn_code, script_result)
unfolding handle_http Handle.handle_task Handle.handle_loop Handle.follow Handle.step
    Steps.check_cgi_step Steps.is_cgi_uri Steps.run_cgi Steps.script_body Text.str_eq
    Text.first_index Text.decimal Text.digits Cgi.build_cgi_param Cgi.set_envp_fields
    Cgi.set_envp_field Cgi.split_uri Cgi.split_at Cgi.path_part Cgi.copy_part Cgi.values_of
    Cgi.get_header_value Cgi.find_header Cgi.start_cgi_script Cgi.body_buffer
started = refl

handle_http_close_example :
    (t : HttpTask) × (script_result.peer.http_task ≡ live t) × (t.state ≡ processing_cgi)
handle_http_close_example =
    handle_http_close some_site no_bytes script_world script_result some_site-Ends
      script_peer-PeerOk started
