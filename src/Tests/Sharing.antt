-- ===== src/Tests/Sharing.antt =====
-- Runs of `handle_http` of src/http.c for two connections that share the global `request`.
use simle_http_server.Prelude.{◌≡◌, refl, true, ok, crash, undefined}
use simle_http_server.Cbuf.{buf_available, buf_full, buf_put}
use simle_http_server.Task.{
  live, freed, HttpTask, reset_http_task, recv_body_state, send_body_state, finished_state,
  get_method,
}
use simle_http_server.Peer.{Peer}
use simle_http_server.Response.{stream_file_content, stream_loop, stream_file_done}
use simle_http_server.Http.{World, with_task, keep_conn}
use simle_http_server.Http.Steps.{body_loop}
use simle_http_server.Http.Handle.{free_request, finish, handle_http}
use simle_http_server.Http.Shared.{request_freed_before_body, request_freed_twice}
use simle_http_server.Tests.Data.{
  no_bytes, two_bytes, new_task, peer_of, script_request, some_site, some_file,
}

-- A connection with a finished request, and the world after it.
abbrev done_task : HttpTask
done_task = record new_task { state = finished_state }

abbrev done_world : World
done_world = record { request = live script_request; peer = peer_of done_task }

abbrev world_after : World
world_after = with_task (record done_world { request = freed }) (reset_http_task done_task)

finishes : finish done_world done_task ≡ ok (keep_conn, world_after)
unfolding finish free_request reset_http_task
finishes = refl

-- Another connection whose body is complete.
abbrev body_task : HttpTask
body_task = record new_task { state = recv_body_state }

completes : body_loop 3 body_task two_bytes ≡ ok (true, body_task, two_bytes)
unfolding body_loop
completes = refl

request_freed_before_body_example :
    handle_http some_site no_bytes
      (record { request = world_after.request; peer = peer_of body_task })
    ≡ crash undefined
request_freed_before_body_example =
    request_freed_before_body some_site no_bytes done_world world_after done_task keep_conn
      script_request (peer_of body_task) body_task body_task two_bytes refl finishes refl refl
      completes

-- Another connection whose file ends.
abbrev file_task : HttpTask
file_task = record new_task {
  state = send_body_state;
  method_type = get_method;
  fp = live some_file;
}

abbrev file_task_after : HttpTask
file_task_after = record file_task { fp = freed }

abbrev file_peer_after : Peer
file_peer_after = record (peer_of file_task) {
  http_task = live file_task_after;
  sending_buffer = (buf_put (buf_put (buf_put no_bytes 1).1 2).1 255).1;
}

streams : stream_file_content (peer_of file_task) ≡ ok (stream_file_done, file_peer_after)
unfolding stream_file_content stream_loop buf_available buf_full buf_put
streams = refl

request_freed_twice_example :
    handle_http some_site no_bytes
      (record { request = world_after.request; peer = peer_of file_task })
    ≡ crash undefined
request_freed_twice_example =
    request_freed_twice some_site no_bytes done_world world_after done_task keep_conn script_request
      (peer_of file_task) file_peer_after file_task file_task_after refl finishes refl refl refl
      streams refl
