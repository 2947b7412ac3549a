-- ===== src/Http/Handle.antt =====
-- The loop of `handle_http` (src/http.c), and what it does when a request is finished.
use simle_http_server.Prelude.{
  ℕ, zero, suc, Outcome, ok, crash, undefined, exited, out_of_fuel, ◌>>=◌, ◌==◌, if◌then◌else◌,
}
use simle_http_server.Cbuf.{Cbuf}
use simle_http_server.Task.{
  Ptr, live, freed, null, deref, HttpTask, reset_http_task, recv_header_state, recv_body_state,
  generate_header_state, send_header_state, send_body_state, finished_state, check_cgi,
  processing_cgi,
}
use simle_http_server.Parse.{Request}
use simle_http_server.Site.{Site}
use simle_http_server.Http.{World, Flow, continue, return, with_task, keep_conn, close_conn_code}
use simle_http_server.Http.Steps.{
  recv_header_step, recv_body_step, generate_header_step, send_header_step, check_cgi_step,
  send_body_step,
}

-- The `if` ladder of the loop, for a task that is not finished.
unfoldable pub step : Site → Cbuf → World → HttpTask → Outcome Flow
step site block w t =
    if t.state == recv_header_state
    then recv_header_step site w t
    else if t.state == recv_body_state
    then recv_body_step w t
    else if t.state == generate_header_state
    then generate_header_step w t
    else if t.state == send_header_state
    then send_header_step w t
    else if t.state == check_cgi
    then check_cgi_step site block w t
    else if t.state == send_body_state
    then send_body_step w t
    else crash exited

-- `free_request`: what becomes of the global pointer.
unfoldable pub free_request : Ptr Request → Outcome (Ptr Request)
free_request null = ok null
free_request (live r) = ok freed
free_request freed = crash undefined

-- After the loop. The task is reset before its `last_request` is read.
unfoldable pub finish : World → HttpTask → Outcome (ℕ × World)
unfolding free_request
finish w t = do
  request ← free_request w.request
  let t' = reset_http_task t
  ok (
    (if t'.last_request then close_conn_code else keep_conn),
    with_task (record w { request = request }) t',
  )

-- What a round says, with the loop that would go on.
unfoldable pub follow : (World → Outcome (ℕ × World)) → Flow → Outcome (ℕ × World)
follow loop (continue w) = loop w
follow loop (return code w) = ok (code, w)

-- The loop, with fuel.
unfoldable pub handle_loop : Site → Cbuf → ℕ → World → Outcome (ℕ × World)
unfolding follow
handle_loop site block zero w = crash out_of_fuel
handle_loop site block (suc fuel) w = do
  t ← deref w.peer.http_task
  let go = handle_loop site block fuel
  (if t.state == finished_state
      then finish w t
      else (do flow ← step site block w t; follow go flow))

-- No request takes more than six rounds, and one more to see that it is finished.
abbrev pub rounds : ℕ
rounds = 7

-- The tests before the loop, for the pointer to the task.
unfoldable pub handle_task : Site → Cbuf → World → Ptr HttpTask → Outcome (ℕ × World)
handle_task site block w null = crash exited
handle_task site block w freed = crash undefined
handle_task site block w (live t) =
    if t.state == processing_cgi then ok (keep_conn, w) else handle_loop site block rounds w

unfoldable pub handle_http : Site → Cbuf → World → Outcome (ℕ × World)
unfolding handle_task
handle_http site block w = handle_task site block w w.peer.http_task
