-- ===== src/Http/Shared.antt =====
-- The global `request` of src/http.c, which the handlers of all connections share: what one connection's
-- finished request does to another connection.
use simle_http_server.Prelude.{
  ℕ, suc, ◌+◌, ◌≡◌, refl, ap, ◌∙◌, true, arith, ◌≢◌, ok, crash, undefined,
}
use simle_http_server.Cbuf.{Cbuf}
use simle_http_server.Task.{
  live, freed, HttpTask, recv_body_state, send_body_state, finished_state, check_cgi,
  processing_cgi, get_method,
}
use simle_http_server.Peer.{Peer}
use simle_http_server.Parse.{Request}
use simle_http_server.Response.{stream_file_content, stream_file_done}
use simle_http_server.Site.{Site}
use simle_http_server.Http.{World, continue, with_task}
use simle_http_server.Http.Steps.{body_loop, recv_body_step, check_cgi_step, send_body_step}
use simle_http_server.Http.Handle.{
  step, free_request, finish, follow, handle_loop, handle_task, handle_http,
}

-- The global pointer after a request is finished.
finish-freed :
    (w w' : World) (t : HttpTask) (code : ℕ) (r : Request)
    → w.request ≡ live r
    → finish w t ≡ ok (code, w')
    → w'.request ≡ freed
unfolding finish free_request
finish-freed w w' t code r e done = ground (arith, e, done)

-- A round that goes on.
pub loop_round :
    (site : Site) (block : Cbuf) (fuel : ℕ) (w : World) (t : HttpTask) (w' : World)
    → w.peer.http_task ≡ live t
    → t.state ≢ finished_state
    → step site block w t ≡ ok (continue w')
    → handle_loop site block (suc fuel) w ≡ handle_loop site block fuel w'
unfolding handle_loop follow
loop_round site block fuel w t w' e n s = simp e (ground (arith, s))

loop_crash :
    (site : Site) (block : Cbuf) (fuel : ℕ) (w : World) (t : HttpTask)
    → w.peer.http_task ≡ live t
    → t.state ≢ finished_state
    → step site block w t ≡ crash undefined
    → handle_loop site block (suc fuel) w ≡ crash undefined
unfolding handle_loop
loop_crash site block fuel w t e n s = simp e (ground (arith, s))

-- The request that a script or a file is looked up for is gone.
check_cgi_freed :
    (site : Site) (block : Cbuf) (fuel : ℕ) (w : World) (t : HttpTask)
    → w.peer.http_task ≡ live t
    → t.state ≡ check_cgi
    → w.request ≡ freed
    → handle_loop site block (suc fuel) w ≡ crash undefined
unfolding step check_cgi_step
check_cgi_freed site block fuel w t e s gone =
    loop_crash site block fuel w t e (omega arith) (ground (arith, gone))

-- The request that is to be freed is gone.
finished_freed :
    (site : Site) (block : Cbuf) (fuel : ℕ) (w : World) (t : HttpTask)
    → w.peer.http_task ≡ live t
    → t.state ≡ finished_state
    → w.request ≡ freed
    → handle_loop site block (suc fuel) w ≡ crash undefined
unfolding handle_loop finish free_request
finished_freed site block fuel w t e s gone = simp e (ground (arith, gone))

pub handle_live :
    (site : Site) (block : Cbuf) (w : World) (t : HttpTask)
    → w.peer.http_task ≡ live t
    → t.state ≢ processing_cgi
    → handle_http site block w ≡ handle_loop site block 7 w
unfolding handle_http handle_task
handle_live site block w t e n = ap (handle_task site block w) e ∙ ground arith

-- One connection finishes a request, and in another one the body of a POST becomes complete, with no
-- request parsed in between: the second handler looks at the request that the first one freed.
pub request_freed_before_body :
    (site : Site) (block : Cbuf) (w w' : World) (t : HttpTask) (code : ℕ) (r : Request) (p : Peer)
    (t2 t3 : HttpTask) (c : Cbuf)
    → w.request ≡ live r
    → finish w t ≡ ok (code, w')
    → p.http_task ≡ live t2
    → t2.state ≡ recv_body_state
    → body_loop (p.receiving_buffer.num_byte + 1) t2 p.receiving_buffer ≡ ok (true, t3, c)
    → handle_http site block (record { request = w'.request; peer = p }) ≡ crash undefined
unfolding step recv_body_step
request_freed_before_body site block w w' t code r p t2 t3 c e done ep s body =
    let gone = finish-freed w w' t code r e done in
    let w2 : World = record { request = w'.request; peer = p } in
    let t4 = record t3 { state = check_cgi } in
    let w3 =
      with_task (record { request = w'.request; peer = record p { receiving_buffer = c } }) t4 in
    handle_live site block w2 t2 ep (omega arith)
    ∙ loop_round site block 6 w2 t2 w3 ep (omega arith) (ground (arith, body))
    ∙ check_cgi_freed site block 5 w3 t4 refl refl gone

-- One connection finishes a request, and in another one the sending of a file becomes complete, with
-- no request parsed in between: the request is freed a second time.
pub request_freed_twice :
    (site : Site) (block : Cbuf) (w w' : World) (t : HttpTask) (code : ℕ) (r : Request)
    (p p' : Peer) (t2 t3 : HttpTask)
    → w.request ≡ live r
    → finish w t ≡ ok (code, w')
    → p.http_task ≡ live t2
    → t2.state ≡ send_body_state
    → t2.method_type ≡ get_method
    → stream_file_content p ≡ ok (stream_file_done, p')
    → p'.http_task ≡ live t3
    → handle_http site block (record { request = w'.request; peer = p }) ≡ crash undefined
unfolding step send_body_step
request_freed_twice site block w w' t code r p p' t2 t3 e done ep s m sent e' =
    let gone = finish-freed w w' t code r e done in
    let w2 : World = record { request = w'.request; peer = p } in
    let t4 = record t3 { state = finished_state } in
    let w3 = with_task (record { request = w'.request; peer = p' }) t4 in
    handle_live site block w2 t2 ep (omega arith)
    ∙ loop_round site block 6 w2 t2 w3 ep (omega arith) (ground (arith, m, sent, e'))
    ∙ finished_freed site block 5 w3 t4 refl refl gone
