-- ===== src/Http/Total.antt =====
-- On termination and well-formedness, for `handle_http` of src/http.c as a whole.
use mathlib.Core.Path.{subst}
use simle_http_server.Prelude.{
  ℕ, zero, suc, ◌<◌, ◌≡◌, refl, sym, ap, arith, ◌==◌, if◌then◌else◌, ◌⊎◌, inl, inr, ◌≢◌, Outcome,
  ok, crash, out_of_fuel, ◌>>=◌, Safe, Ran, ran, Safe-bind, Safe-if, Safe-ok, Safe-ends, ==→eq,
  undefined-Safe, exited-Safe,
}
use simle_http_server.Cbuf.{Cbuf}
use simle_http_server.Task.{
  Ptr, live, null, freed, deref, HttpTask, reset_http_task, recv_header_state, recv_body_state,
  generate_header_state, send_header_state, send_body_state, finished_state, check_cgi,
  processing_cgi,
}
use simle_http_server.Parse.{Request}
use simle_http_server.Site.{Site}
use simle_http_server.Http.Fresh.{reset_task-TaskOk}
use simle_http_server.Http.{
  World, Flow, continue, return, with_task, keep_conn, close_conn_immediately, close_conn_code,
}
use simle_http_server.Http.Handle.{
  step, free_request, finish, follow, handle_loop, handle_task, handle_http, rounds,
}
use simle_http_server.Http.Diagram.{rank, ⟶-rank}
use simle_http_server.Http.Invariant.{TaskOk, PeerOk, Handled, Goes}
use simle_http_server.Http.Receiving.{Ends, recv_header_step-Goes}
use simle_http_server.Http.Body.{recv_body_step-Goes}
use simle_http_server.Http.Writing.{generate_header_step-Goes}
use simle_http_server.Http.Sending.{send_header_step-Goes, send_body_step-Goes}
use simle_http_server.Http.Checking.{check_cgi_step-Goes}

-- What a round does, by the state that it starts in.
pub step-Goes :
    (site : Site) (block : Cbuf) (w : World) (t : HttpTask)
    → Ends site
    → TaskOk w.peer t
    → Safe (Goes t.state) (step site block w t)
unfolding step
step-Goes site block w t ends k =
    Safe-if {b = t.state == recv_header_state}
      (λ e. at (==→eq _ _ e) (recv_header_step-Goes site w t ends k (==→eq _ _ e)))
      (λ n0.
        Safe-if {b = t.state == recv_body_state}
          (λ e. at (==→eq _ _ e) (recv_body_step-Goes w t k (==→eq _ _ e)))
          (λ n1.
            Safe-if {b = t.state == generate_header_state}
              (λ e. at (==→eq _ _ e) (generate_header_step-Goes w t k))
              (λ n2.
                Safe-if {b = t.state == send_header_state}
                  (λ e. at (==→eq _ _ e) (send_header_step-Goes w t k (==→eq _ _ e)))
                  (λ n3.
                    Safe-if {b = t.state == check_cgi}
                      (λ e. at (==→eq _ _ e) (check_cgi_step-Goes site block w t k))
                      (λ n4.
                        Safe-if {b = t.state == send_body_state}
                          (λ e. at (==→eq _ _ e) (send_body_step-Goes w t k (==→eq _ _ e)))
                          (λ n5. exited-Safe))))))
  where
    at : {s : ℕ} {m : Outcome Flow} → t.state ≡ s → Safe (Goes s) m → Safe (Goes t.state) m
    at e safe = rw e safe

keeps :
    (t : HttpTask)
    → (if (reset_http_task t).last_request then close_conn_code else keep_conn) ≡ close_conn_code
    → (reset_http_task t).state ≡ processing_cgi
unfolding reset_http_task
keeps t e = absurd (omega arith)

finish-Handled : (w : World) (t : HttpTask) → TaskOk w.peer t → Safe Handled (finish w t)
unfolding finish
finish-Handled w t k = Safe-bind _ {m = free_request w.request} (free_request-Ran w.request) (λ r _.
    Safe.done _ (
      inr (
        reset_http_task t,
        reset_task-TaskOk (with_task w (reset_http_task t)).peer t refl k.receiving k.sending,
        keeps t,
      )))
  where
    free_request-Ran : (r : Ptr Request) → Ran (free_request r)
    free_request-Ran null = ran _
    free_request-Ran (live r) = ran _
    free_request-Ran freed = undefined-Safe

deref-live :
    (w : World) (t : HttpTask)
    → w.peer.http_task ≡ live t
    → Safe (λ t'. t' ≡ t) (deref w.peer.http_task)
deref-live w t e = rw e (Safe.done t refl)

-- One turn of the loop, with a loop to follow that is as it should be for fewer rounds.
turn-Handled :
    (site : Site) (block : Cbuf) (w : World) (t : HttpTask) (loop : World → Outcome (ℕ × World))
    → Ends site
    → TaskOk w.peer t
    → ((w' : World) (t' : HttpTask)
        → TaskOk w'.peer t'
        → rank t'.state < rank t.state
        → Safe Handled (loop w'))
    → Safe Handled
        (if t.state == finished_state then finish w t else (step site block w t >>= follow loop))
unfolding follow
turn-Handled site block w t loop ends k next =
    Safe-if {b = t.state == finished_state} (λ _. finish-Handled w t k)
      (λ _. Safe-bind (Goes t.state) {m = step site block w t} (step-Goes site block w t ends k) go)
  where
    go : (flow : Flow) → Goes t.state flow → Safe Handled (follow loop flow)
    go (continue w') (t', k', edge) = next w' t' k' (⟶-rank edge)
    go (return code w') r = Safe.done _ r

-- The loop, with more fuel than rounds that can follow.
handle_loop-Handled :
    (site : Site) (block : Cbuf) (fuel : ℕ) (w : World) (t : HttpTask)
    → Ends site
    → TaskOk w.peer t
    → rank t.state < fuel
    → Safe Handled (handle_loop site block fuel w)
unfolding handle_loop
handle_loop-Handled site block zero w t ends k less = absurd (omega arith)
handle_loop-Handled site block (suc fuel) w t ends k less =
    Safe-bind (λ t'. t' ≡ t) {m = deref w.peer.http_task} (deref-live w t k.task)
      (λ t0 same.
        turn-Handled site block w t0 (handle_loop site block fuel) ends
          (subst (TaskOk w.peer) (sym same) k)
          (λ w' t' k' less'.
            let r : rank t0.state ≡ rank t.state = ap (λ x. rank x.state) same in
            handle_loop-Handled site block fuel w' t' ends k' (omega (arith, r))))

handle_http-Handled :
    (site : Site) (block : Cbuf) (w : World)
    → Ends site
    → PeerOk w.peer
    → Safe Handled (handle_http site block w)
unfolding handle_http handle_task
handle_http-Handled site block w ends (t, k) =
    subst (λ q. Safe Handled (handle_task site block w q)) (sym k.task)
      (Safe-if {b = t.state == processing_cgi}
        (λ _. Safe.done _ (inr (t, k, λ e. absurd (omega arith))))
        (λ _. handle_loop-Handled site block rounds w t ends k (ground arith)))

ready : (r : ℕ × World) → Handled r → (r.0 ≡ close_conn_immediately) ⊎ PeerOk r.1.peer
ready r (inl e) = inl e
ready r (inr (t, k, close)) = inr (t, k)

Safe-ready :
    (m : Outcome (ℕ × World))
    → Safe Handled m
    → Safe (λ r. (r.0 ≡ close_conn_immediately) ⊎ PeerOk r.1.peer) m
Safe-ready m (Safe.done r h) = Safe.done r (ready r h)
Safe-ready m (Safe.fault f n) = Safe.fault f n

pub handle_http-Ready :
    (site : Site) (block : Cbuf) (w : World)
    → Ends site
    → PeerOk w.peer
    → Safe (λ r. (r.0 ≡ close_conn_immediately) ⊎ PeerOk r.1.peer) (handle_http site block w)
handle_http-Ready site block w ends k = Safe-ready _ (handle_http-Handled site block w ends k)

-- For a well-formed peer and a parser that ends, the loop of `handle_http` ends within seven rounds, and
-- so does each loop that a round runs: the call returns, or the process stops at an assert, at a call
-- of exit or at undefined behaviour. When it returns anything but CLOSE_CONN_IMMEDIATELY the peer is
-- well formed again.
pub handle_http_total :
    (site : Site) (block : Cbuf) (w : World)
    → Ends site
    → PeerOk w.peer
    → (handle_http site block w ≢ crash out_of_fuel)
      × ((code : ℕ) (w' : World)
          → handle_http site block w ≡ ok (code, w')
          → (code ≡ close_conn_immediately) ⊎ PeerOk w'.peer)
handle_http_total site block w ends k =
    let safe = handle_http-Handled site block w ends k in
    (Safe-ends safe, λ code w' e. ready (code, w') (Safe-ok (code, w') safe e))

-- For a well-formed peer and a parser that ends, `handle_http` returns CLOSE_CONN only when it has
-- started a script: the task is then in the state PROCESSING_CGI. A request for a file or with an
-- error never closes the connection so, also not with the header `Connection: Close`.
pub handle_http_close :
    (site : Site) (block : Cbuf) (w w' : World)
    → Ends site
    → PeerOk w.peer
    → handle_http site block w ≡ ok (close_conn_code, w')
    → (t : HttpTask) × (w'.peer.http_task ≡ live t) × (t.state ≡ processing_cgi)
handle_http_close site block w w' ends k e =
    script (close_conn_code, w')
      (Safe-ok (close_conn_code, w') (handle_http-Handled site block w ends k) e) refl
  where
    script :
        (r : ℕ × World)
        → Handled r
        → r.0 ≡ close_conn_code
        → (t : HttpTask) × (r.1.peer.http_task ≡ live t) × (t.state ≡ processing_cgi)
    script r (inl e) zero_code = absurd (omega arith)
    script r (inr (t, k, close)) zero_code = (t, k.task, close zero_code)
