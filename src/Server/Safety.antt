-- ===== src/Server/Safety.antt =====
-- On termination and well-formedness, for a client's part of a round of src/server.c.
use simle_http_server.Prelude.{
  ℕ, ◌≡◌, refl, Bool, true, false, not, ◌&&◌, arith, Outcome, ◌==◌, int_eq, ◌⊎◌, inl, inr, Safe,
  Safe-bind, Safe-if,
}
use simle_http_server.Cbuf.{exit_success, exit_failure}
use simle_http_server.Task.{Ptr}
use simle_http_server.Peer.{Peer, no_socket, close_client_connection}
use simle_http_server.Parse.{Request}
use simle_http_server.Comm.{receive_from_peer, send_to_peer, echo_received_message}
use simle_http_server.Comm.Keeps.{
  OtherSending, OtherReceiving, send_to_peer-Safe, receive_from_peer-Safe,
}
use simle_http_server.Http.{World, close_conn_code, close_conn_immediately}
use simle_http_server.Http.Handle.{handle_http}
use simle_http_server.Http.Invariant.{PeerOk}
use simle_http_server.Http.Receiving.{Ends}
use simle_http_server.Http.Total.{handle_http-Ready}
use simle_http_server.Server.Client.{
  Events, Globals, site_of, serve_cgi, Stage, going, over, closing, serve_receive, serve_send,
  serve_except, serve_http, last_stage, then_stage, serve_client,
}
use simle_http_server.Server.Slot.{
  SlotOk, PeerOk-SlotOk, with_sending, with_receiving, slot_sending, slot_receiving,
  close_client_connection-Safe,
}
use simle_http_server.Server.Script.{serve_cgi-Safe}

-- What a stage leaves: if the handler is to be called, the peer is ready for it.
abbrev StageOk : Stage → Type 0
StageOk (going active p) = SlotOk p × (active ≡ true → PeerOk p)
StageOk (over p) = SlotOk p

closing-Safe : (p : Peer) → Safe StageOk (closing p)
closing-Safe p =
    Safe-bind SlotOk {m = close_client_connection p} (close_client_connection-Safe p)
      (λ q s. Safe.done _ s)

has_socket : (p : Peer) → SlotOk p → not (int_eq p.socket no_socket) ≡ true → PeerOk p
has_socket p s e = s.ready (ground arith)

serve_receive-Safe : (ev : Events) (p : Peer) → SlotOk p → Safe StageOk (serve_receive ev p)
unfolding serve_receive
serve_receive-Safe ev p s =
    Safe-if {b = not (int_eq p.socket no_socket)}
      (λ e.
        Safe-if {b = ev.readable p.socket}
          (λ _.
            Safe-bind (λ (ret, p'). OtherReceiving p p')
              {m = receive_from_peer p echo_received_message ev.recv}
              (receive_from_peer-Safe p echo_received_message ev.recv s.receiving)
              (λ r other.
                Safe-if {b = r.0 == exit_success}
                  (λ _. Safe.done _ (
                    slot_receiving p r.1 other s,
                    λ _. with_receiving p r.1 other (has_socket p s e),
                  ))
                  (λ _. closing-Safe r.1)))
          (λ _. Safe.done _ (s, λ _. has_socket p s e)))
      (λ e. Safe.done _ (s, λ f. cc))

and_left : (a b : Bool) → (a && b) ≡ true → a ≡ true
and_left true b e = refl
and_left false b e = e

serve_send-Safe :
    (ev : Events) (active : Bool) (p : Peer)
    → SlotOk p
    → (active ≡ true → PeerOk p)
    → Safe StageOk (serve_send ev active p)
unfolding serve_send
serve_send-Safe ev active p s ready =
    Safe-if {b = not (int_eq p.socket no_socket) && ev.writable p.socket}
      (λ e.
        Safe-bind (λ (ret, out, p'). OtherSending p p') {m = send_to_peer p ev.send}
          (send_to_peer-Safe p ev.send s.sending)
          (λ r other.
            Safe-if {b = r.0 == exit_failure} (λ _. closing-Safe r.2)
              (λ _. Safe.done _ (
                slot_sending p r.2 other s,
                λ _. with_sending p r.2 other (
                    has_socket p s
                      (and_left (not (int_eq p.socket no_socket)) (ev.writable p.socket) e)),
              ))))
      (λ _. Safe.done _ (s, ready))

serve_except-Safe :
    (ev : Events) (active : Bool) (p : Peer)
    → SlotOk p
    → (active ≡ true → PeerOk p)
    → Safe StageOk (serve_except ev active p)
unfolding serve_except
serve_except-Safe ev active p s ready =
    Safe-if {b = not (int_eq p.socket no_socket) && ev.excepted p.socket} (λ _. closing-Safe p)
      (λ _. Safe.done _ (s, ready))

abbrev pub WorldOk : World → Type 0
WorldOk w = SlotOk w.peer

still_open :
    (code : ℕ) (w : World)
    → (code ≡ close_conn_immediately) ⊎ PeerOk w.peer
    → (code == close_conn_immediately) ≡ false
    → PeerOk w.peer
still_open code w (inl e) n = absurd (ground arith)
still_open code w (inr k) n = k

marked : (p : Peer) → PeerOk p → SlotOk (record p { close_conn = true })
marked p (t, k) = PeerOk-SlotOk _ (
  t,
  record {
    task = k.task;
    receiving = k.receiving;
    sending = k.sending;
    response = k.response;
    header = k.header;
  },
)

serve_http-Safe :
    (g : Globals) (ev : Events) (request : Ptr Request) (active : Bool) (p : Peer)
    → Ends ev.site
    → SlotOk p
    → (active ≡ true → PeerOk p)
    → Safe WorldOk (serve_http g ev request active p)
unfolding serve_http
serve_http-Safe g ev request active p ends s ready =
    let w : World = record { request = request; peer = p } in
    Safe-if {b = active}
      (λ e.
        Safe-bind (λ r. (r.0 ≡ close_conn_immediately) ⊎ PeerOk r.1.peer)
          {m = handle_http (site_of g ev) ev.block w}
          (handle_http-Ready (site_of g ev) ev.block w ends (ready e))
          (λ r handled.
            Safe-if {b = r.0 == close_conn_immediately}
              (λ _.
                Safe-bind SlotOk {m = close_client_connection r.1.peer}
                  (close_client_connection-Safe r.1.peer) (λ q s'. Safe.done _ s'))
              (λ n.
                let k = still_open r.0 r.1 handled n in
                Safe-if {b = r.0 == close_conn_code} (λ _. Safe.done _ (marked r.1.peer k))
                  (λ _. Safe.done _ (PeerOk-SlotOk r.1.peer k)))))
      (λ _. Safe.done w s)

then_stage-Safe :
    (st : Stage) (next : Bool → Peer → Outcome Stage)
    → StageOk st
    → ((active : Bool) (p : Peer)
        → SlotOk p
        → (active ≡ true → PeerOk p)
        → Safe StageOk (next active p))
    → Safe StageOk (then_stage st next)
then_stage-Safe (going active p) next (s, ready) safe = safe active p s ready
then_stage-Safe (over p) next s safe = Safe.done _ s

last_stage-Safe :
    (g : Globals) (ev : Events) (w : World) (st : Stage)
    → Ends ev.site
    → StageOk st
    → Safe WorldOk (last_stage g ev w st)
unfolding last_stage
last_stage-Safe g ev w (going active p) ends (s, ready) =
    serve_http-Safe g ev w.request active p ends s ready
last_stage-Safe g ev w (over p) ends s = Safe.done _ s

-- A client's part of a round.
pub serve_client-Safe :
    (g : Globals) (ev : Events) (w : World)
    → Ends ev.site
    → SlotOk w.peer
    → Safe WorldOk (serve_client g ev w)
unfolding serve_client
serve_client-Safe g ev w ends s =
    Safe-bind SlotOk {m = serve_cgi ev w.peer} (serve_cgi-Safe ev w.peer s) (λ p s0.
      Safe-bind StageOk {m = serve_receive ev p} (serve_receive-Safe ev p s0) (λ s1 k1.
        Safe-bind StageOk {m = then_stage s1 (serve_send ev)}
          (then_stage-Safe s1 (serve_send ev) k1 (serve_send-Safe ev))
          (λ s2 k2.
            Safe-bind StageOk {m = then_stage s2 (serve_except ev)}
              (then_stage-Safe s2 (serve_except ev) k2 (serve_except-Safe ev))
              (λ s3 k3. last_stage-Safe g ev w s3 ends k3))))
