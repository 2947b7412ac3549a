-- ===== src/Server/Script.antt =====
-- On termination and well-formedness, for the part of a round in src/server.c that serves a
-- connection's script.
use simle_http_server.Prelude.{
  ℕ, List, [], not, arith, Outcome, ok, ◌==◌, if◌then◌else◌, Safe, Ran, Safe-bind, Safe-if, Safe-of,
}
use simle_http_server.Cbuf.{exit_success, exit_failure}
use simle_http_server.Task.{Ptr, deref, is_null}
use simle_http_server.Peer.{Peer}
use simle_http_server.Comm.{send_to_cgi_process, pipe_from_cgi_process_to_client}
use simle_http_server.Comm.Keeps.{
  OtherExecutor, Piped, send_to_cgi_process-Safe, pipe_from_cgi_process_to_client-Safe,
}
use simle_http_server.Server.{close_if}
use simle_http_server.Server.Client.{Events, serve_cgi}
use simle_http_server.Server.Slot.{SlotOk, slot_executor, slot-Piped, close_if-Safe}

deref-Ran : {A : Type 0} (q : Ptr A) → Ran (deref q)
deref-Ran q = Safe-of (deref q) (ground arith) (λ _ _. tt)

wrote :
    (p : Peer) (ev : Events)
    → SlotOk p
    → Safe (λ (ret, out, p'). SlotOk p') (send_to_cgi_process p ev.cgi_write)
wrote p ev s = go (send_to_cgi_process-Safe p ev.cgi_write)
  where
    go :
        {m : Outcome (ℕ × List ℕ × Peer)}
        → Safe (λ (ret, out, p'). OtherExecutor p p') m
        → Safe (λ (ret, out, p'). SlotOk p') m
    go (Safe.done (ret, out, p') other) = Safe.done _ (slot_executor p p' other s)
    go (Safe.fault f n) = Safe.fault f n

piped :
    (p : Peer) (ev : Events)
    → SlotOk p
    → Safe (λ (ret, p'). SlotOk p') (pipe_from_cgi_process_to_client p ev.cgi_read)
piped p ev s = go (pipe_from_cgi_process_to_client-Safe p ev.cgi_read s.sending)
  where
    go :
        {m : Outcome (ℕ × Peer)}
        → Safe (λ (ret, p'). Piped p p') m
        → Safe (λ (ret, p'). SlotOk p') m
    go (Safe.done (ret, p') other) = Safe.done _ (slot-Piped p p' other s)
    go (Safe.fault f n) = Safe.fault f n

pub serve_cgi-Safe : (ev : Events) (p : Peer) → SlotOk p → Safe SlotOk (serve_cgi ev p)
unfolding serve_cgi
serve_cgi-Safe ev p s =
    Safe-if {b = not (is_null p.cgi_executor)}
      (λ _. Safe-bind _ {m = deref p.cgi_executor} (deref-Ran p.cgi_executor) (λ e _.
        Safe-bind (λ (ret, out, p'). SlotOk p')
          {m = if ev.writable e.stdin_pipe
            then send_to_cgi_process p ev.cgi_write
            else ok (exit_success, [], p)}
          (Safe-if {b = ev.writable e.stdin_pipe} (λ _. wrote p ev s) (λ _. Safe.done _ s))
          (λ r s1.
            Safe-bind SlotOk {m = close_if (r.0 == exit_failure) r.2} (close_if-Safe _ r.2 s1)
              (λ p2 s2. Safe-bind _ {m = deref p2.cgi_executor} (deref-Ran p2.cgi_executor) (λ e' _.
                Safe-bind (λ (ret, p'). SlotOk p')
                  {m = if ev.readable e'.stdout_pipe
                    then pipe_from_cgi_process_to_client p2 ev.cgi_read
                    else ok (exit_success, p2)}
                  (Safe-if {b = ev.readable e'.stdout_pipe} (λ _. piped p2 ev s2)
                    (λ _. Safe.done _ s2))
                  (λ q s3. close_if-Safe (q.0 == exit_failure) q.1 s3))))))
      (λ _. Safe.done p s)
