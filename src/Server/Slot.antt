-- ===== src/Server/Slot.antt =====
-- The well-formedness of a connection in the table of src/server.c, and the closing of one.
use mathlib.Core.Path.{subst}
use simle_http_server.Prelude.{
  ◌≡◌, refl, sym, Bool, true, false, arith, ◌≢◌, inl, inr, Safe, Ran, Safe-bind, Safe-of,
}
use simle_http_server.Cbuf.Valid.{IsValid, buf_reset-IsValid}
use simle_http_server.Task.{Ptr, null, live, HttpTask, finished_state, destroy_http_task}
use simle_http_server.Peer.{
  Peer, CgiExecutor, no_socket, free_cgi_executor, close_client_connection, reset_sending_buff,
  reset_receiving_buff,
}
use simle_http_server.Comm.Keeps.{OtherSending, OtherReceiving, OtherExecutor, Piped}
use simle_http_server.Http.Invariant.{PeerOk}
use simle_http_server.Server.{close_if}

-- A slot of the table: its buffers are well formed, and if it has a socket it is ready for the handler.
pub record SlotOk (p : Peer) : Type 0 where
  pub receiving : IsValid p.receiving_buffer
  pub sending : IsValid p.sending_buffer
  pub ready : p.socket ≢ no_socket → PeerOk p

pub PeerOk-SlotOk : (p : Peer) → PeerOk p → SlotOk p
PeerOk-SlotOk p (t, k) = record {
  receiving = k.receiving;
  sending = k.sending;
  ready = λ _. (t, k);
}

pub with_sending : (p p' : Peer) → OtherSending p p' → PeerOk p → PeerOk p'
with_sending p p' (c, same, v) (t, k) = subst PeerOk (sym same) (
  t,
  record {
    task = k.task;
    receiving = k.receiving;
    sending = v;
    response = k.response;
    header = k.header;
  },
)

pub with_receiving : (p p' : Peer) → OtherReceiving p p' → PeerOk p → PeerOk p'
with_receiving p p' (c, same, v) (t, k) = subst PeerOk (sym same) (
  t,
  record {
    task = k.task;
    receiving = v;
    sending = k.sending;
    response = k.response;
    header = k.header;
  },
)

pub with_executor : (p p' : Peer) → OtherExecutor p p' → PeerOk p → PeerOk p'
with_executor p p' (e, same) (t, k) = subst PeerOk (sym same) (
  t,
  record {
    task = k.task;
    receiving = k.receiving;
    sending = k.sending;
    response = k.response;
    header = k.header;
  },
)

pub slot_sending : (p p' : Peer) → OtherSending p p' → SlotOk p → SlotOk p'
slot_sending p p' (c, same, v) s = subst SlotOk (sym same) (record {
  receiving = s.receiving;
  sending = v;
  ready = λ n. with_sending p _ (c, refl, v) (s.ready n);
})

pub slot_receiving : (p p' : Peer) → OtherReceiving p p' → SlotOk p → SlotOk p'
slot_receiving p p' (c, same, v) s = subst SlotOk (sym same) (record {
  receiving = v;
  sending = s.sending;
  ready = λ n. with_receiving p _ (c, refl, v) (s.ready n);
})

pub slot_executor : (p p' : Peer) → OtherExecutor p p' → SlotOk p → SlotOk p'
slot_executor p p' (e, same) s = subst SlotOk (sym same) (record {
  receiving = s.receiving;
  sending = s.sending;
  ready = λ n. with_executor p _ (e, refl) (s.ready n);
})

finished_peer :
    (p : Peer) (t : HttpTask)
    → p.http_task ≡ live t
    → PeerOk p
    → PeerOk
        (record p { http_task = live (record t { state = finished_state }); cgi_executor = null })
finished_peer p t e (t0, k) =
    let same : t0 ≡ t = ground (arith, e, k.task) in
    (
      record t { state = finished_state },
      record {
        task = refl;
        receiving = k.receiving;
        sending = k.sending;
        response = subst (λ x. IsValid x.response_buf) same k.response;
        header = λ h. absurd (omega arith);
      },
    )

pub slot-Piped : (p p' : Peer) → Piped p p' → SlotOk p → SlotOk p'
slot-Piped p p' (inl other) s = slot_sending p p' other s
slot-Piped p p' (inr (t, e, same)) s = subst SlotOk (sym same) (record {
  receiving = s.receiving;
  sending = s.sending;
  ready = λ n. finished_peer p t e (s.ready n);
})

destroy_http_task-Ran : (t : Ptr HttpTask) → Ran (destroy_http_task t)
unfolding destroy_http_task
destroy_http_task-Ran t = Safe-of (destroy_http_task t) (ground arith) (λ _ _. tt)

free_cgi_executor-Ran : (e : Ptr CgiExecutor) → Ran (free_cgi_executor e)
unfolding free_cgi_executor
free_cgi_executor-Ran e = Safe-of (free_cgi_executor e) (ground arith) (λ _ _. tt)

-- After it is closed, whatever it was, a slot is as a slot should be.
pub close_client_connection-Safe : (p : Peer) → Safe SlotOk (close_client_connection p)
unfolding close_client_connection reset_sending_buff reset_receiving_buff
close_client_connection-Safe p =
    Safe-bind _ {m = destroy_http_task p.http_task} (destroy_http_task-Ran p.http_task) (λ t _.
      Safe-bind _ {m = free_cgi_executor p.cgi_executor} (free_cgi_executor-Ran p.cgi_executor)
        (λ e _. Safe.done _ (record {
          receiving = buf_reset-IsValid p.receiving_buffer;
          sending = buf_reset-IsValid p.sending_buffer;
          ready = λ n. absurd (n refl);
        })))

pub close_if-Safe : (b : Bool) (p : Peer) → SlotOk p → Safe SlotOk (close_if b p)
close_if-Safe true p s = close_client_connection-Safe p
close_if-Safe false p s = Safe.done p s
