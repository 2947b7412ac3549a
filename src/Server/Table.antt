-- ===== src/Server/Table.antt =====
-- The table of connections of src/server.c: making it, a new connection, the sets for `select`, closing.
use simle_http_server.Prelude.{
  ◌≡◌, refl, List, [], ◌∷◌, false, not, Option, none, some, ℤ, arith, ap, int_eq, Safe, Ran, ran,
  Safe-bind, Safe-if, Safe-of, assertion-Safe,
}
use simle_http_server.Cbuf.Valid.{buf_reset-IsValid}
use simle_http_server.Task.{live, deref, is_null, HttpTask, create_http_task, reset_http_task}
use simle_http_server.Peer.{
  Peer, Address, no_socket, create_peer, reset_sending_buff, reset_receiving_buff,
}
use simle_http_server.Http.Fresh.{reset_task-TaskOk}
use simle_http_server.Server.{
  Accepted, accept_failed, get_flags_failed, set_flags_failed, accepted, fill_slot,
  handle_new_connection, init_peers, highest, FdSets, add_fds, close_if, close_all,
}
use simle_http_server.Server.Slot.{SlotOk, close_if-Safe}

-- Every slot of the table is well formed.
abbrev pub TableOk : List Peer → Type 0
TableOk [] = Unit
TableOk (p ∷ ps) = SlotOk p × TableOk ps

-- A new slot has valid buffers and no socket.
create_peer-Safe :
    (block : Option HttpTask) (p : Peer) → p.socket ≡ no_socket → Safe SlotOk (create_peer block p)
unfolding create_peer create_http_task reset_sending_buff reset_receiving_buff
create_peer-Safe none p e = assertion-Safe
create_peer-Safe (some t) p e = Safe.done _ (record {
  receiving = buf_reset-IsValid p.receiving_buffer;
  sending = buf_reset-IsValid p.sending_buffer;
  ready = λ n. absurd (n e);
})

pub init_peers-Safe :
    (block : Option HttpTask) (ps : List Peer) → Safe TableOk (init_peers block ps)
unfolding init_peers
init_peers-Safe block [] = Safe.done [] tt
init_peers-Safe block (p ∷ ps) =
    Safe-bind SlotOk {m = create_peer block (record p { socket = no_socket })}
      (create_peer-Safe block (record p { socket = no_socket }) refl)
      (λ q s.
        Safe-bind TableOk {m = init_peers block ps} (init_peers-Safe block ps)
          (λ qs ss. Safe.done _ (s, ss)))

create_http_task-Safe :
    (block : Option HttpTask)
    → Safe (λ t. (b : HttpTask) × (t ≡ reset_http_task b)) (create_http_task block)
unfolding create_http_task
create_http_task-Safe none = assertion-Safe
create_http_task-Safe (some b) = Safe.done _ (record b { post_body = none }, refl)

-- A slot that is given to a new connection.
filled-SlotOk :
    (p : Peer) (t b : HttpTask) (sock : ℤ) (addr : Address)
    → t ≡ reset_http_task b
    → SlotOk p
    → SlotOk (record p { socket = sock; addres = addr; close_conn = false; http_task = live t })
filled-SlotOk p t b sock addr e s = record {
  receiving = s.receiving;
  sending = s.sending;
  ready = λ _. (reset_http_task b, reset_task-TaskOk _ b (ap live e) s.receiving s.sending);
}

fill_slot-Safe :
    (sock : ℤ) (addr : Address) (block : Option HttpTask) (ps : List Peer)
    → TableOk ps
    → Safe (λ (found, qs). TableOk qs) (fill_slot sock addr block ps)
unfolding fill_slot
fill_slot-Safe sock addr block [] ok_table = Safe.done _ tt
fill_slot-Safe sock addr block (p ∷ ps) (s, ss) =
    Safe-if {b = int_eq p.socket no_socket}
      (λ _.
        Safe-bind (λ t. (b : HttpTask) × (t ≡ reset_http_task b)) {m = create_http_task block}
          (create_http_task-Safe block)
          (λ t (b, made). Safe.done _ (filled-SlotOk p t b sock addr made s, ss)))
      (λ _.
        Safe-bind (λ (found, qs). TableOk qs) {m = fill_slot sock addr block ps}
          (fill_slot-Safe sock addr block ps ss) (λ r qs. Safe.done _ (s, qs)))

pub handle_new_connection-Safe :
    (a : Accepted) (block : Option HttpTask) (ps : List Peer)
    → TableOk ps
    → Safe (λ (ret, qs). TableOk qs) (handle_new_connection a block ps)
unfolding handle_new_connection
handle_new_connection-Safe accept_failed block ps k = Safe.done _ k
handle_new_connection-Safe get_flags_failed block ps k = Safe.done _ k
handle_new_connection-Safe set_flags_failed block ps k = assertion-Safe
handle_new_connection-Safe (accepted sock addr) block ps k =
    Safe-bind (λ (found, qs). TableOk qs) {m = fill_slot sock addr block ps}
      (fill_slot-Safe sock addr block ps k) (λ r qs. Safe.done _ qs)

pub close_all-Ran : (ps : List Peer) → TableOk ps → Ran (close_all ps)
unfolding close_all
close_all-Ran [] k = ran _
close_all-Ran (p ∷ ps) (s, ss) =
    Safe-bind SlotOk {m = close_if (not (int_eq p.socket no_socket)) p} (close_if-Safe _ p s)
      (λ q _. Safe-bind _ {m = close_all ps} (close_all-Ran ps ss) (λ qs _. ran _))

pub add_fds-Ran : (sets : FdSets) (ps : List Peer) → Ran (add_fds sets ps)
unfolding add_fds
add_fds-Ran sets [] = ran sets
add_fds-Ran sets (p ∷ ps) =
    Safe-if {b = not (int_eq p.socket no_socket)}
      (λ _.
        Safe-if {b = not (is_null p.cgi_executor)}
          (λ _.
            Safe-bind _ {m = deref p.cgi_executor}
              (Safe-of (deref p.cgi_executor) (ground arith) (λ _ _. tt)) (λ e _. add_fds-Ran _ ps))
          (λ _. add_fds-Ran _ ps))
      (λ _. add_fds-Ran sets ps)

pub highest-Ran : (ps : List Peer) (high : ℤ) → Ran (highest high ps)
unfolding highest
highest-Ran [] high = ran high
highest-Ran (p ∷ ps) high =
    Safe-if {b = not (is_null p.cgi_executor)}
      (λ _.
        Safe-bind _ {m = deref p.cgi_executor}
          (Safe-of (deref p.cgi_executor) (ground arith) (λ _ _. tt)) (λ e _. highest-Ran ps _))
      (λ _. highest-Ran ps _)
