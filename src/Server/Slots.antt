-- ===== src/Server/Slots.antt =====
-- `handle_new_connection` of src/message.c: which slot of the table a new connection gets.
use simle_http_server.Prelude.{
  ◌≡◌, refl, List, [], ◌∷◌, ◌++◌, true, false, Option, some, ℤ, pos, negsuc, arith, ok, ◌≢◌,
}
use simle_http_server.Task.{HttpTask, live, reset_http_task, create_http_task}
use simle_http_server.Peer.{Peer, Address, no_socket}
use simle_http_server.Server.{accepted, fill_slot, handle_new_connection}

-- No slot is free.
abbrev pub AllBusy : List Peer → Type 0
AllBusy [] = Unit
AllBusy (p ∷ ps) = (p.socket ≢ no_socket) × AllBusy ps

abbrev pub filled : ℤ → Address → HttpTask → Peer → Peer
filled sock addr block p = record p {
  socket = sock;
  addres = addr;
  close_conn = false;
  http_task = live (reset_http_task (record block { post_body = Option.none }));
}

fill_slot-free :
    (sock : ℤ) (addr : Address) (block : HttpTask) (p : Peer) (before after : List Peer)
    → AllBusy before
    → p.socket ≡ no_socket
    → fill_slot sock addr (some block) (before ++ (p ∷ after))
      ≡ ok (true, before ++ (filled sock addr block p ∷ after))
unfolding fill_slot create_http_task
fill_slot-free sock addr block p [] after busy free = rw free refl
fill_slot-free sock addr block p (q ∷ before) after (b, busy) free =
    let ih = fill_slot-free sock addr block p before after busy free in ground (arith, ih)

fill_slot-busy :
    (sock : ℤ) (addr : Address) (block : HttpTask) (ps : List Peer)
    → AllBusy ps
    → fill_slot sock addr (some block) ps ≡ ok (false, ps)
unfolding fill_slot
fill_slot-busy sock addr block [] busy = refl
fill_slot-busy sock addr block (q ∷ ps) (b, busy) =
    let ih = fill_slot-busy sock addr block ps busy in ground (arith, ih)

-- A new connection gets the first free slot of the table, with a task that was just made. The
-- other slots stay, and so do the buffers and the CGI executor of that one.
pub handle_new_connection_fills :
    (sock : ℤ) (addr : Address) (block : HttpTask) (p : Peer) (before after : List Peer)
    → AllBusy before
    → p.socket ≡ no_socket
    → handle_new_connection (accepted sock addr) (some block) (before ++ (p ∷ after))
      ≡ ok (pos 0, before ++ (filled sock addr block p ∷ after))
unfolding handle_new_connection
handle_new_connection_fills sock addr block p before after busy free =
    rw (fill_slot-free sock addr block p before after busy free) refl

-- With no free slot the table stays, and the result is -1.
pub handle_new_connection_refuses :
    (sock : ℤ) (addr : Address) (block : HttpTask) (ps : List Peer)
    → AllBusy ps
    → handle_new_connection (accepted sock addr) (some block) ps ≡ ok (negsuc 0, ps)
unfolding handle_new_connection
handle_new_connection_refuses sock addr block ps busy =
    rw (fill_slot-busy sock addr block ps busy) refl
