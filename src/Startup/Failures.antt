-- ===== src/Startup/Failures.antt =====
-- On failures when the socket is opened (src/utility.c).
use simle_http_server.Prelude.{
  ℕ, Bool, true, false, Option, none, some, ◌≡◌, ◌≢◌, ◌↔◌, ◌⊎◌, inl, inr, refl, pos, arith,
}
use simle_http_server.Startup.{Network, Listening, close_socket, start_listen_socket}

-- All calls of `start_listen_socket` go well, and the descriptor is `fd`.
abbrev AllWell : Network → Type 0
AllWell n =
    (fd : ℕ) × (n.socket ≡ some fd)
    × (n.setsockopt_fails ≡ false)
    × (n.bind_fails ≡ false)
    × (n.listen_fails ≡ false)

-- What the result says of the calls and of the descriptor.
abbrev Tells : Network → Listening → Type 0
Tells n l =
    (l.ret ≡ pos 0 ↔ AllWell n)
    × (l.ret ≡ pos 0 → l.is_open ≡ true)
    × (l.ret ≢ pos 0 → l.is_open ≡ true → (n.setsockopt_fails ≡ true) ⊎ (n.close_fails ≡ true))

start_listen_socket-Tells :
    (socket : Option ℕ) (a b c d : Bool)
    → let n : Network = record {
      socket = socket;
      setsockopt_fails = a;
      bind_fails = b;
      listen_fails = c;
      close_fails = d;
    } in
      Tells n (start_listen_socket n)
unfolding start_listen_socket close_socket
start_listen_socket-Tells none a b c d = ((λ e. cc, λ w. cc), λ e. cc, λ _ e. cc)
start_listen_socket-Tells (some fd) true b c d = ((λ e. cc, λ w. cc), λ e. cc, λ _ _. inl refl)
start_listen_socket-Tells (some fd) false true c d =
    ((λ e. cc, λ w. cc), λ e. cc, λ _ e. inr (ground (arith, e)))
start_listen_socket-Tells (some fd) false false true d =
    ((λ e. cc, λ w. cc), λ e. cc, λ _ e. inr (ground (arith, e)))
start_listen_socket-Tells (some fd) false false false d =
    ((λ _. (fd, refl, refl, refl, refl), λ _. refl), λ _. refl, λ ne. absurd (ne refl))

-- `start_listen_socket` returns 0 exactly if `socket` gives a descriptor and no other call fails, and then
-- the descriptor is open. After a failure a descriptor is left open only if `setsockopt` failed, or the
-- call that closes it.
pub start_listen_socket_lem :
    (n : Network)
    → ((start_listen_socket n).ret ≡ pos 0 ↔ (
        (fd : ℕ) × (n.socket ≡ some fd)
        × (n.setsockopt_fails ≡ false)
        × (n.bind_fails ≡ false)
        × (n.listen_fails ≡ false)))
      × ((start_listen_socket n).ret ≡ pos 0 → (start_listen_socket n).is_open ≡ true)
      × ((start_listen_socket n).ret ≢ pos 0
          → (start_listen_socket n).is_open ≡ true
          → (n.setsockopt_fails ≡ true) ⊎ (n.close_fails ≡ true))
start_listen_socket_lem n =
    start_listen_socket-Tells n.socket n.setsockopt_fails n.bind_fails n.listen_fails n.close_fails
