-- ===== src/Http/Diagram.antt =====
-- The diagram of the states of `handle_http` (src/http.c): which state can follow which when its loop goes
-- on.
use simle_http_server.Prelude.{
  ℕ, ◌<◌, ◌≡◌, ◌≢◌, ◌⊎◌, inl, inr, Bool, true, false, ◌==◌, if◌then◌else◌, arith,
}
use simle_http_server.Task.{
  recv_header_state, recv_body_state, generate_header_state, send_header_state, send_body_state,
  finished_state, check_cgi,
}

infix 40 ◌⟶◌
pub data ◌⟶◌ : ℕ → ℕ → Type 0 where
  expect_body : recv_header_state ⟶ recv_body_state
  expect_nothing : recv_header_state ⟶ check_cgi
  refuse : recv_header_state ⟶ generate_header_state
  complete : recv_body_state ⟶ check_cgi
  find : check_cgi ⟶ send_header_state
  miss : check_cgi ⟶ generate_header_state
  generate : generate_header_state ⟶ send_header_state
  send_file : send_header_state ⟶ send_body_state
  send_no_file : send_header_state ⟶ finished_state
  end_file : send_body_state ⟶ finished_state

-- How many rounds of the loop can follow.
abbrev pub rank : ℕ → ℕ
rank s =
    if s == recv_header_state
    then 6
    else if s == recv_body_state
    then 5
    else if s == check_cgi
    then 4
    else if s == generate_header_state
    then 3
    else if s == send_header_state
    then 2
    else if s == send_body_state
    then 1
    else 0

pub ⟶-rank : {s u : ℕ} → s ⟶ u → rank u < rank s
⟶-rank expect_body = omega arith
⟶-rank expect_nothing = omega arith
⟶-rank refuse = omega arith
⟶-rank complete = omega arith
⟶-rank find = omega arith
⟶-rank miss = omega arith
⟶-rank generate = omega arith
⟶-rank send_file = omega arith
⟶-rank send_no_file = omega arith
⟶-rank end_file = omega arith

-- No edge leads back to the state that receives a header.
pub ⟶-leaves : {s u : ℕ} → s ⟶ u → u ≢ recv_header_state
⟶-leaves expect_body = λ e. omega arith
⟶-leaves expect_nothing = λ e. omega arith
⟶-leaves refuse = λ e. omega arith
⟶-leaves complete = λ e. omega arith
⟶-leaves find = λ e. omega arith
⟶-leaves miss = λ e. omega arith
⟶-leaves generate = λ e. omega arith
⟶-leaves send_file = λ e. omega arith
⟶-leaves send_no_file = λ e. omega arith
⟶-leaves end_file = λ e. omega arith

-- The edges from a state, by the equation for the state after them.
pub from_header :
    (s : ℕ)
    → (s ≡ recv_body_state) ⊎ ((s ≡ check_cgi) ⊎ (s ≡ generate_header_state))
    → recv_header_state ⟶ s
from_header s (inl e) = rw e expect_body
from_header s (inr (inl e)) = rw e expect_nothing
from_header s (inr (inr e)) = rw e refuse

pub from_send_header :
    (s : ℕ) → (s ≡ finished_state) ⊎ (s ≡ send_body_state) → send_header_state ⟶ s
from_send_header s (inl e) = rw e send_no_file
from_send_header s (inr e) = rw e send_file

pub from_check_cgi :
    (found : Bool) → check_cgi ⟶ (if found then send_header_state else generate_header_state)
from_check_cgi true = find
from_check_cgi false = miss
