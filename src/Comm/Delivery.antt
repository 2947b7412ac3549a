-- ===== src/Comm/Delivery.antt =====
-- `send_to_peer` of src/message.c, called whenever the socket can be written to.
use simle_http_server.Prelude.{
  ℕ, zero, suc, ◌+◌, ◌-◌, ◌≤◌, ◌≡◌, ◌≢◌, ◌⊎◌, inl, inr, refl, sym, ap, ◌∙◌, List, [], ◌∷◌, ◌++◌,
  append_assoc, length-append, length-take, take-append-drop, arith, take, Outcome, ok, length,
  ◌>>=◌, ◌==◌, ◌&&◌, not, if◌then◌else◌,
}
use simle_http_server.Cbuf.{exit_failure}
use simle_http_server.Cbuf.Valid.{IsValid}
use simle_http_server.Cbuf.Contents.{contents, length-contents}
use simle_http_server.Cbuf.Bulk.{get_many, read_loop-Took}
use simle_http_server.Peer.{Peer}
use simle_http_server.Task.{live, HttpTask, processing_cgi}
use simle_http_server.Comm.{Sent, send_failed, send_to_peer, nothing_to_send}
use simle_http_server.Comm.Send.{taken, send_to_peer_kept, send_to_peer_idle}

-- One call after the other: the bytes that the socket took in all, and the peer at the end.
unfoldable pub send_all : Peer → List Sent → Outcome (List ℕ × Peer)
send_all p [] = ok ([], p)
send_all p (o ∷ os) = do
  (ret, handed, p') ← send_to_peer p o
  (sent_later, p'') ← send_all p' os
  ok (take (taken o) handed ++ sent_later, p'')

-- No call fails, and together they take no more than `n` bytes.
abbrev pub TakesWithin : List Sent → ℕ → Type 0
TakesWithin [] n = 0 ≤ n
TakesWithin (o ∷ os) n = (o ≢ send_failed) × (taken o ≤ n) × TakesWithin os (n - taken o)

abbrev pub taken_by : List Sent → ℕ
taken_by [] = 0
taken_by (o ∷ os) = taken o + taken_by os

zero_or_not : (n : ℕ) → (n ≡ 0) ⊎ (n ≢ 0)
zero_or_not zero = inl refl
zero_or_not (suc n) = inr (omega arith)

take-nil : (n : ℕ) → take {A = ℕ} n [] ≡ []
take-nil zero = refl
take-nil (suc n) = refl

-- What one call does, with or without bytes to send.
pub record Delivers (p : Peer) (n : ℕ) (run : Outcome (ℕ × List ℕ × Peer)) : Type 0 where
  pub ret : ℕ
  pub handed : List ℕ
  pub returns : run ≡ ok (ret, handed, record p { sending_buffer = get_many n p.sending_buffer })
  pub went : take n handed ≡ take n (contents p.sending_buffer)

pub send_to_peer-Delivers :
    (p : Peer) (task : HttpTask) (o : Sent)
    → IsValid p.sending_buffer
    → p.http_task ≡ live task
    → o ≢ send_failed
    → taken o ≤ p.sending_buffer.num_byte
    → Delivers p (taken o) (send_to_peer p o)
unfolding get_many
send_to_peer-Delivers p task o v live_task nf h = elim (zero_or_not p.sending_buffer.num_byte) [
  | inl e ↦
      let returned =
        if p.close_conn && not (task.state == processing_cgi)
        then exit_failure
        else nothing_to_send in
      let none_taken : taken o ≡ 0 = omega arith in
      record {
        ret = returned;
        handed = [];
        returns =
            send_to_peer_idle p task o v e live_task
            ∙ ap (λ n. ok (returned, [], record p { sending_buffer = get_many n p.sending_buffer }))
                (sym none_taken);
        went = take-nil (taken o) ∙ rw none_taken refl;
      }
  | inr ne ↦
      let (returns, left, valid) = send_to_peer_kept p o v ne nf h in
      record { ret = _; handed = _; returns = returns; went = refl }
]

-- If the calls do not fail and take no more bytes together than the sending buffer holds, then the
-- socket took the first bytes of the buffer, in order, each once, and the others are left.
pub send_all_lem :
    (p : Peer) (task : HttpTask) (os : List Sent)
    → IsValid p.sending_buffer
    → p.http_task ≡ live task
    → TakesWithin os p.sending_buffer.num_byte
    → (p' : Peer) × (sent_bytes : List ℕ) × (send_all p os ≡ ok (sent_bytes, p'))
      × (sent_bytes ++ contents p'.sending_buffer ≡ contents p.sending_buffer)
      × (length sent_bytes ≡ taken_by os)
      × IsValid p'.sending_buffer
unfolding send_all
send_all_lem p task [] v live_task h = (p, [], refl, refl, refl, v)
send_all_lem p task (o ∷ os) v live_task (nf, fits, later) =
    let took = read_loop-Took (taken o) v fits in
    let one = send_to_peer-Delivers p task o v live_task nf fits in
    let p1 = record p { sending_buffer = get_many (taken o) p.sending_buffer } in
    let (p2, bytes, returns, all, count, valid) =
      send_all_lem p1 task os took.valid live_task (rw took.count later) in
    (
      p2,
      take (taken o) one.handed ++ bytes,
      rw one.returns (rw returns refl),
      append_assoc (take (taken o) one.handed) bytes (contents p2.sending_buffer)
          ∙ rw (all, took.left, one.went) (take-append-drop (taken o) (contents p.sending_buffer)),
      ground (
        arith,
        length-append (take (taken o) one.handed) bytes,
        one.went,
        length-take (taken o) (contents p.sending_buffer),
        length-contents p.sending_buffer,
      ),
      valid,
    )
