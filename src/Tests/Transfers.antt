-- ===== src/Tests/Transfers.antt =====
-- Runs of the transfers of src/message.c and src/connection_handlers.c.
use simle_http_server.Prelude.{
  ℕ, zero, suc, ◌≢◌, ◌-◌, ◌≡◌, refl, List, [], ◌∷◌, length, ◌++◌, arith, ok, some, drop, take, min,
  ◌==◌, ◌&&◌, if◌then◌else◌,
}
use simle_http_server.Cbuf.{buf_data_maxsize, buf_available, buf_write, exit_success, exit_failure}
use simle_http_server.Cbuf.Valid.{IsValid}
use simle_http_server.Cbuf.Contents.{contents}
use simle_http_server.Cbuf.Bulk.{get_many}
use simle_http_server.Task.{live}
use simle_http_server.Peer.{Peer}
use simle_http_server.Comm.{
  Received, received, sent, send_blocked, send_to_peer, send_cgi_buffer, receive_from_peer,
  echo_received_message, put_all, pipe_from_cgi_process_to_client, Sent,
}
use simle_http_server.Comm.Send.{send_to_peer_kept, send_cgi_buffer_kept}
use simle_http_server.Comm.Delivery.{send_all, send_all_lem}
use simle_http_server.Comm.Relay.{Call, piping, sending, GoesWell, relay, relay_lem}
use simle_http_server.Comm.Receive.{
  IsBounded, receive_from_peer_appends, echo_received_message_moves,
}
use simle_http_server.Comm.Pipe.{pipe_from_cgi_appends}
use simle_http_server.Tests.Data.{
  no_bytes, no_bytes-IsValid, two_bytes, two_bytes-IsValid, new_task, peer_of, some_executor,
}

abbrev sending_peer : Peer
sending_peer = record (peer_of new_task) { sending_buffer = two_bytes }

abbrev script_peer : Peer
script_peer = record (peer_of new_task) { cgi_executor = live some_executor }

-- A `recv` that has one byte, if one is asked for.
abbrev one_byte : ℕ → Received
one_byte n = if n == 0 then received [] else received (65 ∷ [])

one_byte-IsBounded : IsBounded one_byte
one_byte-IsBounded n bs e = ground arith

one_asked : one_byte (buf_available two_bytes) ≡ received (65 ∷ [])
unfolding buf_available
one_asked = refl

one_asked_of_empty : one_byte (buf_available no_bytes) ≡ received (65 ∷ [])
unfolding buf_available
one_asked_of_empty = refl

send_to_peer_kept_example :
    (send_to_peer sending_peer (sent 1)
      ≡ ok (
        (if sending_peer.close_conn && ((get_many 1 two_bytes).num_byte == 0)
            then exit_failure
            else exit_success),
        contents two_bytes,
        record sending_peer { sending_buffer = get_many 1 two_bytes },
      ))
    × (contents (get_many 1 two_bytes) ≡ drop 1 (contents two_bytes))
    × IsValid (get_many 1 two_bytes)
send_to_peer_kept_example =
    send_to_peer_kept sending_peer (sent 1) two_bytes-IsValid (omega arith) (ground arith)
      (omega arith)

-- The socket takes one byte, asks to wait, and takes the other.
abbrev three_calls : List Sent
three_calls = sent 1 ∷ send_blocked ∷ sent 1 ∷ []

send_all_lem_example :
    (p' : Peer) × (sent_bytes : List ℕ) × (send_all sending_peer three_calls ≡ ok (sent_bytes, p'))
    × (sent_bytes ++ contents p'.sending_buffer ≡ contents two_bytes)
    × (length sent_bytes ≡ 2)
    × IsValid p'.sending_buffer
send_all_lem_example = send_all_lem sending_peer new_task three_calls two_bytes-IsValid refl (
  ground arith,
  omega arith,
  (ground arith, omega arith, (ground arith, omega arith, omega arith)),
)

send_cgi_buffer_kept_example :
    (send_cgi_buffer some_executor (sent 1)
      ≡ ok (
        exit_success,
        contents two_bytes,
        record some_executor { cgi_buffer = some (get_many 1 two_bytes) },
      ))
    × (contents (get_many 1 two_bytes) ≡ drop 1 (contents two_bytes))
    × IsValid (get_many 1 two_bytes)
send_cgi_buffer_kept_example =
    send_cgi_buffer_kept some_executor two_bytes 1 refl two_bytes-IsValid (omega arith)
      (omega arith)

receive_from_peer_appends_example :
    (receive_from_peer (peer_of new_task) echo_received_message one_byte
      ≡ ok (
        exit_failure,
        record (peer_of new_task) { receiving_buffer = (buf_write two_bytes (65 ∷ [])).1 },
      ))
    × (contents (buf_write two_bytes (65 ∷ [])).1 ≡ contents two_bytes ++ (65 ∷ []))
    × IsValid (buf_write two_bytes (65 ∷ [])).1
receive_from_peer_appends_example =
    receive_from_peer_appends (peer_of new_task) echo_received_message one_byte (65 ∷ [])
      two_bytes-IsValid one_byte-IsBounded one_asked (ground arith)

echo_received_message_moves_example :
    (p' : Peer) × (echo_received_message (peer_of new_task) ≡ ok (exit_success, p'))
    × (contents p'.sending_buffer
        ≡ contents no_bytes ++ take (min 2 (buf_data_maxsize - 0)) (contents two_bytes))
    × (contents p'.receiving_buffer ≡ drop (min 2 (buf_data_maxsize - 0)) (contents two_bytes))
    × IsValid p'.sending_buffer
    × IsValid p'.receiving_buffer
echo_received_message_moves_example =
    echo_received_message_moves (peer_of new_task) two_bytes-IsValid no_bytes-IsValid

pipe_from_cgi_appends_example :
    (pipe_from_cgi_process_to_client script_peer one_byte
      ≡ ok (exit_success, record script_peer { sending_buffer = put_all no_bytes (65 ∷ []) }))
    × (contents (put_all no_bytes (65 ∷ [])) ≡ contents no_bytes ++ (65 ∷ []))
    × IsValid (put_all no_bytes (65 ∷ []))
pipe_from_cgi_appends_example =
    pipe_from_cgi_appends script_peer one_byte (65 ∷ []) no_bytes-IsValid (omega arith)
      one_byte-IsBounded one_asked_of_empty (ground arith)

-- A `send` that takes one byte at a time.
abbrev one_sent : ℕ → Sent
one_sent n = if n == 0 then send_blocked else sent 1

one_sent-GoesWell : GoesWell (sending one_sent)
one_sent-GoesWell n = (ground arith, ground arith)

one_byte_given : (n : ℕ) → (bs : List ℕ) × (one_byte n ≡ received bs) × (n ≢ 0 → bs ≢ [])
one_byte_given zero = ([], refl, λ ne. absurd (ne refl))
one_byte_given (suc n) = (65 ∷ [], ground arith, λ _ e. cc)

abbrev three_steps : List Call
three_steps = piping one_byte ∷ sending one_sent ∷ piping one_byte ∷ []

relay_lem_example :
    (read : List ℕ) × (sent_bytes : List ℕ) × (p' : Peer) × (relay sending_peer three_steps
      ≡ ok (read, sent_bytes, p'))
    × (sent_bytes ++ contents p'.sending_buffer ≡ contents two_bytes ++ read)
    × IsValid p'.sending_buffer
relay_lem_example = relay_lem sending_peer new_task three_steps two_bytes-IsValid refl (
  (one_byte-IsBounded, one_byte_given),
  (one_sent-GoesWell, ((one_byte-IsBounded, one_byte_given), tt)),
)
