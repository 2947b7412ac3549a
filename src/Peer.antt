-- ===== src/Peer.antt =====
-- `peer_t` of src/message.h with the CGI executor that it owns, and the functions of src/message.c
-- that make, reset and close them.
use simle_http_server.Prelude.{
  ℕ, List, Bool, false, Option, none, ℤ, negsuc, Outcome, ok, crash, undefined, ◌>>=◌,
}
use simle_http_server.Cbuf.{Cbuf, buf_reset, buf_read, buf_write}
use simle_http_server.Task.{Ptr, null, live, freed, HttpTask, create_http_task, destroy_http_task}

-- A C string is the list of its bytes, without the final 0.
abbrev pub CString : Type 0
CString = List ℕ

-- `envp` up to its null pointer.
pub record CgiParam : Type 0 where
  pub filename : CString
  pub args : List CString
  pub envp : List CString

-- Of the pipes, the ends that the server keeps: `stdin_pipe[1]` and `stdout_pipe[0]`.
pub record CgiExecutor : Type 0 where
  pub stdin_pipe : ℤ
  pub stdout_pipe : ℤ
  pub cgi_buffer : Option Cbuf
  pub cgi_parameter : Option CgiParam

-- `struct sockaddr_in`: the family, the address and the port as they stand.
pub record Address : Type 0 where
  pub sin_family : ℕ
  pub sin_addr : List ℕ
  pub sin_port : ℕ

pub record Peer : Type 0 where
  pub socket : ℤ
  pub addres : Address
  pub http_task : Ptr HttpTask
  pub cgi_executor : Ptr CgiExecutor
  pub sending_buffer : Cbuf
  pub receiving_buffer : Cbuf
  pub close_conn : Bool

abbrev pub no_socket : ℤ
no_socket = negsuc 0

-- `init_CGI_executor`: the descriptors are whatever the block held.
unfoldable pub init_cgi_executor : CgiExecutor → CgiExecutor
init_cgi_executor block = record block { cgi_buffer = none; cgi_parameter = none }

-- `free_CGI_executor`, with `free_CGI_param`: what becomes of the pointer that was handed over.
unfoldable pub free_cgi_executor : Ptr CgiExecutor → Outcome (Ptr CgiExecutor)
free_cgi_executor null = ok null
free_cgi_executor (live e) = ok freed
free_cgi_executor freed = crash undefined

unfoldable pub reset_sending_buff : Peer → Peer
reset_sending_buff p = record p { sending_buffer = buf_reset p.sending_buffer }

unfoldable pub reset_receiving_buff : Peer → Peer
reset_receiving_buff p = record p { receiving_buffer = buf_reset p.receiving_buffer }

-- The task that is made first is lost: the pointer to it is overwritten by null.
unfoldable pub create_peer : Option HttpTask → Peer → Outcome Peer
unfolding reset_sending_buff reset_receiving_buff
create_peer block p = do
  _ ← create_http_task block
  ok (
      reset_receiving_buff (
        reset_sending_buff
          (record p { http_task = null; close_conn = false; cgi_executor = null })))

unfoldable pub write_to_sending_buffer : Peer → List ℕ → ℤ × Peer
write_to_sending_buffer p bs =
    let (ret, c) = buf_write p.sending_buffer bs in (ret, record p { sending_buffer = c })

unfoldable pub read_from_sending_buffer : Peer → ℕ → ℤ × List ℕ × Peer
read_from_sending_buffer p n =
    let (ret, out, c) = buf_read p.sending_buffer n in (ret, out, record p { sending_buffer = c })

unfoldable pub write_to_receiving_buffer : Peer → List ℕ → ℤ × Peer
write_to_receiving_buffer p bs =
    let (ret, c) = buf_write p.receiving_buffer bs in (ret, record p { receiving_buffer = c })

unfoldable pub read_from_receiving_buffer : Peer → ℕ → ℤ × List ℕ × Peer
read_from_receiving_buffer p n =
    let (ret, out, c) = buf_read p.receiving_buffer n in
    (ret, out, record p { receiving_buffer = c })

-- The two pointers are freed and stay where they are.
unfoldable pub close_client_connection : Peer → Outcome Peer
unfolding reset_sending_buff reset_receiving_buff
close_client_connection client = do
  let p =
      reset_receiving_buff
        (reset_sending_buff (record client { socket = no_socket; close_conn = false }))
  task ← destroy_http_task p.http_task
  executor ← free_cgi_executor p.cgi_executor
  ok (record p { http_task = task; cgi_executor = executor })
