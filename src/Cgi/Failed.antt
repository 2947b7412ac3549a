-- ===== src/Cgi/Failed.antt =====
-- What the client gets if the script of `start_CGI_script` (src/http.c) cannot be run.
use simle_http_server.Prelude.{
  ◌+◌, ◌≤◌, ◌≡◌, ◌≢◌, refl, [], ◌∷◌, ◌++◌, some, ok, arith, ℤ, length, length-append, length-take,
  take, take_all,
}
use simle_http_server.Cbuf.{buf_available, exit_success, buf_data_maxsize}
use simle_http_server.Cbuf.Valid.{IsValid, available_lem}
use simle_http_server.Cbuf.Contents.{contents, length-contents}
use simle_http_server.Peer.{CString, CgiParam, Peer}
use simle_http_server.Text.{codes}
use simle_http_server.Log.Digits.{length-decimal_int}
use simle_http_server.Log.{log_line, log_prefix, cgi_log}
use simle_http_server.Comm.{received, pipe_from_cgi_process_to_client, put_all}
use simle_http_server.Comm.Pipe.{pipe_from_cgi_appends}
use simle_http_server.Cgi.Child.{
  Errno, execve_error, execve_error_handler, fatal, stdout_write, Descriptors, Pipes, with_pipes,
  aborts, child_process,
}
use simle_http_server.Cgi.Spawned.{IsLowest, pipes_lem}

length-execve_error : (e : Errno) → length (execve_error e) ≤ 200
unfolding execve_error
length-execve_error e = ground arith

-- A line of the log.
abbrev pub log_text : CString → CString
log_text message = codes "[CGI_LOG]: " ++ message ++ (10 ∷ [])

log_line_lem : (m : CString) → length m ≤ 300 → log_line cgi_log m ≡ ok (log_text m)
unfolding log_line log_prefix
log_line_lem m h = ground arith

length-log_text : (m : CString) → length (log_text m) ≡ 12 + length m
length-log_text m = omega (arith, length-append m (10 ∷ []))

-- The two lines that the child logs before the assert.
abbrev pub two_lines : Errno → ℤ → CString
two_lines e socket = log_text (execve_error e) ++ log_text (fatal socket)

length-fatal : (socket : ℤ) → length (fatal socket) ≤ 100
length-fatal socket = omega (arith, length-decimal_int socket)

length-two_lines : (e : Errno) (socket : ℤ) → length (two_lines e socket) ≤ 400
length-two_lines e socket = omega (
  arith,
  length-append (log_text (execve_error e)) (log_text (fatal socket)),
  length-log_text (execve_error e),
  length-log_text (fatal socket),
  length-execve_error e,
  length-fatal socket,
)

-- A text that the pipe holds as a whole gets to an empty sending buffer as a whole.
whole_piped :
    (client : Peer) (text : CString)
    → IsValid client.sending_buffer
    → client.sending_buffer.num_byte ≡ 0
    → text ≢ []
    → length text ≤ buf_data_maxsize
    → let after = put_all client.sending_buffer text in
      (pipe_from_cgi_process_to_client client (λ n. received (take n text))
        ≡ ok (exit_success, record client { sending_buffer = after }))
      × (contents after ≡ text)
whole_piped client text v empty ne fits =
    let none_held = length-contents client.sending_buffer in
    let (piped, held, _) =
      pipe_from_cgi_appends client (λ n. received (take n text)) text v (omega (arith, empty))
        (λ n bs same. ground (arith, length-take n text))
        (ground (arith, available_lem v, take_all (buf_available client.sending_buffer) text)) ne in
    (piped, ground (arith, held, none_held))

-- If execve fails, and pipe gave the lowest free descriptors with 0 and 1 open, then the child
-- writes two lines of the log to the pipe that the script's output comes through, and its assert
-- fails. If the client's sending buffer is empty and the pipe gives all that is in it up to the
-- space that is asked for, then these lines, as they stand, become the response to the client.
pub execve_failed_lem :
    (client : Peer) (param : CgiParam) (p : Pipes) (d : Descriptors) (e : Errno)
    → IsLowest p
    → IsValid client.sending_buffer
    → client.sending_buffer.num_byte ≡ 0
    → let text = two_lines e client.socket in
      let after = put_all client.sending_buffer text in
      (child_process (λ _. some e) param client.socket p (with_pipes p d)
        ≡ ok (aborts (some stdout_write) text))
      × (pipe_from_cgi_process_to_client client (λ n. received (take n text))
          ≡ ok (exit_success, record client { sending_buffer = after }))
      × (contents after ≡ text)
unfolding child_process execve_error_handler
execve_failed_lem client param p d e low v empty =
    let text = two_lines e client.socket in
    let out = (pipes_lem p d low).0.1 in
    let (piped, held) =
      whole_piped client text v empty (ground arith)
        (omega (arith, length-two_lines e client.socket)) in
    (
      rw out (
          rw (log_line_lem (execve_error e) (omega (arith, length-execve_error e))) (
            rw (log_line_lem (fatal client.socket) (omega (arith, length-fatal client.socket)))
              refl)),
      piped,
      held,
    )
