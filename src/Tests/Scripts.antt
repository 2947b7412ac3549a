-- ===== src/Tests/Scripts.antt =====
-- The start of a script by src/http.c, and a script that cannot be run.
use simle_http_server.Prelude.{
  ℕ, ◌<◌, ◌≡◌, refl, [], none, some, ok, arith, take, ltb, if◌then◌else◌,
}
use simle_http_server.Cbuf.{exit_success}
use simle_http_server.Cbuf.Contents.{contents}
use simle_http_server.Peer.{Peer, CgiParam}
use simle_http_server.Comm.{received, pipe_from_cgi_process_to_client, put_all}
use simle_http_server.Cgi.Child.{
  stdin_read, stdin_write, stdout_read, stdout_write, opened_before, Descriptors, Pipes, with_pipes,
  child_descriptors, parent_descriptors, child_process, aborts, enoent,
}
use simle_http_server.Cgi.Spawned.{IsLowest, Other, pipes_lem}
use simle_http_server.Cgi.Failed.{two_lines, execve_failed_lem}
use simle_http_server.Tests.Data.{no_bytes, no_bytes-IsValid, new_task, peer_of}

-- Descriptors 0 to 4 are open, with the listening socket and the client.
abbrev server_files : Descriptors
server_files fd = if ltb fd 5 then some (opened_before fd) else none

abbrev two_pipes : Pipes
two_pipes = record { stdin0 = 5; stdin1 = 6; stdout0 = 7; stdout1 = 8 }

two_pipes-IsLowest : IsLowest two_pipes
two_pipes-IsLowest = record {
  first = omega arith;
  second = omega arith;
  third = omega arith;
  fourth = omega arith;
}

abbrev no_script : CgiParam
no_script = record { filename = []; args = []; envp = [] }

pipes_lem_example :
    ((child_descriptors two_pipes (with_pipes two_pipes server_files) 0 ≡ some stdin_read)
      × (child_descriptors two_pipes (with_pipes two_pipes server_files) 1 ≡ some stdout_write))
    × ((child_descriptors two_pipes (with_pipes two_pipes server_files) 6 ≡ none)
        × (child_descriptors two_pipes (with_pipes two_pipes server_files) 7 ≡ none))
    × ((parent_descriptors two_pipes (with_pipes two_pipes server_files) 6 ≡ some stdin_write)
        × (parent_descriptors two_pipes (with_pipes two_pipes server_files) 7 ≡ some stdout_read))
    × ((parent_descriptors two_pipes (with_pipes two_pipes server_files) 5 ≡ none)
        × (parent_descriptors two_pipes (with_pipes two_pipes server_files) 8 ≡ none))
    × ((fd : ℕ)
        → Other two_pipes fd
        → 1 < fd
        → child_descriptors two_pipes (with_pipes two_pipes server_files) fd ≡ server_files fd)
    × ((fd : ℕ)
        → Other two_pipes fd
        → parent_descriptors two_pipes (with_pipes two_pipes server_files) fd ≡ server_files fd)
pipes_lem_example = pipes_lem two_pipes server_files two_pipes-IsLowest

abbrev client : Peer
client = peer_of new_task

execve_failed_lem_example :
    (child_process
        (λ _. some enoent)
        no_script
        client.socket
        two_pipes
        (with_pipes two_pipes server_files)
      ≡ ok (aborts (some stdout_write) (two_lines enoent client.socket)))
    × (pipe_from_cgi_process_to_client client
          (λ n. received (take n (two_lines enoent client.socket)))
        ≡ ok (
          exit_success,
          record client { sending_buffer = put_all no_bytes (two_lines enoent client.socket) },
        ))
    × (contents (put_all no_bytes (two_lines enoent client.socket))
        ≡ two_lines enoent client.socket)
execve_failed_lem_example =
    execve_failed_lem client no_script two_pipes server_files enoent two_pipes-IsLowest
      no_bytes-IsValid refl
