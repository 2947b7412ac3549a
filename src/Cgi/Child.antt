-- ===== src/Cgi/Child.antt =====
-- `start_CGI_script` of src/http.c in the child process, up to the script or to what is logged when
-- it cannot be run, and the descriptors of both processes.
use simle_http_server.Prelude.{ℕ, ◌++◌, Option, none, some, ℤ, Outcome, ok, ◌>>=◌, update}
use simle_http_server.Peer.{CString, CgiParam}
use simle_http_server.Text.{codes}
use simle_http_server.Log.{cgi_log, log_line, decimal_int}

-- What a descriptor stands for: an end of one of the two pipes, or something opened before.
pub data File : Type 0 where
  stdin_read stdin_write stdout_read stdout_write : File
  opened_before : ℕ → File

abbrev pub Descriptors : Type 0
Descriptors = ℕ → Option File

abbrev pub close_fd : ℕ → Descriptors → Descriptors
close_fd fd d = update d fd none

-- `dup2(from, to)`; it does nothing if `from` is not open.
abbrev pub dup2 : ℕ → ℕ → Descriptors → Descriptors
dup2 from to d = elim (d from) [ none ↦ d | some f ↦ update d to (some f) ]

-- The results of the two calls of `pipe`.
pub record Pipes : Type 0 where
  pub stdin0 : ℕ
  pub stdin1 : ℕ
  pub stdout0 : ℕ
  pub stdout1 : ℕ

-- After both calls.
unfoldable pub with_pipes : Pipes → Descriptors → Descriptors
with_pipes p d =
    update
      (update (update (update d p.stdin0 (some stdin_read)) p.stdin1 (some stdin_write)) p.stdout0
        (some stdout_read))
      p.stdout1 (some stdout_write)

-- The four calls of the child: 1 is fileno(stdout), 0 is fileno(stdin).
unfoldable pub child_descriptors : Pipes → Descriptors → Descriptors
child_descriptors p d =
    let d1 = close_fd p.stdout0 d in
    let d2 = dup2 p.stdout1 1 d1 in let d3 = close_fd p.stdin1 d2 in dup2 p.stdin0 0 d3

unfoldable pub parent_descriptors : Pipes → Descriptors → Descriptors
parent_descriptors p d = close_fd p.stdin0 (close_fd p.stdout1 d)

-- The errors that the code tells apart.
pub data Errno : Type 0 where
  e2big eacces efault einval eio eisdir eloop emfile enametoolong enfile enoent enoexec enomem
        enotdir eperm etxtbsy other_error :
      Errno

unfoldable pub execve_error : Errno → CString
execve_error e2big =
    codes
      "The total number of bytes in the environment (envp) and argument list (argv) is too large."
execve_error eacces =
    codes "Execute permission is denied for the file or a script or ELF interpreter."
execve_error efault = codes "ilename points outside your accessible address space."
execve_error einval =
    codes
      "iAn ELF executable had more than one PT_INTERP segment (i.e., tried to name more than one interpreter)."
execve_error eio = codes "An I/O error occurred."
execve_error eisdir = codes "An ELF interpreter was a directory."
execve_error eloop =
    codes
      "Too many symbolic links were encountered in resolving filename or the name of a script or ELF interpreter."
execve_error emfile = codes "The process has the maximum number of files open."
execve_error enametoolong = codes "filename is too long."
execve_error enfile = codes "The system limit on the total number of open files has been reached."
execve_error enoent =
    codes
      "The file filename or a script or ELF interpreter does not exist, or a shared library needed for file or interpreter cannot be found."
execve_error enoexec =
    codes
      "An executable is not in a recognised format, is for the wrong architecture, or has some other format error that means it cannot be executed."
execve_error enomem = codes "Insufficient kernel memory was available."
execve_error enotdir =
    codes
      "A component of the path prefix of filename or a script or ELF interpreter is not a directory."
execve_error eperm =
    codes
      "The file system is mounted nosuid, the user is not the superuser, and the file has an SUID or SGID bit set."
execve_error etxtbsy = codes "Executable was open for writing by one or more processes."
execve_error other_error = codes "Unkown error occurred with execve()."

-- `execve_error_handler`
unfoldable pub execve_error_handler : Errno → Outcome CString
unfolding execve_error
execve_error_handler e = log_line cgi_log (execve_error e)

-- What becomes of the child: the script with its descriptors, or a failed assert after a text was
-- written to the log, which is the standard output.
pub data Child : Type 0 where
  runs : CgiParam → Descriptors → Child
  aborts : (log : Option File) → (text : CString) → Child

abbrev pub fatal : ℤ → CString
fatal socket = codes "[Fatal] Error executing CGI script for cliend " ++ decimal_int socket

-- `execve` gives its error, or nothing if the script runs.
unfoldable pub child_process :
    (CgiParam → Option Errno) → CgiParam → ℤ → Pipes → Descriptors → Outcome Child
unfolding child_descriptors execve_error_handler
child_process execve param socket p d =
    let d' = child_descriptors p d in
    elim (execve param) [
      | none ↦ ok (runs param d')
      | some e ↦ (do
        why ← execve_error_handler e
        last ← log_line cgi_log (fatal socket)
        ok (aborts (d' 1) (why ++ last)))
    ]
