-- ===== src/Lib.antt =====
-- A model of the web server of this repository: an HTTP/1.1 server in C that serves files and runs
-- one CGI script, with one process, `select`, and a table of at most 100 connections.
--
-- The parts, from the bottom up, and the files that model them:
--   * Cbuf: `cbuf_t` and `buf_*` of src/message.c, a circular buffer of 8192 bytes. The array is a
--     function of the index; size_t arithmetic wraps at 2 ^ 64. Fifo is what it promises.
--   * Task, Peer: `http_task_t`, `CGI_executor` and `peer_t` of src/message.h, and the functions of
--     src/message.c that make, reset and free them. A pointer is null, live or freed, and the use
--     of one that is not live is the fault `undefined`.
--   * Comm: `send_to_peer`, `receive_from_peer`, `send_to_CGI_process` and
--     `pipe_from_CGI_process_to_client` of src/message.c, and src/connection_handlers.c.
--   * Header: `read_header_data` of src/http.c, which moves a request's header from the receiving
--     buffer to the task. Parse: `parse` of src/parser/parse.c, which looks for the empty line
--     again and calls the generated parser. Parse.Lexer is the scanner of src/parser/lexer.l,
--     Parse.Yacc the parser of src/parser/parser.y as an automaton, with the actions, and
--     Parse.Grammar its grammar as relations. Parse.Accepts compares the two; Parse.Print,
--     Parse.RoundTrip and Parse.Whole are about requests as they are written.
--   * Text, Path: the string helpers of src/http.c and src/file_handlers.c, and `make_full_path`.
--   * Response: the writing of status lines and header fields, the move of the response to the
--     sending buffer, and the streaming of a file, all of src/http.c.
--   * Log: the macros of src/logger.h and, in Log.Print, the print functions of src/http.c and
--     src/message.c, as the text that they write.
--   * Cgi: `build_CGI_param` and `start_CGI_script` of src/http.c; Cgi.Child is the child process,
--     with `execve_error_handler`, and the descriptors of both processes.
--   * Http: `handle_http` of src/http.c. Http.Steps has a function for each state of the task,
--     Http.Handle the loop over them, Http.Diagram the graph of the states; `World` holds the
--     global `request` and the peer.
--   * Server: `main`, `build_fd_sets` and `server_shutdown_properly` of src/server.c and
--     `handle_new_connection` of src/message.c. Server.Client is what a round does for one
--     connection, Server.Select a round and any number of rounds. What `select` and the calls of the
--     server and of the handler do is chosen anew for each round and each client.
--   * Startup: `start_listen_socket` and `close_socket` of src/utility.c and `init_server`,
--     `setup_signals`, `handle_signal_action` and `daemonize` of src/server.c; Startup.Main is the
--     whole process. Path.Stat has the questions to the file system of src/file_handlers.c, Path.Dates
--     its dates.
--   * Http.Get is a GET request from its URI to its last byte, Http.Incoming the receiving of a request in
--     one or several calls, Http.WholeGet both together, Http.PostBody the receiving of a body,
--     Http.Shared two connections that share `request`; Http.Total is about termination and the
--     invariant of a peer, Server.Rounds about those of the whole server.
--   * Site: what the environment gives, as the record that the handler takes.
--   * Prelude: the numbers, lists and faults of the models, and `Safe`, the condition on the
--     result of a run that may stop the process but does not run out of fuel.
--   * Tests: concrete runs.
--
-- How they interact: in each round `select` names the descriptors that are ready; for each
-- connection the server moves bytes between its script, its socket and its buffers and, if it read
-- or sent any, calls `handle_http`, which reads from the receiving buffer and writes to the sending
-- buffer. A connection that is to be closed once its sending buffer is empty has `close_conn` set.
--
-- A run has a result or stops with a fault: a failed assert, a call of exit, or undefined behaviour.
-- What a system call does (accept, recv, send, read, write, pipe, fork, execve, select, fopen, fgetc, access,
-- malloc, realloc, stat, mkdir, the calls that open a socket, the clock) is an argument. A C string is the
-- list of its bytes without the final 0. The table of connections is a list of any length.
--
-- Fuel: the loop of `read_header_data` has the number of bytes in the receiving buffer and 2, that of
-- `send_nonbody_reponse` the number in the response buffer and 1, that of `stream_file_content` the
-- room in the sending buffer and 1, that of the state that receives a body the number in the receiving
-- buffer and 1, and the loop of `handle_http` 7, one for each state that a request can
-- be in and one to leave the loop. The loop of `yyparse` has 1 for each byte and 1 more: a token takes
-- a byte or more. All other loops are recursion on a list or a count.
--
-- Not modelled: the code that flex and yacc generate, of which Parse.Lexer and Parse.Yacc model the rules
-- as the manuals give them (the longest match, the first rule, and flex's own last rule, which writes a byte
-- to the standard output; a shift where a shift and a reduction are possible); `yyparse` is an argument of `parse` and a field of `Site`. The lines that
-- the handlers log, but for those of the child process of a script; signals that arrive while the server runs;
-- memory that is never freed; src/parser/example.c. What the scanner
-- and the actions of the parser write to the standard output is not part of what `yyparse` returns. `envp` and `parse_buf` are not read past what was written to them.
pub mod Prelude
pub mod Fifo
pub mod Cbuf
pub mod Task
pub mod Peer
pub mod Comm
pub mod Header
pub mod Parse
pub mod Text
pub mod Response
pub mod Path
pub mod Site
pub mod Log
pub mod Cgi
pub mod Http
pub mod Server
pub mod Startup
pub mod Tests
