-- ===== src/Log.antt =====
-- The macros of src/logger.h, with the switches of src/common.h.
pub mod Digits
pub mod Print
use simle_http_server.Prelude.{
  ℕ, ◌+◌, [], ◌∷◌, ◌++◌, Bool, true, false, Outcome, ok, crash, undefined, ltb, if◌then◌else◌,
  length, ℤ, pos, negsuc,
}
use simle_http_server.Peer.{CString}
use simle_http_server.Text.{codes, decimal}

abbrev pub log_msg_buf_size : ℕ
log_msg_buf_size = 8192

pub data Logger : Type 0 where
  comm_log server_log handler_log http_log cgi_log : Logger

-- `COMM_LOG_ON` and its like.
unfoldable pub is_on : Logger → Bool
is_on comm_log = true
is_on server_log = true
is_on handler_log = false
is_on http_log = true
is_on cgi_log = true

unfoldable pub log_prefix : Logger → CString
log_prefix comm_log = codes "[COMM_LOG]: "
log_prefix server_log = codes "[SERVER_LOG]: "
log_prefix handler_log = codes "[HANDLER_LOG]: "
log_prefix http_log = codes "[HTTP_LOG]: "
log_prefix cgi_log = codes "[CGI_LOG]: "

-- What a macro writes to `log_fd` for the message that the format gives: sprintf writes the message
-- and the final 0 to `stringa` first.
unfoldable pub log_line : Logger → CString → Outcome CString
unfolding is_on log_prefix
log_line logger message =
    if is_on logger
    then if ltb log_msg_buf_size (length message + 1)
      then crash undefined
      else ok (log_prefix logger ++ message ++ (10 ∷ []))
    else ok []

-- `%d`
unfoldable pub decimal_int : ℤ → CString
decimal_int (pos n) = decimal n
decimal_int (negsuc n) = b'-' ∷ decimal (n + 1)
