-- ===== src/Tests/Buffers.antt =====
-- Runs of the buffer of src/message.c.
use simle_http_server.Prelude.{◌≡◌, [], ◌∷◌}
use simle_http_server.Fifo
use simle_http_server.Fifo.{Op, reset, put, get, read, write}
use simle_http_server.Cbuf.{buf_data_maxsize}
use simle_http_server.Cbuf.Contents.{contents}
use simle_http_server.Cbuf.Refine.{calls, calls_refine}
use simle_http_server.Tests.Data.{two_bytes, two_bytes-IsValid}

calls_refine_example :
    calls two_bytes (put 99 ∷ get ∷ read 5 ∷ get ∷ [])
    ≡ Fifo.run buf_data_maxsize (contents two_bytes) (put 99 ∷ get ∷ read 5 ∷ get ∷ [])
calls_refine_example = calls_refine (put 99 ∷ get ∷ read 5 ∷ get ∷ []) two_bytes-IsValid
