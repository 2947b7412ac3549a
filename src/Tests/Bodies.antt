-- ===== src/Tests/Bodies.antt =====
-- A run of the state of `handle_http` (src/http.c) that receives a POST body.
use simle_http_server.Prelude.{ℕ, ◌<◌, ◌≡◌, refl, arith, ok, some, take, drop, slice_of}
use simle_http_server.Cbuf.{Cbuf}
use simle_http_server.Cbuf.Valid.{IsValid}
use simle_http_server.Cbuf.Contents.{contents}
use simle_http_server.Task.{null, HttpTask, recv_body_state, post_method}
use simle_http_server.Http.{World, return, keep_conn, with_task}
use simle_http_server.Http.Steps.{recv_body_step}
use simle_http_server.Http.PostBody.{recv_body_step_lem}
use simle_http_server.Tests.Data.{two_bytes, two_bytes-IsValid, new_task, peer_of}

abbrev zeros : ℕ → ℕ
zeros i = 0

-- One byte of five is there, and two more have come.
abbrev posting_task : HttpTask
posting_task = record new_task {
  state = recv_body_state;
  method_type = post_method;
  body_bytes_num = 5;
  post_body = some zeros;
  post_body_idx = 1;
}

abbrev posting : World
posting = record { request = null; peer = peer_of posting_task }

recv_body_step_lem_example :
    (block' : ℕ → ℕ) × (c : Cbuf) × (recv_body_step posting posting_task
      ≡ ok (
          return keep_conn (
            with_task
              (record posting { peer = record posting.peer { receiving_buffer = c } })
              (record posting_task { post_body = some block'; post_body_idx = 3 }))))
    × (slice_of block' 1 2 ≡ take 2 (contents two_bytes))
    × ((i : ℕ) → i < 1 → block' i ≡ 0)
    × (contents c ≡ drop 2 (contents two_bytes))
    × IsValid c
recv_body_step_lem_example =
    recv_body_step_lem posting posting_task zeros refl (omega arith) two_bytes-IsValid
