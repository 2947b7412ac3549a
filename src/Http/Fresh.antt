-- ===== src/Http/Fresh.antt =====
-- On the invariant of a peer, for the task of src/message.c as it is made and reset.
use simle_http_server.Prelude.{◌≡◌, refl, [], arith}
use simle_http_server.Cbuf.Valid.{IsValid, buf_reset-IsValid}
use simle_http_server.Task.{live, HttpTask, reset_http_task}
use simle_http_server.Peer.{Peer}
use simle_http_server.Header.Reading.{Reading}
use simle_http_server.Http.Invariant.{TaskOk}

-- A task that was reset expects a header from its first byte on.
reset_task-Reading : (t : HttpTask) → Reading (reset_http_task t) []
unfolding reset_http_task
reset_task-Reading t = record {
  unended = tt;
  count = refl;
  room = omega arith;
  stored = tt;
  status = refl;
}

reset_response : (t : HttpTask) → IsValid (reset_http_task t).response_buf
unfolding reset_http_task
reset_response t = buf_reset-IsValid t.response_buf

-- A peer with a task that was just made or reset.
pub reset_task-TaskOk :
    (p : Peer) (t : HttpTask)
    → p.http_task ≡ live (reset_http_task t)
    → IsValid p.receiving_buffer
    → IsValid p.sending_buffer
    → TaskOk p (reset_http_task t)
reset_task-TaskOk p t e vr vs = record {
  task = e;
  receiving = vr;
  sending = vs;
  response = reset_response t;
  header = λ _. ([], reset_task-Reading t);
}
