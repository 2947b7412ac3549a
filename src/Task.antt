-- ===== src/Task.antt =====
-- `http_task_t` of src/message.h with its functions of src/message.c, the constants of src/common.h
-- and src/http.h that its fields take, and pointers to objects of the heap.
use simle_http_server.Prelude.{
  ℕ, List, Bool, true, false, Option, none, some, ℤ, negsuc, Outcome, ok, crash, assertion,
  undefined,
}
use simle_http_server.Cbuf.{Cbuf, buf_reset}

-- A pointer to an object that one owner allocates and frees.
pub data Ptr {ℓ} (A : Type ℓ) : Type ℓ where
  null : Ptr A
  live : A → Ptr A
  freed : Ptr A

-- To go through a pointer that is null or freed is undefined behaviour.
abbrev pub deref {ℓ} : {A : Type ℓ} → Ptr A → Outcome A
deref null = crash undefined
deref (live a) = ok a
deref freed = crash undefined

abbrev pub is_null {ℓ} : {A : Type ℓ} → Ptr A → Bool
is_null null = true
is_null (live a) = false
is_null freed = false

-- The states of a task.
abbrev pub recv_header_state : ℕ
recv_header_state = 1

abbrev pub recv_body_state : ℕ
recv_body_state = 2

abbrev pub generate_header_state : ℕ
generate_header_state = 3

abbrev pub send_header_state : ℕ
send_header_state = 4

abbrev pub send_body_state : ℕ
send_body_state = 5

abbrev pub finished_state : ℕ
finished_state = 6

abbrev pub check_cgi : ℕ
check_cgi = 7

abbrev pub processing_cgi : ℕ
processing_cgi = 8

abbrev pub no_method : ℕ
no_method = 0

abbrev pub get_method : ℕ
get_method = 1

abbrev pub head_method : ℕ
head_method = 2

abbrev pub post_method : ℕ
post_method = 3

-- An open FILE: the bytes that are left, and whether reading on past them fails (`ferror`) or
-- meets the end of the file (`feof`).
pub record FileStream : Type 0 where
  pub rest : List ℕ
  pub fails : Bool

-- `parse_buf` and the block at `post_body` are arrays. `fp` is not set until a file is opened.
pub record HttpTask : Type 0 where
  pub state : ℕ
  pub parse_buf : ℕ → ℕ
  pub parse_buf_idx : ℕ
  pub header_term_token_status : ℕ
  pub response_buf : Cbuf
  pub method_type : ℕ
  pub last_request : Bool
  pub response_code : ℤ
  pub body_bytes_num : ℕ
  pub post_body : Option (ℕ → ℕ)
  pub post_body_idx : ℕ
  pub fp : Ptr FileStream

unfoldable pub reset_http_task : HttpTask → HttpTask
reset_http_task t = record t {
  state = recv_header_state;
  parse_buf_idx = 0;
  header_term_token_status = 0;
  method_type = no_method;
  last_request = false;
  response_code = negsuc 0;
  response_buf = buf_reset t.response_buf;
  body_bytes_num = 0;
  post_body = none;
  post_body_idx = 0;
}

-- The argument is what malloc returns: nothing, or a block with arbitrary contents.
unfoldable pub create_http_task : Option HttpTask → Outcome HttpTask
create_http_task none = crash assertion
create_http_task (some block) = ok (reset_http_task (record block { post_body = none }))

-- What becomes of the pointer that was handed over.
unfoldable pub destroy_http_task : Ptr HttpTask → Outcome (Ptr HttpTask)
destroy_http_task null = ok null
destroy_http_task (live t) = ok freed
destroy_http_task freed = crash undefined
