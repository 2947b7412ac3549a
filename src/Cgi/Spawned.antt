-- ===== src/Cgi/Spawned.antt =====
-- What `start_CGI_script` of src/http.c sets up between the server and the script.
use simle_http_server.Prelude.{ℕ, ◌<◌, ◌≡◌, ◌≢◌, none, some, arith}
use simle_http_server.Cgi.Child.{
  stdin_read, stdin_write, stdout_read, stdout_write, Descriptors, Pipes, with_pipes,
  child_descriptors, parent_descriptors,
}

-- `pipe` gives the lowest descriptors that are free; 0 and 1 are open.
pub record IsLowest (p : Pipes) : Type 0 where
  pub first : 1 < p.stdin0
  pub second : p.stdin0 < p.stdin1
  pub third : p.stdin1 < p.stdout0
  pub fourth : p.stdout0 < p.stdout1

-- A descriptor that is no end of a pipe.
abbrev pub Other : Pipes → ℕ → Type 0
Other p fd = (fd ≢ p.stdin0) × (fd ≢ p.stdin1) × (fd ≢ p.stdout0) × (fd ≢ p.stdout1)

-- If pipe gives the lowest free descriptors and 0 and 1 are open: the script reads its standard
-- input from the first pipe and writes its standard output to the second, and has the other end of
-- neither; the server keeps these other ends alone. All that was open before stays open in both
-- processes, for the script but for its 0 and 1.
pub pipes_lem :
    (p : Pipes) (d : Descriptors)
    → IsLowest p
    → let child = child_descriptors p (with_pipes p d) in
      let parent = parent_descriptors p (with_pipes p d) in
      ((child 0 ≡ some stdin_read) × (child 1 ≡ some stdout_write))
      × ((child p.stdin1 ≡ none) × (child p.stdout0 ≡ none))
      × ((parent p.stdin1 ≡ some stdin_write) × (parent p.stdout0 ≡ some stdout_read))
      × ((parent p.stdin0 ≡ none) × (parent p.stdout1 ≡ none))
      × ((fd : ℕ) → Other p fd → 1 < fd → child fd ≡ d fd)
      × ((fd : ℕ) → Other p fd → parent fd ≡ d fd)
unfolding with_pipes child_descriptors parent_descriptors
pipes_lem p d low = ground arith
