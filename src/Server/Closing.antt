-- ===== src/Server/Closing.antt =====
-- What src/server.c does after it closed a connection whose script still ran.
use simle_http_server.Prelude.{
  ◌≡◌, refl, List, [], ◌∷◌, ◌++◌, Bool, true, false, not, ℤ, arith, Outcome, ok, crash, undefined,
  ◌>>=◌, int_eq, if◌then◌else◌, ◌⊎◌, inl, inr,
}
use simle_http_server.Task.{Ptr, null, live, freed, deref, is_null, destroy_http_task}
use simle_http_server.Peer.{
  Peer, CgiExecutor, no_socket, close_client_connection, free_cgi_executor,
}
use simle_http_server.Server.Client.{Globals}
use simle_http_server.Server.{highest, FdSets, add_fds, build_fd_sets}
use simle_http_server.Server.Select.{Server, Round, server_round}

-- A run that reads a pointer and goes on to undefined behaviour.
deref-undefined :
    {A B : Type 0} (x : Ptr A) {k : A → Outcome B}
    → ((a : A) → k a ≡ crash undefined)
    → (deref x >>= k) ≡ crash undefined
deref-undefined null h = refl
deref-undefined freed h = refl
deref-undefined (live a) h = h a

either : {A : Type 0} {a : A} (b : Bool) {m n : A} → m ≡ a → n ≡ a → (if b then m else n) ≡ a
either true h k = h
either false h k = k

-- The loop over the table reads the executor of each slot, also of one that is closed.
highest-freed :
    (before after : List Peer) (q : Peer) (high : ℤ)
    → q.cgi_executor ≡ freed
    → highest high (before ++ (q ∷ after)) ≡ crash undefined
unfolding highest
highest-freed [] after q high e = rw e refl
highest-freed (p ∷ before) after q high e =
    either (not (is_null p.cgi_executor))
      (deref-undefined p.cgi_executor (λ x. highest-freed before after q _ e))
      (highest-freed before after q _ e)

-- A run that has a result or comes to undefined behaviour.
abbrev OkOrUndefined : {A : Type 0} → Outcome A → Type 0
OkOrUndefined {A} m = (m ≡ crash undefined) ⊎ ((a : A) × (m ≡ ok a))

deref-OkOrUndefined :
    {A B : Type 0} (x : Ptr A) {k : A → Outcome B}
    → ((a : A) → OkOrUndefined (k a))
    → OkOrUndefined (deref x >>= k)
deref-OkOrUndefined null h = inl refl
deref-OkOrUndefined freed h = inl refl
deref-OkOrUndefined (live a) h = h a

if-OkOrUndefined :
    {A : Type 0} (b : Bool) {m n : Outcome A}
    → OkOrUndefined m
    → OkOrUndefined n
    → OkOrUndefined (if b then m else n)
if-OkOrUndefined true h k = h
if-OkOrUndefined false h k = k

add_fds-OkOrUndefined : (ps : List Peer) (sets : FdSets) → OkOrUndefined (add_fds sets ps)
unfolding add_fds
add_fds-OkOrUndefined [] sets = inr (sets, refl)
add_fds-OkOrUndefined (p ∷ ps) sets =
    if-OkOrUndefined (not (int_eq p.socket no_socket))
      (if-OkOrUndefined (not (is_null p.cgi_executor))
        (deref-OkOrUndefined p.cgi_executor (λ e. add_fds-OkOrUndefined ps _))
        (add_fds-OkOrUndefined ps _))
      (add_fds-OkOrUndefined ps sets)

then_undefined :
    {A B : Type 0} (m : Outcome A) {k : A → Outcome B}
    → OkOrUndefined m
    → ((a : A) → k a ≡ crash undefined)
    → (m >>= k) ≡ crash undefined
then_undefined m (inl e) h = rw e refl
then_undefined m (inr (a, e)) h = rw e (h a)

executor_freed :
    (p q : Peer) (e : CgiExecutor)
    → p.cgi_executor ≡ live e
    → close_client_connection p ≡ ok q
    → q.cgi_executor ≡ freed
unfolding close_client_connection destroy_http_task free_cgi_executor
executor_freed p q e live_e closed = ground (arith, live_e, closed)

-- After a connection with a live CGI executor is closed, in whatever slot, the next round reads
-- the executor that was freed: the behaviour is undefined.
pub server_round_after_close :
    (g : Globals) (listen_sock : ℤ) (r : Round) (s : Server) (before after : List Peer) (p q : Peer)
    (e : CgiExecutor)
    → p.cgi_executor ≡ live e
    → close_client_connection p ≡ ok q
    → s.connection_list ≡ before ++ (q ∷ after)
    → server_round g listen_sock r s ≡ crash undefined
unfolding server_round build_fd_sets
server_round_after_close g listen_sock r s before after p q e live_e closed table =
    let freed_e = executor_freed p q e live_e closed in
    then_undefined (build_fd_sets listen_sock s.connection_list)
      (add_fds-OkOrUndefined s.connection_list _)
      (λ _. rw (table, highest-freed before after q listen_sock freed_e) refl)
