-- ===== src/Http/Edges.antt =====
-- The rounds of `handle_http` (src/http.c) against the diagram of its states.
use simle_http_server.Prelude.{◌≡◌, ok, Safe-ok}
use simle_http_server.Cbuf.{Cbuf}
use simle_http_server.Task.{HttpTask}
use simle_http_server.Site.{Site}
use simle_http_server.Http.{World, continue}
use simle_http_server.Http.Handle.{step}
use simle_http_server.Http.Diagram.{◌⟶◌}
use simle_http_server.Http.Invariant.{TaskOk}
use simle_http_server.Http.Receiving.{Ends}
use simle_http_server.Http.Total.{step-Goes}

-- A round of the loop that goes on, for a well-formed task and a parser that ends: it follows an edge of
-- the diagram, and leaves the three buffers of the peer and its task well formed.
pub step-⟶ :
    (site : Site) (block : Cbuf) (w w' : World) (t : HttpTask)
    → Ends site
    → TaskOk w.peer t
    → step site block w t ≡ ok (continue w')
    → (t' : HttpTask) × TaskOk w'.peer t' × (t.state ⟶ t'.state)
step-⟶ site block w w' t ends k e = Safe-ok (continue w') (step-Goes site block w t ends k) e
