-- ===== src/Api/Routes.antt =====
-- `RegisterRoutes` (server.go) and `CORSMiddleware` (cors.go) of internal/api. A request is one step.
use p2p_distributed_system_m.Base.{ℕ, Bytes, codes, Option, if◌then◌else◌, ◌==◌}
use p2p_distributed_system_m.Http.{
  Request, Response, new_response, set_header, write_header, http_error,
}
use p2p_distributed_system_m.Coordinator.Host.{Env, Orders, Host}
use p2p_distributed_system_m.Api.{Views, Answer, answered}
use p2p_distributed_system_m.Api.Handlers.{
  handle_health, handle_peers, handle_graph, handle_search, handle_download, handle_catalog,
}
use p2p_distributed_system_m.Api.Upload.{handle_upload}

unfoldable pub cors_headers : Response → Response
unfolding set_header
cors_headers w =
    set_header (codes "Access-Control-Allow-Headers")
      (codes "Content-Type, ngrok-skip-browser-warning")
      (set_header (codes "Access-Control-Allow-Methods") (codes "GET, POST, OPTIONS")
        (set_header (codes "Access-Control-Allow-Origin") (codes "*") w))

module _ (E : Env) (o : Orders) (waits : ℕ) (ctx_error : Bytes) where
  abbrev pub in_answer : Response × Host E → Answer × Host E
  in_answer (w, h) = (answered w, h)

  -- `RegisterRoutes`.
  unfoldable pub routed :
      (Response → Option Bytes) → Views → Request → Host E → Response → Answer × Host E
  unfolding handle_health handle_peers handle_graph handle_upload handle_download handle_search
      handle_catalog http_error
  routed gone views req h w =
      if req.path == codes "/api/health"
      then (answered (handle_health E views o h w), h)
      else if req.path == codes "/api/peers"
      then (answered (handle_peers E views o h w), h)
      else if req.path == codes "/api/graph"
      then (handle_graph E views o h w, h)
      else if req.path == codes "/api/upload"
      then in_answer (handle_upload E o waits ctx_error req h w)
      else if req.path == codes "/api/download"
      then in_answer (handle_download E gone o req h w)
      else if req.path == codes "/api/search"
      then in_answer (handle_search E views o req h w)
      else if req.path == codes "/api/catalog"
      then in_answer (handle_catalog E req h w)
      else (answered (http_error (codes "404 page not found") 404 w), h)

  -- `CORSMiddleware` around the routes.
  unfoldable pub serve_http : (Response → Option Bytes) → Views → Request → Host E → Answer × Host E
  unfolding routed cors_headers write_header
  serve_http gone views req h =
      let w = cors_headers new_response in
      if req.method == codes "OPTIONS"
      then (answered (write_header 204 w), h)
      else routed gone views req h w
