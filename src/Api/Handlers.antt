-- ===== src/Api/Handlers.antt =====
-- The handlers that read: health_peers.go, catalog_handler.go, search_handler.go and download_handler.go
-- of internal/api. `gone` is the error of a write to a client that has gone.
use p2p_distributed_system_m.Base.{
  Bytes, codes, List, [], ◌∷◌, ◌++◌, not, Option, none, some, Result, ok, err, if◌then◌else◌, ◌==◌,
  length,
}
use p2p_distributed_system_m.Http.{Request, Response, set_header, write, http_error, client}
use p2p_distributed_system_m.Peer.Record.{Record}
use p2p_distributed_system_m.Peer.Registry.{RedisCommand, snapshot, active_count}
use p2p_distributed_system_m.Dht.Lookup.{lookup_providers}
use p2p_distributed_system_m.Coordinator.Host.{Env, Orders, Host}
use p2p_distributed_system_m.Coordinator.Files.{get_file}
use p2p_distributed_system_m.Coordinator.Inspect.{inspect_cid}
use p2p_distributed_system_m.Coordinator.Catalog.{catalog_key, local_catalog, or_empty}
use p2p_distributed_system_m.Api.{
  PeerView, Views, Answer, answered, panicked, graph_nodes, graph_edges, not_allowed, json_header,
  quoted, field, braces_end,
}

module _ (E : Env) where
  unfoldable pub handle_health : Views → Orders → Host E → Response → Response
  unfolding json_header write
  handle_health views o h w =
      write
        (views.encode_health (record {
          peer_id = h.self_id;
          grpc = h.grpc_addr;
          http = h.http_addr;
          active_peers = active_count o.entries h.reg;
          total_peers = length (snapshot o.entries h.reg);
        }))
        (json_header w)

  abbrev peer_views : Views → List Record → List PeerView
  peer_views views [] = []
  peer_views views (p ∷ ps) =
      record {
        id = p.id;
        grpc_addr = p.grpc_addr;
        http_addr = p.http_addr;
        state = p.state;
        last_seen = views.format_time p.last_seen;
      }
      ∷ peer_views views ps

  unfoldable pub handle_peers : Views → Orders → Host E → Response → Response
  unfolding json_header write
  handle_peers views o h w =
      write (views.encode_peers (peer_views views (snapshot o.entries h.reg))) (json_header w)

  unfoldable pub handle_graph : Views → Orders → Host E → Response → Answer
  unfolding graph_nodes graph_edges json_header write
  handle_graph views o h w =
      let peers = snapshot o.entries h.reg in
      elim (graph_nodes peers) [
        | none ↦ panicked
        | some ns ↦ answered (
            write (views.encode_graph (record { nodes = ns; edges = graph_edges h.self_id peers }))
              (json_header w))
      ]

  catalog_found : Option (List RedisCommand) → Host E → Bytes × Host E
  unfolding local_catalog
  catalog_found none h = (local_catalog E h, h)
  catalog_found (some sent) h =
      let (got, db) = E.redis.get catalog_key h.db in (or_empty got, record h { db = db })

  unfoldable pub handle_catalog : Request → Host E → Response → Response × Host E
  unfolding catalog_found not_allowed json_header write
  handle_catalog req h w =
      let (cid, h') = catalog_found h.reg.rdb h in
      if req.method == codes "GET"
      then (write (b'{' ∷ field (codes "catalog_cid") cid braces_end) (json_header w), h')
      else (not_allowed w, h)

  abbrev text_of : Result Bytes → Bytes
  text_of (ok t) = t
  text_of (err e) = e

  unfoldable pub handle_search : Views → Orders → Request → Host E → Response → Response × Host E
  unfolding inspect_cid not_allowed json_header write http_error
  handle_search views o req h w =
      let (provs, n) =
        lookup_providers E.grpc o.endpoints o.schedule h.providers h.grpc_addr
          (snapshot o.entries h.reg) req.cid h.net in
      let (info, h') = inspect_cid E o req.cid (record h { net = n }) in
      if not (req.method == codes "GET")
      then (not_allowed w, h)
      else if req.cid == []
      then (http_error (codes "missing cid") 400 w, h)
      else (
        write
            (views.encode_found
              (record { cid = req.cid; providers = provs; inspect = text_of info }))
            (json_header w),
        h',
      )

  -- An error after a part of the file has been written comes too late for a status of its own.
  unfoldable pub download_end : Option Bytes × Host E × Response → Response × Host E
  unfolding http_error
  download_end (none, h, w) = (w, h)
  download_end (some e, h, w) = (http_error e 404 w, h)

  unfoldable pub download_headers : Response → Response
  unfolding set_header
  download_headers w =
      set_header (codes "Content-Disposition")
        (codes "attachment; filename=" ++ quoted (codes "download.bin") [])
        (set_header (codes "Content-Type") (codes "application/octet-stream") w)

  unfoldable pub handle_download :
      (Response → Option Bytes) → Orders → Request → Host E → Response → Response × Host E
  unfolding download_end download_headers not_allowed http_error client
  handle_download gone o req h w =
      if not (req.method == codes "GET")
      then (not_allowed w, h)
      else if req.cid == []
      then (http_error (codes "missing cid") 400 w, h)
      else download_end (get_file E (client gone) o req.cid h (download_headers w))
