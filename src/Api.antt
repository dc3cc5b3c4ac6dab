-- ===== src/Api.antt =====
-- internal/api: the HTTP API over a node. Here are the answers, and what the handlers compute without
-- the node.
pub mod Handlers
pub mod Upload
pub mod Routes
pub mod Extension
pub mod Graph
pub mod Transfer
use p2p_distributed_system_m.Base.{
  ℕ, Bytes, codes, List, [], ◌∷◌, ◌++◌, Bool, ◌&&◌, not, Option, none, some, Result, ok, err,
  if◌then◌else◌, ◌==◌, ltb, eqb, length, take,
}
use mathlib.Core.List.{reverse}
use p2p_distributed_system_m.Gen.{PeerEndpoint}
use p2p_distributed_system_m.Http.{
  Request, FormFile, Response, new_response, set_header, write_header, write, http_error, client,
}
use p2p_distributed_system_m.Peer.Record.{Record, State, active}
use p2p_distributed_system_m.Peer.Registry.{RedisCommand, ◌is◌, snapshot, active_count}
use p2p_distributed_system_m.Dht.Lookup.{lookup_providers}
use p2p_distributed_system_m.Coordinator.Host.{Env, Orders, Host}
use p2p_distributed_system_m.Coordinator.Files.{add_file, get_file}
use p2p_distributed_system_m.Coordinator.Inspect.{inspect_cid}
use p2p_distributed_system_m.Coordinator.Catalog.{
  catalog_key, update_global_catalog, local_catalog, or_empty,
}

pub record Health : Type 0 where
  pub peer_id : Bytes
  pub grpc : Bytes
  pub http : Bytes
  pub active_peers : ℕ
  pub total_peers : ℕ

pub record PeerView : Type 0 where
  pub id : Bytes
  pub grpc_addr : Bytes
  pub http_addr : Bytes
  pub state : State
  pub last_seen : Bytes

pub record GraphNode : Type 0 where
  pub id : Bytes
  pub label : Bytes
  pub state : State

pub record PeerGraph : Type 0 where
  pub nodes : List GraphNode
  pub edges : List (Bytes × Bytes)

pub record SearchAnswer : Type 0 where
  pub cid : Bytes
  pub providers : List PeerEndpoint
  pub inspect : Bytes

-- What `json.NewEncoder(w).Encode` writes, and `time.Time.Format` in UTC.
pub record Views : Type 0 where
  pub encode_health : Health → Bytes
  pub encode_peers : List PeerView → Bytes
  pub encode_graph : PeerGraph → Bytes
  pub encode_found : SearchAnswer → Bytes
  pub format_time : ℕ → Bytes

-- A handler answers, or panics; then the server breaks the connection off.
pub data Answer : Type 0 where
  answered : Response → Answer
  panicked : Answer

-- The loop of `handleUpload` from the end of the name to its last dot; `tail` is the part behind.
unfoldable pub from_last_dot : Bytes → Bytes → Bytes
from_last_dot [] tail = codes "unknown"
from_last_dot (c ∷ cs) tail = if eqb c b'.' then c ∷ tail else from_last_dot cs (c ∷ tail)

unfoldable pub extension : Bytes → Bytes
unfolding from_last_dot
extension name = if name == [] then [] else from_last_dot (reverse name) []

-- `p.ID[:8]` panics on a shorter text.
unfoldable pub label : Bytes → Option Bytes
label id = if ltb (length id) 8 then none else some (take 8 id)

node_and : Record → Option Bytes → Option (List GraphNode) → Option (List GraphNode)
node_and p (some l) (some ns) = some (record { id = p.id; label = l; state = p.state } ∷ ns)
node_and p _ _ = none

unfoldable pub graph_nodes : List Record → Option (List GraphNode)
unfolding node_and label
graph_nodes [] = some []
graph_nodes (p ∷ ps) = node_and p (label p.id) (graph_nodes ps)

unfoldable pub graph_edges : Bytes → List Record → List (Bytes × Bytes)
graph_edges self [] = []
graph_edges self (p ∷ ps) =
    let rest = graph_edges self ps in
    if (p.state is active) && not (p.id == self) then (self, p.id) ∷ rest else rest

unfoldable pub not_allowed : Response → Response
unfolding http_error
not_allowed w = http_error (codes "method not allowed") 405 w

unfoldable pub json_header : Response → Response
unfolding set_header
json_header w = set_header (codes "Content-Type") (codes "application/json") w

abbrev pub quoted : Bytes → Bytes → Bytes
quoted text rest = b'"' ∷ (text ++ (b'"' ∷ rest))

abbrev pub field : Bytes → Bytes → Bytes → Bytes
field name value rest = quoted name (b':' ∷ quoted value rest)

abbrev pub braces_end : Bytes
braces_end = b'}' ∷ 10 ∷ []

-- The body of an answer to an upload.
unfoldable pub uploaded_text : Bytes → Bytes → Bytes
uploaded_text root catalog_cid =
    b'{' ∷ field (codes "root_cid") root (b',' ∷ field (codes "catalog_cid") catalog_cid braces_end)
