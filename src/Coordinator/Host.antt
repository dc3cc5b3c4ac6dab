-- ===== src/Coordinator/Host.antt =====
-- The state of `PeerHost` (node.go) and the parts of the outside that it uses: gRPC, the block store,
-- JSON and the disk. What the registry sends to Redis is a log of commands; the catalog, which uses
-- other keys of the same server, calls it as a client, and `db` is all that stands behind the client.
use p2p_distributed_system_m.Base.{
  Bool, Result, ℕ, Bytes, List, [], Option, some, ltb, if◌then◌else◌,
}
use p2p_distributed_system_m.Base.Order.{RangeOrder}
use p2p_distributed_system_m.Gen.{PeerEndpoint}
use p2p_distributed_system_m.Network.{Grpc}
use p2p_distributed_system_m.Network.Pool.{Net, new_pool}
use p2p_distributed_system_m.Os.{Disk}
use p2p_distributed_system_m.Storage.{Storage}
use p2p_distributed_system_m.Merkle.{Json}
use p2p_distributed_system_m.Peer.Record.{active}
use p2p_distributed_system_m.Peer.Registry.{Registry, RedisCommand, Entry, new_registry, upsert}
use p2p_distributed_system_m.Peer.Manager.{Manager, new_manager}
use p2p_distributed_system_m.Dht.Providers.{ProviderRecords, new_provider_records}

-- The Redis client: an answer may depend on all that went before and on what other nodes do meanwhile.
-- `set_nx` says whether the value was set, and `wait` is the time between two tries.
pub record Redis : Type 1 where
  pub Db : Type 0
  pub set_nx : Bytes → Bytes → ℕ → Db → Result Bool × Db
  pub get : Bytes → Db → Result Bytes × Db
  pub set : Bytes → Bytes → Db → Option Bytes × Db
  pub del : Bytes → Db → Db
  pub wait : Db → Db

pub record Env : Type 1 where
  pub grpc : Grpc
  pub disk : Disk
  pub storage : Storage disk
  pub json : Json
  pub redis : Redis

-- The orders of the loops over maps, and the order in which the goroutines of a lookup answer.
pub record Orders : Type 0 where
  pub stale : RangeOrder Entry
  pub evict : RangeOrder Entry
  pub entries : RangeOrder Entry
  pub endpoints : RangeOrder (Bytes × PeerEndpoint)
  pub schedule : RangeOrder Bytes

pub record Config : Type 0 where
  pub data_dir : Bytes
  pub grpc_listen_addr : Bytes
  pub http_listen_addr : Bytes
  pub bootstrap_url : Bytes
  pub replication_factor : ℕ

-- `net` is the pool with the outside behind it; the replication manager shares it.
pub record Host (E : Env) : Type 0 where
  pub self_id : Bytes
  pub grpc_addr : Bytes
  pub http_addr : Bytes
  pub data_dir : Bytes
  pub bootstrap : Bytes
  pub repl_factor : ℕ
  pub store : E.storage.Store
  pub reg : Registry
  pub rtm : Manager
  pub providers : ProviderRecords
  pub net : Net E.grpc
  pub files : E.disk.Files
  pub local_catalog_cid : Bytes
  pub db : E.redis.Db

module _ (E : Env) where
  unfoldable pub self_endpoint : Host E → PeerEndpoint
  self_endpoint h = record { peer_id = h.self_id; grpc_addr = h.grpc_addr; http_addr = h.http_addr }

  -- The host that `NewPeerHost` builds once the ID is known and the store is open: the registry knows
  -- the node itself, and a replication factor below 1 is 3.
  unfoldable pub new_host :
      Orders
      → ℕ
      → Config
      → Bytes
      → Option (List RedisCommand)
      → E.storage.Store
      → E.disk.Files
      → E.grpc.World
      → E.redis.Db
      → Host E
  unfolding new_registry upsert new_manager new_provider_records new_pool
  new_host o now cfg pid rdb store files world db = record {
    self_id = pid;
    grpc_addr = cfg.grpc_listen_addr;
    http_addr = cfg.http_listen_addr;
    data_dir = cfg.data_dir;
    bootstrap = cfg.bootstrap_url;
    repl_factor = if ltb cfg.replication_factor 1 then 3 else cfg.replication_factor;
    store = store;
    reg =
        (upsert o.stale o.evict now
          (some (record {
            id = pid;
            grpc_addr = cfg.grpc_listen_addr;
            http_addr = cfg.http_listen_addr;
            state = active;
            last_seen = now;
            joined_at = 0;
          }))
          (new_registry pid rdb)).0;
    rtm = new_manager;
    providers = new_provider_records;
    net = new_pool E.grpc world;
    files = files;
    local_catalog_cid = [];
    db = db;
  }
