-- ===== src/Tests/Keyed.antt =====
-- A node that adds a file and a node that is chosen for its blocks, over a block store whose identifiers
-- are keys.
use p2p_distributed_system_m.Base.{
  ℕ, ◌≡◌, ◌≢◌, Bytes, codes, [], ◌∷◌, none, some, arith, if◌then◌else◌, ◌==◌,
}
use p2p_distributed_system_m.Base.Order.{as_stored, backwards}
use p2p_distributed_system_m.Gen.{PeerEndpoint}
use p2p_distributed_system_m.Network.Pool.{new_pool}
use p2p_distributed_system_m.Peer.Registry.{new_registry, upsert}
use p2p_distributed_system_m.Dht.Providers.{new_provider_records}
use p2p_distributed_system_m.Coordinator.Host.{Env, Host, new_host}
use p2p_distributed_system_m.Coordinator.Rpc.{joining}
use p2p_distributed_system_m.Cluster.{Nodes, in_cluster}
use p2p_distributed_system_m.Tests.Store.{store_by}
use p2p_distributed_system_m.Tests.World.{env, orders, config, files}

-- Two blocks have identifiers that are given, and every other one is marked.
module _ (hello first second : Bytes) where
  abbrev keyed : Bytes → Bytes
  keyed b = if b == hello then first else if b == first then second else b'#' ∷ b

  keyed-ne-nil : first ≢ [] → second ≢ [] → (b : Bytes) → keyed b ≢ []
  keyed-ne-nil p q b h = absurd (ground (arith, p, q, h))

  module _ (unmarked_first : (b : Bytes) → b'#' ∷ b ≢ first)
      (unmarked_second : (b : Bytes) → b'#' ∷ b ≢ second) (differ : first ≢ second) where
    keyed-injective : (b d : Bytes) → keyed b ≡ keyed d → b ≡ d
    keyed-injective b d h =
        ground (
          arith,
          h,
          differ,
          unmarked_first b,
          unmarked_first d,
          unmarked_second b,
          unmarked_second d,
        )

abbrev id_a : Bytes
id_a = codes "aa00000000000000000000000000000000000000000000000000000000000000"

abbrev pub id_b : Bytes
id_b = codes "bb00000000000000000000000000000000000000000000000000000000000000"

abbrev pub chunk : Bytes
chunk = codes "cc00000000000000000000000000000000000000000000000000000000000000"

abbrev pub root : Bytes
root = codes "dd00000000000000000000000000000000000000000000000000000000000000"

abbrev pub name : Bytes → Bytes
name = keyed (codes "hello") chunk root

pub name-ne-nil : (b : Bytes) → name b ≢ []
name-ne-nil =
    keyed-ne-nil (codes "hello") chunk root (λ e. absurd (ground (arith, e)))
      (λ e. absurd (ground (arith, e)))

pub name-injective : (b d : Bytes) → name b ≡ name d → b ≡ d
name-injective =
    keyed-injective (codes "hello") chunk root (λ b e. absurd (ground (arith, e)))
      (λ b e. absurd (ground (arith, e))) (λ e. absurd (ground (arith, e)))

abbrev pub world : Env
world = record env { storage = store_by name }

abbrev pub time : Nodes world → ℕ × ℕ
time w = (20, 21)

abbrev at_b : PeerEndpoint
at_b = record { peer_id = id_b; grpc_addr = codes "b:1"; http_addr = codes "b:2" }

abbrev pub peer : Host world
peer = record {
  self_id = id_b;
  grpc_addr = codes "b:1";
  http_addr = codes "b:2";
  data_dir = codes "data";
  bootstrap = [];
  repl_factor = 3;
  store = [];
  reg = new_registry id_b none;
  rtm = (new_host world orders 10 config id_b none [] files tt (none, [])).rtm;
  providers = new_provider_records;
  net = new_pool world.grpc tt;
  files = [];
  local_catalog_cid = [];
  db = (none, []);
}

abbrev pub nodes : Nodes world
nodes = (codes "b:1", peer) ∷ []

abbrev pub adder : Host (in_cluster world orders time)
adder =
    record (new_host (in_cluster world orders time) orders 10 config id_a none [] files nodes
      (none, [])) {
        reg = (upsert as_stored backwards 10 (some (joining 10 at_b)) (new_registry id_a none)).0;
      }
