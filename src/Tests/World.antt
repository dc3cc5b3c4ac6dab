-- ===== src/Tests/World.antt =====
-- A small world: a block store that keeps blocks under marked identifiers, JSON
-- texts of one-chunk files, and a network in which every node answers with what it was asked for.
use p2p_distributed_system_m.Base.{
  false, Option, ◌≡◌, ◌≢◌, ◌∙◌, refl, sym, ap, Bytes, codes, List, [], ◌∷◌, true, none, some,
  Result, ok, err, arith, if◌then◌else◌, ◌==◌, inl, inr, Bool-cases, Result-cases,
}
use p2p_distributed_system_m.Base.GoMap.{GoMap}
use p2p_distributed_system_m.Base.Order.{as_stored, backwards}
use p2p_distributed_system_m.Gen.{PeerEndpoint}
use p2p_distributed_system_m.Peer.Record.{Record, active}
use p2p_distributed_system_m.Peer.Registry.Validity.{upsert-IsValid, new_registry-IsValid}
use p2p_distributed_system_m.Coordinator.Rpc.Serving.{IsSound}
use p2p_distributed_system_m.Network.{Grpc}
use p2p_distributed_system_m.Network.Pool.{Net, new_pool}
use p2p_distributed_system_m.Storage.{Storage, StorageLaws, CidLaws}
use p2p_distributed_system_m.Merkle.{
  FileNode, node_type_file, Json, encode_canonical_json, JsonLaws,
}
use p2p_distributed_system_m.Dht.Providers.{new_provider_records}
use p2p_distributed_system_m.Coordinator.Host.{Redis, Env, Orders, Host, Config, new_host}
use p2p_distributed_system_m.Tests.Disk.{disk}
use p2p_distributed_system_m.Tests.Store.{store_by, store_by-StorageLaws, store_by-CidLaws}

-- The identifier of a block is the block after a mark.
abbrev pub mark : Bytes → Bytes
mark b = b'#' ∷ b

abbrev pub unmark : Bytes → Bytes
unmark [] = []
unmark (c ∷ cs) = cs

abbrev pub blocks : Storage disk
blocks = store_by mark

mark-injective : (b d : Bytes) → mark b ≡ mark d → b ≡ d
mark-injective b d h = ground arith

mark-ne-nil : (b : Bytes) → mark b ≢ []
mark-ne-nil b h = absurd (ground (arith, h))

pub blocks-StorageLaws : StorageLaws blocks
blocks-StorageLaws = store_by-StorageLaws mark mark-injective mark-ne-nil

pub blocks-CidLaws : CidLaws blocks
blocks-CidLaws = store_by-CidLaws mark mark-injective mark-ne-nil

-- A file node of one chunk is written as the chunk.
abbrev pub one_chunk : Bytes → List Bytes → Result Bytes
one_chunk node_type [] = err (codes "no chunk")
one_chunk node_type (c ∷ []) = if node_type == node_type_file then ok c else err (codes "no file")
one_chunk node_type (c ∷ d ∷ cs) = err (codes "more than one chunk")

abbrev pub file_of : Bytes → List Bytes → FileNode
file_of t cs = record { node_type = t; chunks = cs }

abbrev pub texts : Json
texts = record {
  Any = Bytes;
  marshal_file = λ v. one_chunk v.node_type v.chunks;
  unmarshal_any = ok;
  marshal_any = ok;
  unmarshal_file = λ b. ok (record { node_type = node_type_file; chunks = b ∷ [] });
  unmarshal_directory = λ b. err (codes "no directory");
  left_in_file = λ b. file_of node_type_file (b ∷ []);
  left_in_directory = λ b. record { node_type = codes "directory"; entries = [] };
  unmarshal_type = λ b. ok node_type_file;
}

pub one_chunk_read :
    (t : Bytes) (cs : List Bytes) (b : Bytes)
    → one_chunk t cs ≡ ok b
    → file_of node_type_file (b ∷ []) ≡ file_of t cs
one_chunk_read t [] b h = absurd (ground arith)
one_chunk_read t (c ∷ []) b h = elim (Bool-cases (t == node_type_file)) [
  | inl e ↦
      let is_file : node_type_file ≡ t = ground arith in
      let same : b ≡ c = ground arith in λ i. file_of (is_file i) (same i ∷ [])
  | inr e ↦ absurd (ground arith)
]
one_chunk_read t (c ∷ d ∷ cs) b h = absurd (ground arith)

pub encode_texts : (v : FileNode) → encode_canonical_json texts v ≡ one_chunk v.node_type v.chunks
unfolding encode_canonical_json
encode_texts v = elim (Result-cases (one_chunk v.node_type v.chunks)) [
  | inl (b, e) ↦ rw e refl
  | inr (x, e) ↦ rw e refl
]

pub texts-JsonLaws : JsonLaws texts
texts-JsonLaws = record {
  canonical = λ v b h. ap ok (one_chunk_read v.node_type v.chunks b (sym (encode_texts v) ∙ h));
}

abbrev pub echo : Grpc
echo = record {
  World = Unit {0};
  Conn = Bytes;
  dial = λ addr w. if addr == codes "down" then (err (codes "unavailable"), w) else (ok addr, w);
  close = λ c w. (none, w);
  ping = λ c req w. (ok none, w);
  store_block = λ c req w. (ok (some (record { ok = true; error_message = [] })), w);
  get_block = λ c req w. (ok (some (record { block = unmark req.cid; error_message = [] })), w);
  find_provider = λ c req w. (ok (some (record { providers = none ∷ [] })), w);
  join_network = λ c req w. (ok none, w);
}

abbrev pub at_b : PeerEndpoint
at_b = record { peer_id = codes "b"; grpc_addr = codes "b:1"; http_addr = codes "b:2" }

abbrev pub at_down : PeerEndpoint
at_down = record { peer_id = codes "d"; grpc_addr = codes "down"; http_addr = [] }

abbrev pub net : Net echo
net = new_pool echo tt

-- A Redis with the holder of a lock and one value.
abbrev pub one_lock : Redis
one_lock = record {
  Db = Option Bytes × Bytes;
  set_nx = λ key value ttl db. elim db.0 [
    | none ↦ (ok true, (some value, db.1))
    | some holder ↦ (ok false, db)
  ];
  get = λ key db. (ok db.1, db);
  set = λ key value db. (none, (db.0, value));
  del = λ key db. (none, db.1);
  wait = λ db. db;
}

abbrev pub env : Env
env = record { grpc = echo; storage = blocks; json = texts; disk = disk; redis = one_lock }

abbrev pub orders : Orders
orders = record {
  stale = as_stored;
  evict = backwards;
  entries = as_stored;
  endpoints = backwards;
  schedule = as_stored;
}

abbrev pub config : Config
config = record {
  data_dir = codes "data";
  grpc_listen_addr = codes "a:1";
  http_listen_addr = codes "a:2";
  bootstrap_url = [];
  replication_factor = 0;
}

abbrev pub files : GoMap Bytes
files = (codes "path", codes "hello") ∷ []

abbrev pub host : Host env
host = new_host env orders 10 config (codes "a") none [] files tt (none, [])

abbrev pub self_record : Record
self_record = record {
  id = codes "a";
  grpc_addr = codes "a:1";
  http_addr = codes "a:2";
  state = active;
  last_seen = 10;
  joined_at = 0;
}

pub host-IsSound : IsSound env host
unfolding new_host new_provider_records
host-IsSound = record {
  registry =
      upsert-IsValid as_stored backwards 10 (some self_record) _
        (new_registry-IsValid (codes "a") none);
  records = tt;
}
