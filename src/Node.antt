-- ===== src/Node.antt =====
-- cmd/node: the flags of `node serve` (config.go) and its start (main.go). Go's package `flag` is a
-- parameter, which knows of the text flags and the number flags with their defaults; a number below 0 is
-- told of as 0. `listens` is the error of `net.Listen`, or none.
pub mod Start
use p2p_distributed_system_m.Base.{
  ℕ, Bytes, codes, List, [], ◌∷◌, ◌++◌, Option, none, some, Result, ok, err, if◌then◌else◌, ◌==◌,
}
use p2p_distributed_system_m.Peer.Registry.{RedisCommand}
use p2p_distributed_system_m.Coordinator.Host.{Env, Orders, Config, Host}
use p2p_distributed_system_m.Coordinator.Identity.{new_peer_host}

pub record ServeConfig : Type 0 where
  pub data_dir : Bytes
  pub grpc_addr : Bytes
  pub http_addr : Bytes
  pub advertise_grpc : Bytes
  pub advertise_http : Bytes
  pub bootstrap_url : Bytes
  pub replication_factor : ℕ

-- The values of the flags after parsing.
pub record ServeFlags : Type 0 where
  pub text : Bytes → Bytes
  pub number : Bytes → ℕ

abbrev pub ServeParser : Type 0
ServeParser = List (Bytes × Bytes) → List (Bytes × ℕ) → List Bytes → Result ServeFlags

abbrev pub text_flags : List (Bytes × Bytes)
text_flags =
    (codes "data", codes "storage/node1")
    ∷ (codes "grpc", codes "127.0.0.1:50051")
    ∷ (codes "http", codes "127.0.0.1:8080")
    ∷ (codes "advertise-grpc", [])
    ∷ (codes "advertise-http", [])
    ∷ (codes "bootstrap", [])
    ∷ []

abbrev pub number_flags : List (Bytes × ℕ)
number_flags = (codes "replication", 3) ∷ []

abbrev pub serve_config : ServeFlags → ServeConfig
serve_config fs = record {
  data_dir = fs.text (codes "data");
  grpc_addr = fs.text (codes "grpc");
  http_addr = fs.text (codes "http");
  advertise_grpc = fs.text (codes "advertise-grpc");
  advertise_http = fs.text (codes "advertise-http");
  bootstrap_url = fs.text (codes "bootstrap");
  replication_factor = fs.number (codes "replication");
}

unfoldable pub parse_serve_flags : ServeParser → List Bytes → Result ServeConfig
parse_serve_flags parse args = elim (parse text_flags number_flags args) [
  | err e ↦ err e
  | ok fs ↦ ok (serve_config fs)
]

-- The address that others are told: the one to advertise, or else the one to listen on.
unfoldable pub advertised : Bytes → Bytes → Bytes
advertised listen advertise = if advertise == [] then listen else advertise

unfoldable pub host_config : ServeConfig → Config
unfolding advertised
host_config cfg = record {
  data_dir = cfg.data_dir;
  grpc_listen_addr = advertised cfg.grpc_addr cfg.advertise_grpc;
  http_listen_addr = advertised cfg.http_addr cfg.advertise_http;
  bootstrap_url = cfg.bootstrap_url;
  replication_factor = cfg.replication_factor;
}

module _ (E : Env) (o : Orders) (now : ℕ) (entropy : Result Bytes)
    (rdb : Option (List RedisCommand)) (world : E.grpc.World) (db : E.redis.Db)
    (listens : Bytes → Option Bytes) where
  unfoldable pub listening : Bytes → Host E → Option Bytes → Result (Host E)
  listening addr h (some e) = err (codes "grpc listen: " ++ e)
  listening addr h none = ok h

  unfoldable pub after_host :
      Bytes → Result (Host E) × E.disk.Files → Result (Host E) × E.disk.Files
  unfolding listening
  after_host addr (err e, files) = (err e, files)
  after_host addr (ok h, files) = (listening addr h (listens addr), files)

  unfoldable pub start : Result ServeConfig → E.disk.Files → Result (Host E) × E.disk.Files
  unfolding host_config after_host
  start (err e) files = (err e, files)
  start (ok cfg) files =
      if cfg.data_dir == []
      then (err (codes "-data required"), files)
      else after_host cfg.grpc_addr
          (new_peer_host E o now (host_config cfg) entropy rdb files world db)

  -- `runServe` up to the point where the node listens on its gRPC address, before its loops have run.
  unfoldable pub run_serve :
      ServeParser → List Bytes → E.disk.Files → Result (Host E) × E.disk.Files
  unfolding start parse_serve_flags
  run_serve parse args files = start (parse_serve_flags parse args) files
