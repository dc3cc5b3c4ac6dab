-- ===== src/Coordinator/Identity.antt =====
-- The identity of a node: `loadOrCreatePeerID`, `bytesTrim` and `NewPeerHost` of
-- internal/coordinator/node.go. `entropy` is what `io.ReadFull` reads from `rand.Reader`: 32 bytes or an
-- error.
pub mod Reload
use p2p_distributed_system_m.Base.{
  ℕ, Bytes, codes, List, [], ◌∷◌, ◌++◌, Bool, true, false, ◌||◌, Option, none, some, Result, ok,
  err, eqb, length, if◌then◌else◌, ◌==◌,
}
use mathlib.Core.List.{reverse}
use p2p_distributed_system_m.Base.Hex.{encode_to_string}
use p2p_distributed_system_m.Os.{Disk, join}
use p2p_distributed_system_m.Peer.Registry.{RedisCommand}
use p2p_distributed_system_m.Dht.Xor.{key_from_hex}
use p2p_distributed_system_m.Coordinator.Host.{Env, Orders, Config, Host, new_host}

abbrev is_blank : ℕ → Bool
is_blank c = eqb c 32 || (eqb c 10 || eqb c 13)

unfoldable pub drop_blank : Bytes → Bytes
drop_blank [] = []
drop_blank (c ∷ cs) = if is_blank c then drop_blank cs else c ∷ cs

-- `bytesTrim`: first the blanks at the start, then those at the end.
unfoldable pub bytes_trim : Bytes → Bytes
unfolding drop_blank
bytes_trim b = reverse (drop_blank (reverse (drop_blank b)))

abbrev is_key : Option Bytes → Bool
is_key none = false
is_key (some k) = true

-- The ID that a file holds, if it holds one.
unfoldable pub id_in : Result Bytes → Option Bytes
unfolding bytes_trim
id_in (err e) = none
id_in (ok b) =
    let s = bytes_trim b in
    if eqb (length s) 64 then (if is_key (key_from_hex s) then some s else none) else none

module _ (D : Disk) where
  unfoldable pub written_id : Bytes → Option Bytes × D.Files → Result Bytes × D.Files
  written_id s (none, files) = (ok s, files)
  written_id s (some e, files) = (err e, files)

  unfoldable pub created_id : Bytes → Result Bytes → D.Files → Result Bytes × D.Files
  unfolding written_id
  created_id path (err e) files = (err e, files)
  created_id path (ok buf) files =
      let s = encode_to_string buf in written_id s (D.write_file path (s ++ 10 ∷ []) files)

  unfoldable pub load_or_create_peer_id : Bytes → Result Bytes → D.Files → Result Bytes × D.Files
  unfolding created_id id_in
  load_or_create_peer_id path entropy files = elim (id_in (D.read_file path files)) [
    | some s ↦ (ok s, files)
    | none ↦ created_id path entropy files
  ]

module _ (E : Env) where
  -- What is built once the ID and the store are there.
  unfoldable pub opened_host :
      Orders
      → ℕ
      → Config
      → Bytes
      → Option (List RedisCommand)
      → E.grpc.World
      → E.redis.Db
      → Result E.storage.Store × E.disk.Files
      → Result (Host E) × E.disk.Files
  opened_host o now cfg pid rdb world db (err e, files) = (err e, files)
  opened_host o now cfg pid rdb world db (ok store, files) =
      (ok (new_host E o now cfg pid rdb store files world db), files)

  unfoldable pub identified_host :
      Orders
      → ℕ
      → Config
      → Option (List RedisCommand)
      → E.grpc.World
      → E.redis.Db
      → Result Bytes × E.disk.Files
      → Result (Host E) × E.disk.Files
  unfolding opened_host
  identified_host o now cfg rdb world db (err e, files) = (err e, files)
  identified_host o now cfg rdb world db (ok pid, files) =
      opened_host o now cfg pid rdb world db (E.storage.new_store cfg.data_dir files)

  -- `NewPeerHost`.
  unfoldable pub new_peer_host :
      Orders
      → ℕ
      → Config
      → Result Bytes
      → Option (List RedisCommand)
      → E.disk.Files
      → E.grpc.World
      → E.redis.Db
      → Result (Host E) × E.disk.Files
  unfolding identified_host
  new_peer_host o now cfg entropy rdb files world db =
      let (e, made) = E.disk.mkdir_all cfg.data_dir files in
      let rest =
        identified_host o now cfg rdb world db
          (load_or_create_peer_id E.disk (join cfg.data_dir (codes "peer.id")) entropy made) in
      if cfg.data_dir == []
      then (err (codes "data dir required"), files)
      else elim e [ some x ↦ (err x, made) | none ↦ rest ]
