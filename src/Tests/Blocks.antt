-- ===== src/Tests/Blocks.antt =====
-- The node and its parts, run in a small world.
use p2p_distributed_system_m.Base.{
  ℕ_discrete, dec_text, ◌≡◌, ◌↔◌, refl, Bytes, codes, List, [], ◌∷◌, ◌++◌, true, none, some, ok,
  arith, inl, inr,
}
use p2p_distributed_system_m.Base.GoMap.{lookup, insert, delete}
use p2p_distributed_system_m.Base.Order.{as_stored, backwards, find_first}
use p2p_distributed_system_m.Gen.{PeerEndpoint, StoreBlockRequest}
use p2p_distributed_system_m.Peer.Record.{Record, State-discrete, active}
use p2p_distributed_system_m.Coordinator.Rpc.{
  pings, serve_get_block, serve_store_block, join_self, joining,
}
use p2p_distributed_system_m.Coordinator.Loops.Events.{
  Event, serves, heartbeats, cleanups, merges, happen_all, happen_all-new_host-IsSound,
}
use p2p_distributed_system_m.Coordinator.Rpc.Joining.{lists_id, join_self_accepted}
use p2p_distributed_system_m.Peer.Registry.{upsert, new_registry, is_stale}
use p2p_distributed_system_m.Peer.Registry.Upsert.{admitted}
use p2p_distributed_system_m.Coordinator.Rpc.Serving.{IsSound, get_block-store_block}
use p2p_distributed_system_m.Network.Pool.{new_pool, with_client}
use p2p_distributed_system_m.Os.{buffer}
use p2p_distributed_system_m.Merkle.{new_file_node, encode_canonical_json}
use p2p_distributed_system_m.Dht.Providers.{ProviderRecords, add, new_provider_records}
use p2p_distributed_system_m.Dht.Lookup.{lookup_providers}
use p2p_distributed_system_m.Dht.Lookup.Distinct.{AreDistinct, lookup_providers-AreDistinct}
use p2p_distributed_system_m.Replication.{
  replicate_to_addrs, fetch_block, verified, get_from, select_replica_peer_ids,
}
use p2p_distributed_system_m.Replication.Laws.{
  AllAccept, replicate_to_addrs_iff, fetch_block_verified, fetch_block_falls_back,
}
use p2p_distributed_system_m.Coordinator.Host.{new_host}
use p2p_distributed_system_m.Coordinator.Files.{
  add_file, get_file, replicate_all, write_file_bundle, write_block, write_chunks, provide_all,
  replicate_block,
}
use p2p_distributed_system_m.Dht.Xor.{key_from_hex}
use p2p_distributed_system_m.Coordinator.Files.Roundtrip.{get_file-add_file}
use p2p_distributed_system_m.Tests.World.{
  blocks, blocks-StorageLaws, texts-JsonLaws, echo, at_b, at_down, net, env, orders, config, files,
  host, host-IsSound,
}

abbrev addrs : List Bytes
addrs = codes "b:1" ∷ codes "down" ∷ []

replicate_to_addrs_iff_example :
    ((replicate_to_addrs echo addrs (codes "x") (codes "x") net).0 ≡ none)
    ↔ AllAccept echo (codes "x") (codes "x") addrs net
replicate_to_addrs_iff_example = replicate_to_addrs_iff echo (codes "x") (codes "x") addrs net

abbrev provs : List PeerEndpoint
provs = at_down ∷ at_b ∷ []

fetch_block_falls_back_example : (fetch_block echo blocks (codes "#x") provs net).0 ≡ ok (codes "x")
unfolding lookup new_pool dec_text ℕ_discrete verified get_from with_client
fetch_block_falls_back_example =
    fetch_block_falls_back echo blocks (codes "#x") provs net (codes "x") (
      inr (λ e. ground arith, inr ((codes "unavailable", refl), inr (λ e. ground arith, inl refl))))

fetch_block_verified_example : blocks.verify_cid (codes "#x") (codes "x") ≡ none
unfolding fetch_block lookup new_pool dec_text ℕ_discrete verified get_from with_client
fetch_block_verified_example =
    fetch_block_verified echo blocks (codes "#x") provs net (codes "x") refl

abbrev provided : ProviderRecords
provided = add (codes "x") (some at_b) new_provider_records

abbrev peer_b : Record
peer_b = record {
  id = codes "b";
  grpc_addr = codes "b:1";
  http_addr = codes "b:2";
  state = active;
  last_seen = 5;
  joined_at = 0;
}

lookup_providers-AreDistinct_example :
    AreDistinct
      (lookup_providers echo as_stored backwards provided
        (codes "a:1")
        (peer_b ∷ [])
        (codes "x")
        net).0
lookup_providers-AreDistinct_example =
    lookup_providers-AreDistinct echo (codes "x") as_stored backwards provided (codes "a:1")
      (peer_b ∷ []) net

get_file-add_file_example :
    get_file env buffer orders (codes "##hello") (add_file env orders (codes "path") host).1 []
    ≡ (none, (add_file env orders (codes "path") host).1, [] ++ codes "hello")
unfolding add_file dec_text ℕ_discrete encode_canonical_json new_file_node replicate_all
    write_file_bundle write_block write_chunks provide_all replicate_block select_replica_peer_ids
    key_from_hex lookup new_host
get_file-add_file_example =
    get_file-add_file env blocks-StorageLaws texts-JsonLaws orders orders (codes "path")
      (codes "hello") [] host (codes "##hello") refl refl

abbrev request : StoreBlockRequest
request = record { cid = codes "y"; block = codes "x" }

get_block-store_block_example :
    serve_get_block env
      (some (record { cid = codes "#x" }))
      (serve_store_block env (some request) host).1
    ≡ ok (record { block = codes "x"; error_message = [] })
unfolding serve_store_block dec_text ℕ_discrete
get_block-store_block_example = get_block-store_block env blocks-StorageLaws request host refl

abbrev events : List (Event env)
events =
    merges orders (λ k j. (40, 41))
      (ok (record { peer_id = codes "b"; grpc_addr = codes "b:1"; http_addr = codes "b:2" } ∷ []))
    ∷ heartbeats orders 50 51 (λ rec. 52)
    ∷ serves (pings 60 none)
    ∷ cleanups orders 70
    ∷ []

happen_all-new_host-IsSound_example :
    IsSound env (
      happen_all env events (new_host env orders 10 config (codes "a") none [] files tt (none, [])))
happen_all-new_host-IsSound_example =
    happen_all-new_host-IsSound env orders 10 config (codes "a") none [] files tt (none, []) events

join_self_accepted_example :
    (lookup (codes "b") (join_self env orders 30 31 (some at_b) host).1.reg.peers
      ≡ some (admitted 31 (joining 30 at_b) (lookup (codes "b") host.reg.peers)))
    × (lists_id (codes "b") (join_self env orders 30 31 (some at_b) host).0.known_peers ≡ true)
unfolding join_self upsert dec_text ℕ_discrete State-discrete lookup find_first new_registry insert
    delete is_stale new_host
join_self_accepted_example =
    join_self_accepted env orders 30 31 at_b host host-IsSound.registry refl
