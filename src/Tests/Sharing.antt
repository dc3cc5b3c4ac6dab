-- ===== src/Tests/Sharing.antt =====
-- A file that is added on one node, and the other node that is chosen for its blocks.
use p2p_distributed_system_m.Base.{
  ℕ_discrete, dec_text, Bool-cases, inl, inr, ◌≡◌, ◌≢◌, ap, ◌∙◌, refl, sym, subst, Bytes, codes,
  List, [], ◌∷◌, ◌++◌, none, some, ok, false, arith, ◌==◌,
}
use mathlib.Core.List.{Memᴰ}
use p2p_distributed_system_m.Base.GoMap.{lookup, insert}
use p2p_distributed_system_m.Base.Hex.{decode_string, hex_value}
use p2p_distributed_system_m.Base.Order.{find_first}
use p2p_distributed_system_m.Os.{buffer}
use p2p_distributed_system_m.Network.Pool.{new_pool}
use p2p_distributed_system_m.Merkle.{new_file_node, encode_canonical_json}
use p2p_distributed_system_m.Peer.Record.{State-discrete}
use p2p_distributed_system_m.Peer.Registry
use p2p_distributed_system_m.Peer.Registry.{
  Registry, new_registry, upsert, snapshot, prune_stale, update_or_add, add_peer,
}
use p2p_distributed_system_m.Dht.Providers.{new_provider_records, providers_of}
use p2p_distributed_system_m.Dht.Providers.Laws.{provider}
use p2p_distributed_system_m.Dht.Xor.{key_from_hex, distance}
use p2p_distributed_system_m.Dht.Routing.{closest_peer_ids}
use p2p_distributed_system_m.Replication.{select_replica_peer_ids}
use p2p_distributed_system_m.Coordinator.Host.{Host, new_host, self_endpoint}
use p2p_distributed_system_m.Coordinator.Files.{
  add_file, get_file, addr_of, addrs_of, replicate_all, replicate_block, write_file_bundle,
  write_block, write_chunks, provide_all,
}
use p2p_distributed_system_m.Cluster.{Nodes, in_cluster}
use p2p_distributed_system_m.Cluster.Calls.{IsPool}
use p2p_distributed_system_m.Cluster.Copying.{chosen}
use p2p_distributed_system_m.Cluster.Adding.{add_file-Shared}
use p2p_distributed_system_m.Cluster.Delivering.{AreHonest, get_file-add_file_elsewhere}
use p2p_distributed_system_m.Cluster.Reading.{Knows}
use p2p_distributed_system_m.Cluster.Records.{Names, RecordsName}
use p2p_distributed_system_m.Dht.Lookup.{to_ask}
use p2p_distributed_system_m.Tests.Store.{store_by-StorageLaws, store_by-CidLaws}
use p2p_distributed_system_m.Tests.World.{orders, texts-JsonLaws}
use p2p_distributed_system_m.Tests.Keyed.{
  id_b, chunk, root, name, name-ne-nil, name-injective, world, time, peer, nodes, adder,
}

conns-IsPool : IsPool adder.net.conns
unfolding new_host new_pool lookup
conns-IsPool x c h = absurd (ground arith)

peer_there : lookup (codes "b:1") adder.net.world ≡ some peer
unfolding new_host new_pool lookup dec_text ℕ_discrete
peer_there = refl

peer_named : (peer.self_id == []) ≡ false
peer_named = ground arith

chosen_root : Memᴰ (codes "b:1") (chosen world (codes "b:1") orders time orders adder root)
unfolding new_host new_registry upsert lookup insert dec_text ℕ_discrete prune_stale update_or_add
    add_peer find_first State-discrete select_replica_peer_ids key_from_hex closest_peer_ids
    decode_string hex_value addrs_of addr_of Registry.get distance snapshot
chosen_root = Memᴰ.head refl

chosen_chunk : Memᴰ (codes "b:1") (chosen world (codes "b:1") orders time orders adder chunk)
unfolding new_host new_registry upsert lookup insert dec_text ℕ_discrete prune_stale update_or_add
    add_peer find_first State-discrete select_replica_peer_ids key_from_hex closest_peer_ids
    decode_string hex_value addrs_of addr_of Registry.get distance snapshot
chosen_chunk = Memᴰ.head refl

chosen_all :
    (c : Bytes)
    → Memᴰ c (root ∷ chunk ∷ [])
    → Memᴰ (codes "b:1") (chosen world (codes "b:1") orders time orders adder c)
chosen_all c (Memᴰ.head e) =
    subst (λ x. Memᴰ (codes "b:1") (chosen world (codes "b:1") orders time orders adder x)) (sym e)
      chosen_root
chosen_all c (Memᴰ.tail (Memᴰ.head e)) =
    subst (λ x. Memᴰ (codes "b:1") (chosen world (codes "b:1") orders time orders adder x)) (sym e)
      chosen_chunk
chosen_all c (Memᴰ.tail (Memᴰ.tail m)) = elim m [ ]

added : (add_file (in_cluster world orders time) orders (codes "path") adder).0 ≡ ok root
unfolding new_host add_file dec_text ℕ_discrete encode_canonical_json new_file_node replicate_all
    write_file_bundle write_block write_chunks provide_all replicate_block select_replica_peer_ids
    key_from_hex lookup closest_peer_ids snapshot find_first insert State-discrete Registry.get
added = refl

read : world.disk.read_file (codes "path") adder.files ≡ ok (codes "hello")
unfolding new_host lookup dec_text ℕ_discrete
read = refl

cut : (world.storage.put_file (codes "path") adder.files adder.store).0 ≡ ok (chunk ∷ [])
unfolding new_host lookup dec_text ℕ_discrete
cut = refl

room :
    (b : Bytes) (s : List Bytes)
    → (d : Bytes) × (s' : List Bytes) × (world.storage.put b s ≡ (ok d, s'))
room b s = (name b, b ∷ s, refl)

add_file-Shared_example :
    (k : Host world) × (lookup
        (codes "b:1")
        (add_file (in_cluster world orders time) orders (codes "path") adder).1.net.world
      ≡ some k)
    × (self_endpoint world k ≡ self_endpoint world peer)
    × (get_file world buffer orders root k [] ≡ (none, k, [] ++ codes "hello"))
    × (provider chunk k.self_id k.providers ≡ some (self_endpoint world peer))
add_file-Shared_example =
    add_file-Shared world (codes "b:1") orders time
      (store_by-StorageLaws name name-injective name-ne-nil)
      (store_by-CidLaws name name-injective name-ne-nil) room texts-JsonLaws orders orders
      (codes "path") (codes "hello") root [] (chunk ∷ []) adder peer chunk read cut chosen_all
      conns-IsPool peer_there peer_named added (Memᴰ.tail (Memᴰ.head refl))

-- A third node, once the file is added.
abbrev later : Nodes world
later = (add_file (in_cluster world orders time) orders (codes "path") adder).1.net.world

abbrev reader : Host (in_cluster world orders time)
reader = record adder {
  self_id = codes "c";
  grpc_addr = codes "c:1";
  net = new_pool (in_cluster world orders time).grpc later;
}

reader_conns-IsPool : IsPool reader.net.conns
unfolding new_pool lookup
reader_conns-IsPool x c h = absurd (ground arith)

nothing-RecordsName : RecordsName id_b (codes "b:1") new_provider_records
unfolding new_provider_records providers_of lookup
nothing-RecordsName c k ep m = elim m [ ]

reader-Knows : Knows world orders time later id_b (codes "b:1") orders reader
unfolding new_host new_pool new_registry upsert snapshot to_ask lookup insert dec_text ℕ_discrete
    prune_stale update_or_add add_peer new_provider_records find_first State-discrete
reader-Knows = record {
  over = record { world = refl; pool = reader_conns-IsPool };
  asked = Memᴰ.head refl;
  own = nothing-RecordsName;
}

peer-Names : Names id_b (codes "b:1") (self_endpoint world peer)
unfolding self_endpoint
peer-Names e = refl

nodes-AreHonest : AreHonest world id_b (codes "b:1") nodes
unfolding lookup
nodes-AreHonest x h e = elim (Bool-cases (codes "b:1" == x)) [
  | inl q ↦
      subst
        (λ k.
          Names id_b (codes "b:1") (self_endpoint world k)
          × RecordsName id_b (codes "b:1") k.providers)
        (found (rw q at e)) (peer-Names, nothing-RecordsName)
  | inr q ↦ absurd (nothing (rw q at e))
]
  where
    found : some peer ≡ some h → peer ≡ h
    found p = ap (λ z. elim z [ some k ↦ k | none ↦ peer ]) p

    nothing : none ≡ some h → ⊥
    nothing p = absurd (ground (arith, p))

adder-AreHonest : AreHonest world id_b (codes "b:1") adder.net.world
unfolding new_host new_pool
adder-AreHonest = nodes-AreHonest

marked_nil : name [] ≡ b'#' ∷ []
unfolding dec_text ℕ_discrete
marked_nil = refl

not_marked : (x : Bytes) → Memᴰ x (root ∷ chunk ∷ []) → x ≢ b'#' ∷ []
not_marked x (Memᴰ.head e) q = absurd (ground (arith, sym e ∙ q))
not_marked x (Memᴰ.tail (Memᴰ.head e)) q = absurd (ground (arith, sym e ∙ q))
not_marked x (Memᴰ.tail (Memᴰ.tail m)) q = elim m [ ]

named_by : (x b : Bytes) → world.storage.verify_cid x b ≡ none → x ≡ name b
named_by x b right = ground arith

blocks_filled :
    (x b : Bytes) → Memᴰ x (root ∷ chunk ∷ []) → world.storage.verify_cid x b ≡ none → b ≢ []
blocks_filled x b m right e = not_marked x m (named_by x b right ∙ ap name e ∙ marked_nil)

b_addressed : codes "b:1" ≢ []
b_addressed e = absurd (ground (arith, e))

get_file-add_file_elsewhere_example :
    ((get_file (in_cluster world orders time) buffer orders root reader []).0 ≡ none)
    × ((get_file (in_cluster world orders time) buffer orders root reader []).2
        ≡ [] ++ codes "hello")
get_file-add_file_elsewhere_example =
    get_file-add_file_elsewhere world (codes "b:1") orders time
      (store_by-StorageLaws name name-injective name-ne-nil)
      (store_by-CidLaws name name-injective name-ne-nil) room texts-JsonLaws orders orders
      (codes "path") (codes "hello") root [] (chunk ∷ []) adder reader peer read cut chosen_all
      conns-IsPool peer_there peer_named b_addressed adder-AreHonest blocks_filled added
      reader-Knows
