-- ===== src/Tests/Cluster.antt =====
-- Two nodes: one that has a file and one that is given it.
use p2p_distributed_system_m.Base.{
  ℕ_discrete, dec_text, ℕ, ◌≡◌, ◌≢◌, refl, ap, subst, Bytes, codes, [], ◌∷◌, ◌++◌, none, some,
  false, arith, ◌==◌, inl, inr, Bool-cases,
}
use mathlib.Core.List.{Memᴰ}
use p2p_distributed_system_m.Base.GoMap.{lookup, insert}
use p2p_distributed_system_m.Base.Order.{as_stored, backwards, find_first}
use p2p_distributed_system_m.Os.{buffer}
use p2p_distributed_system_m.Merkle.{node_type_file}
use p2p_distributed_system_m.Network.Pool.{new_pool}
use p2p_distributed_system_m.Peer.Record.{State-discrete}
use p2p_distributed_system_m.Peer.Registry.{
  Registry, new_registry, upsert, snapshot, prune_stale, update_or_add, add_peer,
}
use p2p_distributed_system_m.Dht.Providers.{
  ProviderRecords, new_provider_records, providers_of, add,
}
use p2p_distributed_system_m.Dht.Providers
use p2p_distributed_system_m.Dht.Lookup.{to_ask}
use p2p_distributed_system_m.Coordinator.Host.{Host, new_host}
use p2p_distributed_system_m.Coordinator.Files.{get_file}
use p2p_distributed_system_m.Coordinator.Rpc.{joining}
use p2p_distributed_system_m.Cluster.{Nodes, in_cluster}
use p2p_distributed_system_m.Cluster.Calls.{IsPool}
use p2p_distributed_system_m.Cluster.Records.{RecordsName, add-RecordsName}
use p2p_distributed_system_m.Cluster.Finding.{NodesName}
use p2p_distributed_system_m.Cluster.Reading.{Knows, Serves, Delivered, get_file-Delivered}
use p2p_distributed_system_m.Tests.World.{
  blocks-CidLaws, file_of, env, orders, config, files, host, at_b,
}

abbrev time : Nodes env → ℕ × ℕ
time w = (20, 21)

-- The node b has the block hello and the node of a file that consists of it.
abbrev holder : Host env
holder = record host {
  self_id = codes "b";
  grpc_addr = codes "b:1";
  http_addr = codes "b:2";
  store = codes "#hello" ∷ codes "hello" ∷ [];
  providers =
      add (codes "##hello") (some at_b) (add (codes "#hello") (some at_b) new_provider_records);
}

abbrev nodes : Nodes env
nodes = (codes "b:1", holder) ∷ []

-- The node a knows the node b, and has no block.
abbrev reg : Registry
reg = (upsert as_stored backwards 10 (some (joining 10 at_b)) (new_registry (codes "a") none)).0

abbrev reader : Host (in_cluster env orders time)
reader =
    record (new_host (in_cluster env orders time) orders 10 config (codes "a") none [] files nodes
      (none, [])) { reg = reg }

nothing-RecordsName : RecordsName (codes "b") (codes "b:1") new_provider_records
unfolding new_provider_records providers_of lookup
nothing-RecordsName c k ep m = elim m [ ]

holder-RecordsName : RecordsName (codes "b") (codes "b:1") holder.providers
holder-RecordsName =
    add-RecordsName (codes "b") (codes "b:1") (codes "##hello") at_b
      (add (codes "#hello") (some at_b) new_provider_records) (λ e. refl)
      (add-RecordsName (codes "b") (codes "b:1") (codes "#hello") at_b new_provider_records
        (λ e. refl) nothing-RecordsName)

nodes-NodesName : NodesName env nodes (codes "b") (codes "b:1")
unfolding lookup
nodes-NodesName x h e = elim (Bool-cases (codes "b:1" == x)) [
  | inl q ↦
      subst (λ k. RecordsName (codes "b") (codes "b:1") k.providers) (some-inj (rw q at e))
        holder-RecordsName
  | inr q ↦ absurd (none-ne (rw q at e))
]
  where
    some-inj : some holder ≡ some h → holder ≡ h
    some-inj p = ap (λ z. elim z [ some k ↦ k | none ↦ holder ]) p

    none-ne : none ≡ some h → ⊥
    none-ne p = absurd (ground (arith, p))

conns-IsPool : IsPool (new_pool (in_cluster env orders time).grpc nodes).conns
unfolding new_pool lookup
conns-IsPool x c h = absurd (ground arith)

reader-Knows : Knows env orders time nodes (codes "b") (codes "b:1") orders reader
unfolding new_host new_pool new_registry upsert snapshot to_ask lookup insert dec_text ℕ_discrete
    prune_stale update_or_add add_peer new_provider_records find_first State-discrete
reader-Knows = record {
  over = record { world = refl; pool = conns-IsPool };
  asked = Memᴰ.head refl;
  own = nothing-RecordsName;
}

node_served :
    Serves env orders time nodes
      (codes "b")
      (codes "b:1")
      orders
      holder
      (codes "##hello")
      (codes "#hello")
unfolding lookup insert dec_text ℕ_discrete add new_provider_records providers_of Providers.get
node_served = record { known = ground arith; filled = ground arith; held = refl; provided = refl }

chunk_served :
    Serves env orders time nodes
      (codes "b")
      (codes "b:1")
      orders
      holder
      (codes "#hello")
      (codes "hello")
unfolding lookup insert dec_text ℕ_discrete add new_provider_records providers_of Providers.get
chunk_served = record { known = ground arith; filled = ground arith; held = refl; provided = refl }

holder_there : lookup (codes "b:1") nodes ≡ some holder
unfolding lookup dec_text ℕ_discrete
holder_there = refl

b_named : (codes "b" == []) ≡ false
b_named = ground arith

b_addressed : codes "b:1" ≢ []
b_addressed e = absurd (ground (arith, e))

appends :
    (t b out : Bytes)
    → out ≡ t
    → ((buffer.write b out).0 ≡ none) × ((buffer.write b out).1 ≡ t ++ b)
appends t b out w = (refl, ap (λ y. y ++ b) w)

get_file-Delivered_example :
    Delivered env orders time nodes
      (codes "b")
      (codes "b:1")
      orders
      blocks-CidLaws
      holder
      holder_there
      b_named
      b_addressed
      nodes-NodesName
      buffer
      (λ t out. out ≡ t)
      appends
      (codes "hello")
      (get_file (in_cluster env orders time) buffer orders (codes "##hello") reader [])
get_file-Delivered_example =
    get_file-Delivered env orders time nodes (codes "b") (codes "b:1") orders blocks-CidLaws holder
      holder_there b_named b_addressed nodes-NodesName buffer (λ t out. out ≡ t) appends
      (codes "##hello") (codes "#hello") (codes "hello") []
      (file_of node_type_file (codes "#hello" ∷ [])) reader [] reader-Knows node_served refl
      (codes "hello", [], chunk_served, refl, refl) refl
