-- ===== src/Cluster/Adding.antt =====
-- `AddFile` in a cluster: the copy of the file at another node.
use p2p_distributed_system_m.Base.{
  ℕ, ◌≡◌, refl, ap, ◌∙◌, Bytes, false, List, [], ◌∷◌, ◌++◌, none, some, ok, ◌==◌,
}
use mathlib.Core.List.{Memᴰ}
use p2p_distributed_system_m.Base.GoMap.{lookup}
use p2p_distributed_system_m.Os.{buffer}
use p2p_distributed_system_m.Storage.{StorageLaws, CidLaws}
use p2p_distributed_system_m.Merkle.{JsonLaws}
use p2p_distributed_system_m.Dht.Providers.Laws.{provider}
use p2p_distributed_system_m.Coordinator.Host.{Env, Orders, Host, self_endpoint}
use p2p_distributed_system_m.Coordinator.Files.{add_file, get_file}
use p2p_distributed_system_m.Coordinator.Files.Roundtrip.{get_file-Stored}
use p2p_distributed_system_m.Cluster.{Nodes, in_cluster}
use p2p_distributed_system_m.Cluster.Calls.{IsPool}
use p2p_distributed_system_m.Cluster.Copying.{chosen}
use p2p_distributed_system_m.Cluster.Sharing.{add_file-On}

module _ (E : Env) (a : Bytes) (oc : Orders) (time : Nodes E → ℕ × ℕ) (laws : StorageLaws E.storage)
    (cids : CidLaws E.storage)
    (room : (b : Bytes) (s : E.storage.Store)
      → (d : Bytes) × (s' : E.storage.Store) × (E.storage.put b s ≡ (ok d, s'))) where
  -- A file that `AddFile` returns a root for is at every node that was chosen for the root and all
  -- chunks: that node then writes the content by its own `GetFile`, without a call, and provides each
  -- of the blocks under its endpoint. The chosen node is in the network and has an ID, stores have
  -- room, the block store, the CIDs and JSON satisfy their laws, and the connections of the pool lead
  -- to their addresses.
  pub add_file-Shared :
      (json : JsonLaws E.json) (o o' : Orders) (path content root out : Bytes) (cs : List Bytes)
      (h : Host (in_cluster E oc time)) (k : Host E) (c : Bytes)
      → E.disk.read_file path h.files ≡ ok content
      → (E.storage.put_file path h.files h.store).0 ≡ ok cs
      → ((x : Bytes) → Memᴰ x (root ∷ cs) → Memᴰ a (chosen E a oc time o h x))
      → IsPool h.net.conns
      → lookup a h.net.world ≡ some k
      → (k.self_id == []) ≡ false
      → (add_file (in_cluster E oc time) o path h).0 ≡ ok root
      → Memᴰ c (root ∷ cs)
      → (k' : Host E) × (lookup a (add_file (in_cluster E oc time) o path h).1.net.world ≡ some k')
        × (self_endpoint E k' ≡ self_endpoint E k)
        × (get_file E buffer o' root k' out ≡ (none, k', out ++ content))
        × (provider c k'.self_id k'.providers ≡ some (self_endpoint E k))
  add_file-Shared json o o' path content root out cs h k c read cut all pool there named q m =
      let (conns, (k', at, named', (same, shared)), i) =
        add_file-On E a oc time laws cids room (λ w. Unit {0}) (λ r x w i. tt) json
          (λ z. self_endpoint E z ≡ self_endpoint E k) (λ x y l s. l.same ∙ s) o cs content root
          path h read cut all (pool, (k, there, named, refl), tt) q in
      (
        k',
        at,
        same,
        get_file-Stored E o' root content out k' shared.stored,
        shared.provided c m ∙ ap some same,
      )
