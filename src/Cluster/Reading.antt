-- ===== src/Cluster/Reading.antt =====
-- `GetFile` at a node of a cluster, where another node provides the blocks.
use p2p_distributed_system_m.Base.{
  ℕ, ◌≡◌, ◌≢◌, refl, sym, subst, ap, ◌∙◌, Bytes, true, false, List, [], ◌∷◌, ◌++◌, Option, none,
  some, Result, ok, err, arith, ◌==◌, inl, inr, Result-cases,
}
use mathlib.Core.List.{Memᴰ, append_assoc, append-nil}
use p2p_distributed_system_m.Base.GoMap.{lookup}
use p2p_distributed_system_m.Os.{Writer}
use p2p_distributed_system_m.Storage.{CidLaws}
use p2p_distributed_system_m.Merkle.{FileNode}
use p2p_distributed_system_m.Replication.{fetch_block}
use p2p_distributed_system_m.Peer.Registry.{snapshot}
use p2p_distributed_system_m.Dht.Providers
use p2p_distributed_system_m.Dht.Lookup.{to_ask, lookup_providers}
use p2p_distributed_system_m.Dht.Lookup.Distinct.{has_peer}
use p2p_distributed_system_m.Coordinator.Host.{Env, Orders, Host}
use p2p_distributed_system_m.Coordinator.Files.{
  fetch, keep_fetched, obtain, get_chunks, after_node, after_root, get_file, chunk_error,
  root_error,
}
use p2p_distributed_system_m.Cluster.{Nodes, cluster, in_cluster}
use p2p_distributed_system_m.Cluster.Calls.{Over}
use p2p_distributed_system_m.Cluster.Records.{RecordsName}
use p2p_distributed_system_m.Cluster.Finding.{NodesName, lookup_providers-AllName}
use p2p_distributed_system_m.Cluster.Fetching.{fetch_from_holder}

module _ (E : Env) (o : Orders) (time : Nodes E → ℕ × ℕ) (w : Nodes E) (id a : Bytes)
    (oa : Orders) where
  -- A node of the cluster that asks the address `a` when it looks for a block, and does not know of `id`
  -- under another address.
  pub record Knows (h : Host (in_cluster E o time)) : Type 0 where
    pub over : Over E o time w h.net
    pub asked : Memᴰ a (to_ask h.grpc_addr (snapshot oa.entries h.reg))
    pub own : RecordsName id a h.providers

  -- The node `holder` has a block that is not empty, and says so.
  pub record Serves (holder : Host E) (c b : Bytes) : Type 0 where
    pub known : c ≢ []
    pub filled : b ≢ []
    pub held : E.storage.get c holder.store ≡ ok b
    pub provided : has_peer id (Providers.get o.endpoints c holder.providers) ≡ true

  abbrev pub ServesAll : Host E → List Bytes → Bytes → Type 0
  ServesAll holder [] content = content ≡ []
  ServesAll holder (c ∷ cs) content =
      (b : Bytes) × (rest : Bytes) × Serves holder c b
      × (content ≡ b ++ rest)
      × ServesAll holder cs rest

  module _ (cids : CidLaws E.storage) (holder : Host E) (there : lookup a w ≡ some holder)
      (named : (id == []) ≡ false) (addressed : a ≢ []) (honest : NodesName E w id a) where
    abbrev Obtained : Bytes → Result Bytes × Host (in_cluster E o time) → Type 0
    Obtained b r = (r.0 ≡ ok b) × Knows r.1

    fetch-Obtained :
        (c b : Bytes) (h : Host (in_cluster E o time))
        → Knows h
        → Serves holder c b
        → Obtained b (fetch (in_cluster E o time) oa c h)
    unfolding fetch fetch_block
    fetch-Obtained c b h k s =
        let G = cluster E o time in
        let found =
          lookup_providers G oa.endpoints oa.schedule h.providers h.grpc_addr
            (snapshot oa.entries h.reg) c h.net in
        let (has, all_named, over) =
          lookup_providers-AllName E o time w id a c s.known oa.endpoints oa.schedule h.providers
            h.grpc_addr (snapshot oa.entries h.reg) h.net a holder honest k.own k.over k.asked there
            named s.provided in
        let (got, over') =
          fetch_from_holder E o time cids w id a addressed holder there c b s.known s.filled s.held
            none found.0 found.1 over has all_named in
        (got, record { over = over'; asked = k.asked; own = k.own })

    keep_fetched-Obtained :
        (wrap : Bytes → Bytes) (c b : Bytes) (r : Result Bytes × Host (in_cluster E o time))
        → Serves holder c b
        → Obtained b r
        → Obtained b (keep_fetched (in_cluster E o time) wrap c r)
    unfolding keep_fetched
    keep_fetched-Obtained wrap c b (err e, h) s (q, k) = absurd (ground (arith, q))
    keep_fetched-Obtained wrap c b (ok d, h) s (q, k) =
        let right : E.storage.verify_cid c d ≡ none =
          cids.stored c d holder.store (s.held ∙ sym q) in
        rw (right, keep_fetched) (q, record { over = k.over; asked = k.asked; own = k.own })

    obtain-Obtained :
        (wrap : Bytes → Bytes → Bytes) (c b : Bytes) (h : Host (in_cluster E o time))
        → Knows h
        → Serves holder c b
        → Obtained b (obtain (in_cluster E o time) oa wrap c h)
    unfolding obtain
    obtain-Obtained wrap c b h k s = elim (Result-cases (E.storage.get c h.store)) [
      | inl (d, q) ↦
          rw (q, obtain)
            (
              ap ok (
                  cids.one_block c d b (cids.stored c d h.store q)
                    (cids.stored c b holder.store s.held)),
              k,
            )
      | inr (e, q) ↦
          rw (q, obtain)
            (keep_fetched-Obtained (wrap e) c b (fetch (in_cluster E o time) oa c h) s
              (fetch-Obtained c b h k s))
    ]

    module _ (W : Writer) (Wrote : Bytes → W.Out → Type 0)
        (takes : (t b : Bytes) (out : W.Out)
          → Wrote t out
          → ((W.write b out).0 ≡ none) × Wrote (t ++ b) (W.write b out).1) where
      -- No error, the content after what had been written, and a node that still knows the cluster.
      abbrev pub Delivered : Bytes → Option Bytes × Host (in_cluster E o time) × W.Out → Type 0
      Delivered t r = (r.0 ≡ none) × Wrote t r.2 × Knows r.1

      abbrev ending :
          List Bytes
          → W.Out
          → Host (in_cluster E o time)
          → Option Bytes
          → Option Bytes × Host (in_cluster E o time) × W.Out
      ending cs out h z = elim z [
        | some y ↦ (some y, h, out)
        | none ↦ get_chunks (in_cluster E o time) W oa cs h out
      ]

      -- One round of the loop, given the block and the outcome of its write.
      abbrev round :
          List Bytes
          → W.Out
          → Result Bytes × Host (in_cluster E o time)
          → Option Bytes × Host (in_cluster E o time) × W.Out
      round cs out x = elim x.0 [
        | err q ↦ (some q, x.1, out)
        | ok d ↦ ending cs (W.write d out).1 x.1 (W.write d out).0
      ]

      round-Delivered :
          (cs : List Bytes) (b t : Bytes) (out : W.Out)
          (x : Result Bytes × Host (in_cluster E o time))
          → Obtained b x
          → (W.write b out).0 ≡ none
          → Delivered t (get_chunks (in_cluster E o time) W oa cs x.1 (W.write b out).1)
          → Delivered t (round cs out x)
      round-Delivered cs b t out (err e, h) (q, k) fine rest = absurd (ground (arith, q))
      round-Delivered cs b t out (ok d, h) (q, k) fine rest =
          let same : b ≡ d = ground (arith, q) in rw same at (written fine rest)
        where
          written :
              (W.write b out).0 ≡ none
              → Delivered t (get_chunks (in_cluster E o time) W oa cs h (W.write b out).1)
              → Delivered t (round cs out (ok b, h))
          written f r = subst (λ z. Delivered t (ending cs (W.write b out).1 h z)) (sym f) r

      get_chunks-Delivered :
          (cs : List Bytes) (content t : Bytes) (h : Host (in_cluster E o time)) (out : W.Out)
          → Knows h
          → ServesAll holder cs content
          → Wrote t out
          → Delivered (t ++ content) (get_chunks (in_cluster E o time) W oa cs h out)
      unfolding get_chunks
      get_chunks-Delivered [] content t h out k e wrote =
          (refl, subst (λ u. Wrote u out) (sym (ap (◌++◌ t) e ∙ append-nil t)) wrote, k)
      get_chunks-Delivered (c ∷ cs) content t h out k (b, rest, s, e, served) wrote =
          let (fine, more) = takes t b out wrote in
          let got = obtain-Obtained (chunk_error (in_cluster E o time) c) c b h k s in
          let x = obtain (in_cluster E o time) oa (chunk_error (in_cluster E o time) c) c h in
          subst (λ u. Delivered u (round cs out x)) (append_assoc t b rest ∙ ap (◌++◌ t) (sym e))
            (round-Delivered cs b ((t ++ b) ++ rest) out x got fine
              (get_chunks-Delivered cs rest (t ++ b) x.1 (W.write b out).1 got.1 served more))

      root-Delivered :
          (rb content t : Bytes) (node : FileNode) (out : W.Out)
          (x : Result Bytes × Host (in_cluster E o time))
          → Obtained rb x
          → E.json.unmarshal_file rb ≡ ok node
          → ServesAll holder node.chunks content
          → Wrote t out
          → Delivered (t ++ content) (after_root (in_cluster E o time) W oa out x)
      unfolding after_root after_node
      root-Delivered rb content t node out (err e, h) (q, k) parsed served wrote =
          absurd (ground (arith, q))
      root-Delivered rb content t node out (ok d, h) (q, k) parsed served wrote =
          let same : d ≡ rb = ground (arith, q) in
          rw (ap (λ z. E.json.unmarshal_file z) same ∙ parsed)
            (get_chunks-Delivered node.chunks content t h out k served wrote)

      -- A node that asks a node which has every block of a file, none of them empty, and provides it,
      -- is given the file: `GetFile` has no error and writes the whole content, whatever the other nodes
      -- hold and answer. The node that has the file has an ID and an address, no record gives it another
      -- address, the laws of the CIDs hold, and the writer does not fail.
      pub get_file-Delivered :
          (root rb content t : Bytes) (node : FileNode) (h : Host (in_cluster E o time))
          (out : W.Out)
          → Knows h
          → Serves holder root rb
          → E.json.unmarshal_file rb ≡ ok node
          → ServesAll holder node.chunks content
          → Wrote t out
          → Delivered (t ++ content) (get_file (in_cluster E o time) W oa root h out)
      unfolding get_file
      get_file-Delivered root rb content t node h out k s parsed served wrote =
          root-Delivered rb content t node out
            (obtain (in_cluster E o time) oa (root_error (in_cluster E o time)) root h)
            (obtain-Obtained (root_error (in_cluster E o time)) root rb h k s) parsed served wrote
