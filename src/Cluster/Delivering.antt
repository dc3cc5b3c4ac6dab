-- ===== src/Cluster/Delivering.antt =====
-- From `AddFile` on one node, over the copy at a second, to `GetFile` on a third.
use p2p_distributed_system_m.Base.{
  ℕ, ◌≡◌, ◌≢◌, refl, sym, subst, ap, ◌∙◌, Bytes, Bool, true, false, List, [], ◌∷◌, ◌++◌, Option,
  none, some, Result, ok, err, arith, if◌then◌else◌, ◌==◌, Bool-cases, Option-cases, inl, inr,
}
use mathlib.Core.List.{Memᴰ}
use p2p_distributed_system_m.Base.GoMap.{lookup, insert, lookup-insert}
use p2p_distributed_system_m.Os.{buffer}
use p2p_distributed_system_m.Gen.{StoreBlockRequest}
use p2p_distributed_system_m.Storage.{StorageLaws, CidLaws, Holds}
use p2p_distributed_system_m.Merkle.{JsonLaws}
use p2p_distributed_system_m.Dht.Providers
use p2p_distributed_system_m.Dht.Lookup.Distinct.{has_peer}
use p2p_distributed_system_m.Coordinator.Host.{Env, Orders, Host, self_endpoint}
use p2p_distributed_system_m.Coordinator.Files.{add_file, get_file}
use p2p_distributed_system_m.Coordinator.Rpc.{block_put, serve_store_block}
use p2p_distributed_system_m.Cluster.{Nodes, in_cluster}
use p2p_distributed_system_m.Cluster.Calls.{IsPool}
use p2p_distributed_system_m.Cluster.Records.{Names, RecordsName, add-RecordsName, get-has_peer}
use p2p_distributed_system_m.Cluster.Spreading.{stored_at}
use p2p_distributed_system_m.Cluster.Copying.{chosen}
use p2p_distributed_system_m.Cluster.Sharing.{Shared, add_file-On}
use p2p_distributed_system_m.Cluster.Reading.{Knows, Serves, ServesAll, get_file-Delivered}

module _ (E : Env) (id a : Bytes) where
  -- A node that gives the address `a` to the node `id`, of itself and in its records.
  abbrev IsHonest : Host E → Type 0
  IsHonest h = Names id a (self_endpoint E h) × RecordsName id a h.providers

  abbrev pub AreHonest : Nodes E → Type 0
  AreHonest w = (x : Bytes) (h : Host E) → lookup x w ≡ some h → IsHonest h

  block_put-IsHonest :
      (cid : Bytes) (h : Host E) (p : Result Bytes × E.storage.Store)
      → IsHonest h
      → IsHonest (block_put E cid h p).1
  unfolding block_put self_endpoint
  block_put-IsHonest cid h (err e, s) (own, records) = (own, records)
  block_put-IsHonest cid h (ok c, s) (own, records) =
      (own, add-RecordsName id a cid (self_endpoint E h) h.providers own records)

  serve_store_block-IsHonest :
      (req : StoreBlockRequest) (h : Host E)
      → IsHonest h
      → IsHonest (serve_store_block E (some req) h).1
  unfolding serve_store_block
  serve_store_block-IsHonest req h i = elim (Bool-cases (req.cid == [])) [
    | inl e ↦ rw e i
    | inr e ↦ elim (Option-cases (E.storage.validate req.cid)) [
      | inl v ↦ rw (e, v) (block_put-IsHonest req.cid h (E.storage.put req.block h.store) i)
      | inr (x, v) ↦ rw (e, v) i
    ]
  ]

  insert-AreHonest :
      (x : Bytes) (k : Host E) (w : Nodes E) → IsHonest k → AreHonest w → AreHonest (insert x k w)
  insert-AreHonest x k w i all y h e = elim (Bool-cases (x == y)) [
    | inl s ↦ let same : k ≡ h = value (lookup-insert x y k w) s in subst IsHonest same i
    | inr s ↦ all y h (ground (arith, lookup-insert x y k w, e))
  ]
    where
      value :
          lookup y (insert x k w) ≡ (if x == y then some k else lookup y w)
          → (x == y) ≡ true
          → k ≡ h
      value q s =
          ap (λ z. elim z [ some v ↦ v | none ↦ k ])
            (sym (q ∙ ap (λ (t : Bool). if t then some k else lookup y w) s) ∙ e)

  stored_at-AreHonest :
      (req : StoreBlockRequest) (x : Bytes) (w : Nodes E) (found : Option (Host E))
      → lookup x w ≡ found
      → AreHonest w
      → AreHonest (stored_at E req x w found)
  stored_at-AreHonest req x w none e all = all
  stored_at-AreHonest req x w (some k) e all =
      insert-AreHonest x (serve_store_block E (some req) k).1 w
        (serve_store_block-IsHonest req k (all x k e)) all

module _ (E : Env) (a : Bytes) (oc : Orders) (time : Nodes E → ℕ × ℕ) (laws : StorageLaws E.storage)
    (cids : CidLaws E.storage) where
  Shared-Serves :
      (w : Nodes E) (id root content : Bytes) (oa : Orders) (cs : List Bytes) (k : Host E)
      (c b : Bytes)
      → k.self_id ≡ id
      → Shared E root cs content k
      → Memᴰ c (root ∷ cs)
      → E.storage.get c k.store ≡ ok b
      → b ≢ []
      → Serves E oc time w id a oa k c b
  unfolding self_endpoint
  Shared-Serves w id root content oa cs k c b same shared m held filled = record {
    known = λ e. laws.new_cid-ne-nil b (sym (cids.named c b (cids.stored c b k.store held)) ∙ e);
    filled = filled;
    held = held;
    provided =
        subst (λ i. has_peer i (Providers.get oc.endpoints c k.providers) ≡ true) same
          (get-has_peer oc.endpoints c k.providers (self_endpoint E k) (shared.provided c m));
  }

  Holds-ServesAll :
      (w : Nodes E) (id root content : Bytes) (oa : Orders) (cs ds : List Bytes) (text : Bytes)
      (k : Host E)
      → k.self_id ≡ id
      → Shared E root cs content k
      → ((x : Bytes) → Memᴰ x ds → Memᴰ x (root ∷ cs))
      → ((x b : Bytes) → Memᴰ x (root ∷ cs) → E.storage.verify_cid x b ≡ none → b ≢ [])
      → Holds E.storage k.store ds text
      → ServesAll E oc time w id a oa k ds text
  Holds-ServesAll w id root content oa cs [] text k same shared among filled held = held
  Holds-ServesAll w id root content oa cs (d ∷ ds) text k same shared among filled
        (b, rest, got, e, held) =
      let m = among d (Memᴰ.head refl) in
      (
        b,
        rest,
        Shared-Serves w id root content oa cs k d b same shared m got
            (filled d b m (cids.stored d b k.store got)),
        e,
        Holds-ServesAll w id root content oa cs ds rest k same shared (λ x n. among x (Memᴰ.tail n))
            filled held,
      )

  Shared-delivers :
      (w : Nodes E) (root content out : Bytes) (oa : Orders) (cs : List Bytes) (k : Host E)
      (id : Bytes) (r : Host (in_cluster E oc time))
      → lookup a w ≡ some k
      → (id == []) ≡ false
      → a ≢ []
      → AreHonest E id a w
      → k.self_id ≡ id
      → Shared E root cs content k
      → ((x b : Bytes) → Memᴰ x (root ∷ cs) → E.storage.verify_cid x b ≡ none → b ≢ [])
      → Knows E oc time w id a oa r
      → let got = get_file (in_cluster E oc time) buffer oa root r out in
        (got.0 ≡ none) × (got.2 ≡ out ++ content)
  Shared-delivers w root content out oa cs k id r there named addressed honest same shared filled
        knows =
      let s = shared.stored in
      let first : Memᴰ root (root ∷ cs) = Memᴰ.head refl in
      let among : (x : Bytes) → Memᴰ x s.node.chunks → Memᴰ x (root ∷ cs) =
        λ x m. Memᴰ.tail (subst (λ l. Memᴰ x l) shared.cut m) in
      let (fine, written, rest) =
        get_file-Delivered E oc time w id a oa cids k there named addressed
          (λ x h e. (honest x h e).1) buffer (λ t y. y ≡ t) (λ t b y e. (refl, ap (λ z. z ++ b) e))
          root s.block content out s.node r out knows
          (Shared-Serves w id root content oa cs k root s.block same shared first s.found
            (filled root s.block first (cids.stored root s.block k.store s.found)))
          s.parsed
          (Holds-ServesAll w id root content oa cs s.node.chunks content k same shared among filled
            s.held)
          refl in
      (fine, written)

  -- A file that one node adds is delivered to another: where a third node was chosen for the root and
  -- all chunks, a node that asks it when it looks for a block writes the whole content by `GetFile`,
  -- without an error, whatever it and the other nodes have in their stores. The chosen node is in the
  -- network and has an ID and an address, no node gives that ID another address, stores have room, no
  -- block of the file is empty, and the laws of the block store, the CIDs and JSON hold.
  pub get_file-add_file_elsewhere :
      (room : (b : Bytes) (s : E.storage.Store)
        → (d : Bytes) × (s' : E.storage.Store) × (E.storage.put b s ≡ (ok d, s')))
      (json : JsonLaws E.json) (o o' : Orders) (path content root out : Bytes) (cs : List Bytes)
      (h r : Host (in_cluster E oc time)) (k : Host E)
      → E.disk.read_file path h.files ≡ ok content
      → (E.storage.put_file path h.files h.store).0 ≡ ok cs
      → ((x : Bytes) → Memᴰ x (root ∷ cs) → Memᴰ a (chosen E a oc time o h x))
      → IsPool h.net.conns
      → lookup a h.net.world ≡ some k
      → (k.self_id == []) ≡ false
      → a ≢ []
      → AreHonest E k.self_id a h.net.world
      → ((x b : Bytes) → Memᴰ x (root ∷ cs) → E.storage.verify_cid x b ≡ none → b ≢ [])
      → (add_file (in_cluster E oc time) o path h).0 ≡ ok root
      → Knows E oc time (add_file (in_cluster E oc time) o path h).1.net.world k.self_id a o' r
      → let got = get_file (in_cluster E oc time) buffer o' root r out in
        (got.0 ≡ none) × (got.2 ≡ out ++ content)
  unfolding self_endpoint
  get_file-add_file_elsewhere room json o o' path content root out cs h r k read cut all pool there
        named addressed honest filled q knows =
      let (conns, (k', at, named', (same, shared)), honest') =
        add_file-On E a oc time laws cids room (AreHonest E k.self_id a)
          (λ req x w i. stored_at-AreHonest E k.self_id a req x w (lookup x w) refl i) json
          (λ z. self_endpoint E z ≡ self_endpoint E k) (λ x y l s. l.same ∙ s) o cs content root
          path h read cut all (pool, (k, there, named, refl), honest) q in
      Shared-delivers (add_file (in_cluster E oc time) o path h).1.net.world root content out o' cs
        k' k.self_id r at named addressed honest' (ap (λ p. p.peer_id) same) shared filled knows
