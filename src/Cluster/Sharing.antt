-- ===== src/Cluster/Sharing.antt =====
-- `AddFile` in a cluster: what it leaves at a node that is chosen for every block of the file.
use p2p_distributed_system_m.Base.{
  ℕ, ◌≡◌, ◌≢◌, refl, sym, subst, ap, ◌∙◌, Bytes, List, [], ◌∷◌, Option, none, some, Result, ok, err,
  arith,
}
use mathlib.Core.List.{Memᴰ}
use p2p_distributed_system_m.Base.GoMap.{lookup}
use p2p_distributed_system_m.Gen.{StoreBlockRequest}
use p2p_distributed_system_m.Storage.{StorageLaws, CidLaws, Holds}
use p2p_distributed_system_m.Merkle.{new_file_node, encode_canonical_json, JsonLaws}
use p2p_distributed_system_m.Dht.Providers.{ProviderRecords}
use p2p_distributed_system_m.Dht.Providers.Laws.{provider}
use p2p_distributed_system_m.Coordinator.Host.{Env, Orders, Host, self_endpoint}
use p2p_distributed_system_m.Coordinator.Files.{
  provide_all, write_file_bundle, replicate_all, after_replication, after_put, after_encode,
  after_chunks, add_file,
}
use p2p_distributed_system_m.Coordinator.Files.Keeps.{provide_all_keeps, write_file_bundle_keeps}
use p2p_distributed_system_m.Coordinator.Files.Roundtrip.{Stored, Holds-Keeps, put-Keeps}
use p2p_distributed_system_m.Cluster.{Nodes, in_cluster}
use p2p_distributed_system_m.Cluster.Spreading.{stored_at, IsStable, On}
use p2p_distributed_system_m.Cluster.Copying.{
  chosen, Copies, Holds-Copies, On-map, replicate_all-Copies,
}

module _ (E : Env) where
  -- The node has the file under this root, and provides the root and each of the chunks.
  pub record Shared (root : Bytes) (cs : List Bytes) (content : Bytes) (k : Host E) : Type 0 where
    pub stored : Stored E root content k.store
    pub cut : stored.node.chunks ≡ cs
    pub provided :
        (c : Bytes)
        → Memᴰ c (root ∷ cs)
        → provider c k.self_id k.providers ≡ some (self_endpoint E k)

module _ (E : Env) (a : Bytes) (oc : Orders) (time : Nodes E → ℕ × ℕ) where
  module _ (laws : StorageLaws E.storage) (cids : CidLaws E.storage)
      (room : (b : Bytes) (s : E.storage.Store)
        → (d : Bytes) × (s' : E.storage.Store) × (E.storage.put b s ≡ (ok d, s')))
      (I : Nodes E → Type 0)
      (kept : (req : StoreBlockRequest) (x : Bytes) (w : Nodes E)
        → I w
        → I (stored_at E req x w (lookup x w))) where
    -- The node after the block of a file is put: what is provided and bundled is not lost on the way to
    -- the replication.
    abbrev bundled :
        List Bytes
        → Bytes
        → Host (in_cluster E oc time)
        → E.storage.Store
        → Host (in_cluster E oc time)
    bundled cs b h s =
        let root = E.storage.new_cid b in
        (write_file_bundle (in_cluster E oc time) root cs b
          (provide_all (in_cluster E oc time) (root ∷ cs) (record h { store = s }))).1

    bundled_keeps :
        {A : Type 0} (f : Host (in_cluster E oc time) → A)
        (kept : (h : Host (in_cluster E oc time)) (files : E.disk.Files)
            (providers : ProviderRecords)
          → f (record h { files = files; providers = providers }) ≡ f h)
        (cs : List Bytes) (b : Bytes) (h : Host (in_cluster E oc time)) (s : E.storage.Store)
        → f (bundled cs b h s) ≡ f (record h { store = s })
    bundled_keeps f kept cs b h s =
        let root = E.storage.new_cid b in
        write_file_bundle_keeps (in_cluster E oc time) f kept root cs b
          (provide_all (in_cluster E oc time) (root ∷ cs) (record h { store = s }))
        ∙ provide_all_keeps (in_cluster E oc time) f kept (root ∷ cs) (record h { store = s })

    after_replication_ok :
        (root' root : Bytes) (r : Option Bytes × Host (in_cluster E oc time))
        → (after_replication (in_cluster E oc time) root' r).0 ≡ ok root
        → (r.0 ≡ none)
          × (root' ≡ root)
          × (r.1 ≡ (after_replication (in_cluster E oc time) root' r).1)
    unfolding after_replication
    after_replication_ok root' root (none, k) q = (refl, ground arith, refl)
    after_replication_ok root' root (some e, k) q = absurd (ground arith)

    module _ (json : JsonLaws E.json) (Q : Host E → Type 0) (stable : IsStable E a Q) (o : Orders)
        (cs : List Bytes) (content root : Bytes) where
      Copies-Shared :
          (b c : Bytes) (h : Host (in_cluster E oc time)) (s : E.storage.Store) (k : Host E)
          → Holds E.storage h.store cs content
          → encode_canonical_json E.json (new_file_node cs) ≡ ok b
          → E.storage.put b h.store ≡ (ok c, s)
          → E.storage.new_cid b ≡ root
          → Copies E a oc time s (E.storage.new_cid b ∷ cs) k
          → Shared E root cs content k
      unfolding new_file_node
      Copies-Shared b c h s k held enc put same copies =
          let (d, got, has) = copies (E.storage.new_cid b) (Memᴰ.head refl) in
          let is_b : d ≡ b = ground (arith, got, laws.put-get b c h.store s put) in
          record {
            stored = record {
              named = subst (λ r. r ≢ []) same (laws.new_cid-ne-nil b);
              block = b;
              node = new_file_node cs;
              found = subst (λ r. E.storage.get r k.store ≡ ok b) same (has.0 ∙ ap ok is_b);
              parsed = json.canonical (new_file_node cs) b enc;
              held =
                  Holds-Copies E a oc time s cs content k (λ x m. copies x (Memᴰ.tail m))
                    (Holds-Keeps E h.store s cs content (put-Keeps E laws b (ok c) h.store s put)
                      held);
            };
            cut = refl;
            provided = λ x m.
                let (y, found, mine) = copies x (subst (λ r. Memᴰ x (r ∷ cs)) (sym same) m) in
                mine.1;
          }

      after_put-Shared :
          (b : Bytes) (h : Host (in_cluster E oc time)) (p : Result Bytes × E.storage.Store)
          → Holds E.storage h.store cs content
          → encode_canonical_json E.json (new_file_node cs) ≡ ok b
          → E.storage.put b h.store ≡ p
          → ((c : Bytes) → Memᴰ c (root ∷ cs) → Memᴰ a (chosen E a oc time o h c))
          → On E a I oc time Q h.net
          → (after_put (in_cluster E oc time) o cs b h p).0 ≡ ok root
          → On E a I oc time
              (λ k. Q k × Shared E root cs content k)
              (after_put (in_cluster E oc time) o cs b h p).1.net
      unfolding after_put
      after_put-Shared b h (err e, s) held enc put all on q = absurd (ground arith)
      after_put-Shared b h (ok c, s) held enc put all on q =
          let E' = in_cluster E oc time in
          let sent = bundled cs b h s in
          let done = replicate_all E' o (E.storage.new_cid b ∷ cs) sent in
          let (fine, same, unchanged) = after_replication_ok (E.storage.new_cid b) root done q in
          let all_sent_to : (x : Bytes)
              → Memᴰ x (E.storage.new_cid b ∷ cs)
              → Memᴰ a (chosen E a oc time o sent x) =
            λ x m.
              subst (λ l. Memᴰ a l)
                (sym (
                  bundled_keeps (λ (k : Host E'). chosen E a oc time o k x) (λ k f p. refl) cs b h
                    s))
                (all x (subst (λ r. Memᴰ x (r ∷ cs)) same m)) in
          let on_sent =
            subst (On E a I oc time Q)
              (sym (bundled_keeps (λ (k : Host E'). k.net) (λ k f p. refl) cs b h s)) on in
          let copied =
            replicate_all-Copies E a oc time laws cids room I kept Q o (E.storage.new_cid b ∷ cs)
              sent stable all_sent_to on_sent fine in
          subst (λ k. On E a I oc time (λ z. Q z × Shared E root cs content z) k.net) unchanged
            (On-map E a oc time laws cids room I kept
              (λ k. Q k × Copies E a oc time sent.store (E.storage.new_cid b ∷ cs) k)
              (λ k. Q k × Shared E root cs content k) done.1.net
              (λ k (r, copies). (
                r,
                Copies-Shared b c h s k held enc put same (
                    subst (λ z. Copies E a oc time z (E.storage.new_cid b ∷ cs) k)
                      (bundled_keeps (λ (k : Host E'). k.store) (λ k f p. refl) cs b h s) copies),
              ))
              copied)

      after_encode-Shared :
          (h : Host (in_cluster E oc time)) (node : Result Bytes)
          → Holds E.storage h.store cs content
          → encode_canonical_json E.json (new_file_node cs) ≡ node
          → ((c : Bytes) → Memᴰ c (root ∷ cs) → Memᴰ a (chosen E a oc time o h c))
          → On E a I oc time Q h.net
          → (after_encode (in_cluster E oc time) o cs h node).0 ≡ ok root
          → On E a I oc time
              (λ k. Q k × Shared E root cs content k)
              (after_encode (in_cluster E oc time) o cs h node).1.net
      unfolding after_encode
      after_encode-Shared h (err e) held enc all on q = absurd (ground arith)
      after_encode-Shared h (ok b) held enc all on q =
          after_put-Shared b h (E.storage.put b h.store) held enc refl all on q

      after_chunks-Shared :
          (path : Bytes) (h : Host (in_cluster E oc time))
          (r : Result (List Bytes) × E.storage.Store)
          → E.disk.read_file path h.files ≡ ok content
          → E.storage.put_file path h.files h.store ≡ r
          → r.0 ≡ ok cs
          → ((c : Bytes) → Memᴰ c (root ∷ cs) → Memᴰ a (chosen E a oc time o h c))
          → On E a I oc time Q h.net
          → (after_chunks (in_cluster E oc time) o h r).0 ≡ ok root
          → On E a I oc time
              (λ k. Q k × Shared E root cs content k)
              (after_chunks (in_cluster E oc time) o h r).1.net
      unfolding after_chunks
      after_chunks-Shared path h (err e, s) read put cut all on q = absurd (ground arith)
      after_chunks-Shared path h (ok ds, s) read put cut all on q =
          let same : ds ≡ cs = ok-inj ds cs cut in chunked same
        where
          ok-inj : (x y : List Bytes) → ok x ≡ ok y → x ≡ y
          ok-inj x y e = ap (λ z. elim z [ ok w ↦ w | err _ ↦ x ]) e

          chunked :
              ds ≡ cs
              → On E a I oc time
                  (λ k. Q k × Shared E root cs content k)
                  (after_chunks (in_cluster E oc time) o h (ok ds, s)).1.net
          chunked e =
              subst
                (λ l.
                  On E a I oc time (λ k. Q k × Shared E root cs content k)
                    (after_chunks (in_cluster E oc time) o h (ok l, s)).1.net)
                (sym e)
                (after_encode-Shared (record h { store = s })
                  (encode_canonical_json E.json (new_file_node cs))
                  (laws.put_file-holds path content h.files cs h.store s read
                    (put ∙ ap (λ l. (ok l, s)) e))
                  refl all on
                  (subst (λ l. (after_chunks (in_cluster E oc time) o h (ok l, s)).0 ≡ ok root) e
                    q))

      pub add_file-On :
          (path : Bytes) (h : Host (in_cluster E oc time))
          → E.disk.read_file path h.files ≡ ok content
          → (E.storage.put_file path h.files h.store).0 ≡ ok cs
          → ((c : Bytes) → Memᴰ c (root ∷ cs) → Memᴰ a (chosen E a oc time o h c))
          → On E a I oc time Q h.net
          → (add_file (in_cluster E oc time) o path h).0 ≡ ok root
          → On E a I oc time
              (λ k. Q k × Shared E root cs content k)
              (add_file (in_cluster E oc time) o path h).1.net
      unfolding add_file
      add_file-On path h read cut all on q =
          after_chunks-Shared path h (E.storage.put_file path h.files h.store) read refl cut all on
            q
