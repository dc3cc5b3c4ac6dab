-- ===== src/Coordinator/Files/Roundtrip.antt =====
-- `AddFile`, and `GetFile` after it on the same node.
use p2p_distributed_system_m.Base.{
  ◌≡◌, ◌≢◌, refl, sym, ap, ◌∙◌, subst, Bytes, List, [], ◌∷◌, ◌++◌, Option, none, some, Result, ok,
  err, arith,
}
use mathlib.Core.List.{append_assoc, append-nil}
use p2p_distributed_system_m.Os.{buffer}
use p2p_distributed_system_m.Storage.{Holds, StorageLaws}
use p2p_distributed_system_m.Merkle.{FileNode, new_file_node, encode_canonical_json, JsonLaws}
use p2p_distributed_system_m.Coordinator.Host.{Env, Orders, Host}
use p2p_distributed_system_m.Coordinator.Files.Keeps.{after_put_keeps}
use p2p_distributed_system_m.Coordinator.Files.{
  after_replication, after_put, after_encode, after_chunks, add_file, obtain, get_chunks, get_file,
  chunk_error, root_error,
}

module _ (E : Env) where
  store-after_put :
      (o : Orders) (cs : List Bytes) (b : Bytes) (h : Host E) (c : Bytes) (s : E.storage.Store)
      → (after_put E o cs b h (ok c, s)).1.store ≡ s
  store-after_put o cs b h c s =
      after_put_keeps E (λ (k : Host E). k.store) (λ k net files provs. refl) o cs b h c s

  root-after_replication :
      (root r : Bytes) (x : Option Bytes × Host E)
      → (after_replication E root x).0 ≡ ok r
      → root ≡ r
  unfolding after_replication
  root-after_replication root r (none, k) h = ground arith
  root-after_replication root r (some e, k) h = absurd (ground arith)

  put_stored :
      (o : Orders) (cs : List Bytes) (b : Bytes) (h : Host E) (p : Result Bytes × E.storage.Store)
      (root : Bytes)
      → (after_put E o cs b h p).0 ≡ ok root
      → (E.storage.new_cid b ≡ root)
        × ((c : Bytes) × (p ≡ (ok c, (after_put E o cs b h p).1.store)))
  put_stored o cs b h (err e, s) root q = unfold after_put in absurd (ground arith)
  put_stored o cs b h (ok c, s) root q = (
    unfold after_put in root-after_replication (E.storage.new_cid b) root _ q,
    (c, λ i. (ok c, sym (store-after_put o cs b h c s) i)),
  )

  pub obtain_local :
      (o : Orders) (wrap : Bytes → Bytes → Bytes) (cid b : Bytes) (h : Host E)
      → E.storage.get cid h.store ≡ ok b
      → obtain E o wrap cid h ≡ (ok b, h)
  unfolding obtain
  obtain_local o wrap cid b h e = rw (e, obtain) refl

  -- Chunks that are in the store are written one after the other, and nothing else changes.
  get_chunks_local :
      (o : Orders) (cs : List Bytes) (content out : Bytes) (h : Host E)
      → Holds E.storage h.store cs content
      → get_chunks E buffer o cs h out ≡ (none, h, out ++ content)
  unfolding get_chunks
  get_chunks_local o [] content out h e = λ i. (none, h, sym (ap (◌++◌ out) e ∙ append-nil out) i)
  get_chunks_local o (c ∷ cs) content out h (b, rest, got, e, held) =
      ap written (obtain_local o (chunk_error E c) c b h got)
      ∙ get_chunks_local o cs rest (out ++ b) h held
      ∙ λ i. (none, h, (append_assoc out b rest ∙ ap (◌++◌ out) (sym e)) i)
    where
      written : Result Bytes × Host E → Option Bytes × Host E × Bytes
      written r = elim r.0 [
        | err x ↦ (some x, r.1, out)
        | ok d ↦ get_chunks E buffer o cs r.1 (out ++ d)
      ]

  get_file_local :
      (o : Orders) (root b : Bytes) (node : FileNode) (content out : Bytes) (h : Host E)
      → E.storage.get root h.store ≡ ok b
      → E.json.unmarshal_file b ≡ ok node
      → Holds E.storage h.store node.chunks content
      → get_file E buffer o root h out ≡ (none, h, out ++ content)
  unfolding get_file
  get_file_local o root b node content out h got parsed held =
      rw (obtain_local o (root_error E) root b h got, parsed)
        (get_chunks_local o node.chunks content out h held)

  -- The store has a file under this root.
  pub record Stored (root content : Bytes) (store : E.storage.Store) : Type 0 where
    pub named : root ≢ []
    pub block : Bytes
    pub node : FileNode
    pub found : E.storage.get root store ≡ ok block
    pub parsed : E.json.unmarshal_file block ≡ ok node
    pub held : Holds E.storage store node.chunks content

  -- A file of the store is written, and nothing else changes.
  pub get_file-Stored :
      (o : Orders) (root content out : Bytes) (h : Host E)
      → Stored root content h.store
      → get_file E buffer o root h out ≡ (none, h, out ++ content)
  get_file-Stored o root content out h s =
      get_file_local o root s.block s.node content out h s.found s.parsed s.held

  -- Every block of a store is in another one.
  abbrev pub Keeps : E.storage.Store → E.storage.Store → Type 0
  Keeps s s' = (c d : Bytes) → E.storage.get c s ≡ ok d → E.storage.get c s' ≡ ok d

  pub Holds-Keeps :
      (s s' : E.storage.Store) (cs : List Bytes) (content : Bytes)
      → Keeps s s'
      → Holds E.storage s cs content
      → Holds E.storage s' cs content
  Holds-Keeps s s' [] content k held = held
  Holds-Keeps s s' (c ∷ cs) content k (d, tail, got, e, held) =
      (d, tail, k c d got, e, Holds-Keeps s s' cs tail k held)

  pub Stored-Keeps :
      (root content : Bytes) (s s' : E.storage.Store)
      → Keeps s s'
      → Stored root content s
      → Stored root content s'
  Stored-Keeps root content s s' k t = record {
    named = t.named;
    block = t.block;
    node = t.node;
    found = k root t.block t.found;
    parsed = t.parsed;
    held = Holds-Keeps s s' t.node.chunks content k t.held;
  }

  module _ (laws : StorageLaws E.storage) where
    pub put-Keeps :
        (b : Bytes) (r : Result Bytes) (s s' : E.storage.Store)
        → E.storage.put b s ≡ (r, s')
        → Keeps s s'
    put-Keeps b r s s' p c d g = laws.put-keeps b r s s' c d p g

    after_put-Keeps :
        (o : Orders) (cs : List Bytes) (b : Bytes) (h : Host E) (p : Result Bytes × E.storage.Store)
        → E.storage.put b h.store ≡ p
        → Keeps h.store (after_put E o cs b h p).1.store
    after_put-Keeps o cs b h (err e, s) q = unfold after_put in put-Keeps b (err e) h.store s q
    after_put-Keeps o cs b h (ok c, s) q =
        subst (Keeps h.store) (sym (store-after_put o cs b h c s)) (put-Keeps b (ok c) h.store s q)

    after_encode-Keeps :
        (o : Orders) (cs : List Bytes) (h : Host E) (node : Result Bytes)
        → Keeps h.store (after_encode E o cs h node).1.store
    unfolding after_encode
    after_encode-Keeps o cs h (err e) c d g = g
    after_encode-Keeps o cs h (ok b) c d g =
        after_put-Keeps o cs b h (E.storage.put b h.store) refl c d g

    after_chunks-Keeps :
        (o : Orders) (path : Bytes) (h : Host E) (r : Result (List Bytes) × E.storage.Store)
        → E.storage.put_file path h.files h.store ≡ r
        → Keeps h.store (after_chunks E o h r).1.store
    after_chunks-Keeps o path h (err e, s) p c d g =
        unfold after_chunks in laws.put_file-keeps path h.files (err e) h.store s c d p g
    after_chunks-Keeps o path h (ok cs, s) p c d g =
        unfold after_chunks in
        after_encode-Keeps o cs (record h { store = s })
          (encode_canonical_json E.json (new_file_node cs)) c d
          (laws.put_file-keeps path h.files (ok cs) h.store s c d p g)

    -- `AddFile` loses no block, also where it fails.
    pub add_file-Keeps :
        (o : Orders) (path : Bytes) (h : Host E) → Keeps h.store (add_file E o path h).1.store
    unfolding add_file
    add_file-Keeps o path h =
        after_chunks-Keeps o path h (E.storage.put_file path h.files h.store) refl

  module _ (laws : StorageLaws E.storage) (json : JsonLaws E.json) where
    put_Stored :
        (o : Orders) (content : Bytes) (h : Host E) (cs : List Bytes) (root b : Bytes)
        → Holds E.storage h.store cs content
        → encode_canonical_json E.json (new_file_node cs) ≡ ok b
        → (after_put E o cs b h (E.storage.put b h.store)).0 ≡ ok root
        → Stored root content (after_put E o cs b h (E.storage.put b h.store)).1.store
    unfolding new_file_node
    put_Stored o content h cs root b held enc q =
        let h' = (after_put E o cs b h (E.storage.put b h.store)).1 in
        let (same, put) = put_stored o cs b h (E.storage.put b h.store) root q in
        let (c, eq) = put in
        record {
          named = subst (λ r. r ≢ []) same (laws.new_cid-ne-nil b);
          block = b;
          node = new_file_node cs;
          found =
              subst (λ r. E.storage.get r h'.store ≡ ok b) same
                (laws.put-get b c h.store h'.store eq);
          parsed = json.canonical (new_file_node cs) b enc;
          held =
              Holds-Keeps h.store h'.store cs content (put-Keeps laws b (ok c) h.store h'.store eq)
                held;
        }

    encoded_Stored :
        (o : Orders) (content : Bytes) (h : Host E) (cs : List Bytes) (root : Bytes)
        (node : Result Bytes)
        → Holds E.storage h.store cs content
        → encode_canonical_json E.json (new_file_node cs) ≡ node
        → (after_encode E o cs h node).0 ≡ ok root
        → Stored root content (after_encode E o cs h node).1.store
    encoded_Stored o content h cs root (err e) held enc q =
        unfold after_encode in absurd (ground arith)
    encoded_Stored o content h cs root (ok b) held enc q =
        unfold after_encode in put_Stored o content h cs root b held enc q

    added_Stored :
        (o : Orders) (path content : Bytes) (h : Host E) (root : Bytes)
        (r : Result (List Bytes) × E.storage.Store)
        → E.disk.read_file path h.files ≡ ok content
        → E.storage.put_file path h.files h.store ≡ r
        → (after_chunks E o h r).0 ≡ ok root
        → Stored root content (after_chunks E o h r).1.store
    added_Stored o path content h root (err e, s) f p q =
        unfold after_chunks in absurd (ground arith)
    added_Stored o path content h root (ok cs, s) f p q =
        unfold after_chunks in
        encoded_Stored o content (record h { store = s }) cs root
          (encode_canonical_json E.json (new_file_node cs))
          (laws.put_file-holds path content h.files cs h.store s f p) refl q

    -- What `AddFile` adds is a file of the store.
    pub add_file-Stored :
        (o : Orders) (path content : Bytes) (h : Host E) (root : Bytes)
        → E.disk.read_file path h.files ≡ ok content
        → (add_file E o path h).0 ≡ ok root
        → Stored root content (add_file E o path h).1.store
    unfolding add_file
    add_file-Stored o path content h root f q =
        added_Stored o path content h root (E.storage.put_file path h.files h.store) f refl q

    -- What `AddFile` stores, `GetFile` writes: for every file of the disk that was added, the node reads
    -- the content back from its own store, without an error and without a change. The block store and
    -- JSON satisfy their laws; the orders of the loops are arbitrary.
    pub get_file-add_file :
        (o o' : Orders) (path content out : Bytes) (h : Host E) (root : Bytes)
        → E.disk.read_file path h.files ≡ ok content
        → (add_file E o path h).0 ≡ ok root
        → get_file E buffer o' root (add_file E o path h).1 out
          ≡ (none, (add_file E o path h).1, out ++ content)
    get_file-add_file o o' path content out h root f q =
        get_file-Stored o' root content out (add_file E o path h).1
          (add_file-Stored o path content h root f q)
