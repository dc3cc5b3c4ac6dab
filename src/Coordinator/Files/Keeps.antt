-- ===== src/Coordinator/Files/Keeps.antt =====
-- The parts of a node that `AddFile` does not use, and its block store once the blocks are put there.
use p2p_distributed_system_m.Base.{
  ◌≡◌, refl, ◌∙◌, Bytes, List, [], ◌∷◌, Option, none, some, Result, ok, err, inl, inr, Option-cases,
  Result-cases,
}
use p2p_distributed_system_m.Network.Pool.{Net}
use p2p_distributed_system_m.Dht.Providers.{ProviderRecords}
use p2p_distributed_system_m.Coordinator.Host.{Env, Orders, Host}
use p2p_distributed_system_m.Coordinator.Files.{
  provide_all, write_block, write_chunks, write_file_bundle, bundle_dir, replicate_to,
  replicate_to_ids, replicate_block, replicate_all, addrs_of, after_replication, after_put,
  after_encode, after_chunks, add_file,
}

-- What depends on neither the files of the disk nor the provider records.
module _ (E : Env) {A : Type 0} (f : Host E → A)
    (kept : (h : Host E) (files : E.disk.Files) (providers : ProviderRecords)
      → f (record h { files = files; providers = providers }) ≡ f h) where
  pub provide_all_keeps : (cs : List Bytes) (h : Host E) → f (provide_all E cs h) ≡ f h
  unfolding provide_all
  provide_all_keeps [] h = refl
  provide_all_keeps (c ∷ cs) h = provide_all_keeps cs _ ∙ kept h h.files _

  write_block_keeps :
      (dir cid block : Bytes) (h : Host E) → f (write_block E dir cid block h).1 ≡ f h
  unfolding write_block
  write_block_keeps dir cid block h = kept h _ h.providers

  write_chunks_keeps :
      (dir : Bytes) (cs : List Bytes) (h : Host E) → f (write_chunks E dir cs h).1 ≡ f h
  unfolding write_chunks
  write_chunks_keeps dir [] h = refl
  write_chunks_keeps dir (c ∷ cs) h = elim (Result-cases (E.storage.get c h.store)) [
    | inl (b, e) ↦ elim (Option-cases (write_block E dir c b h).0) [
      | inl n ↦
          rw (e, n, write_chunks)
            (write_chunks_keeps dir cs (write_block E dir c b h).1 ∙ write_block_keeps dir c b h)
      | inr (x, n) ↦ rw (e, n, write_chunks) (write_block_keeps dir c b h)
    ]
    | inr (x, e) ↦ rw (e, write_chunks) refl
  ]

  pub write_file_bundle_keeps :
      (root : Bytes) (cs : List Bytes) (block : Bytes) (h : Host E)
      → f (write_file_bundle E root cs block h).1 ≡ f h
  unfolding write_file_bundle
  write_file_bundle_keeps root cs block h =
      elim (Option-cases (E.disk.mkdir_all (bundle_dir E root h) h.files).0) [
        | inl e ↦ elim (Option-cases (write_block E (bundle_dir E root h) root block made).0) [
          | inl n ↦
              rw (e, n, write_file_bundle)
                (write_chunks_keeps (bundle_dir E root h) cs
                    (write_block E (bundle_dir E root h) root block made).1
                  ∙ write_block_keeps (bundle_dir E root h) root block made
                  ∙ made_keeps)
          | inr (x, n) ↦
              rw (e, n, write_file_bundle)
                (write_block_keeps (bundle_dir E root h) root block made ∙ made_keeps)
        ]
        | inr (x, e) ↦ rw (e, write_file_bundle) made_keeps
      ]
    where
      made : Host E
      made = record h { files = (E.disk.mkdir_all (bundle_dir E root h) h.files).1 }

      made_keeps : f made ≡ f h
      made_keeps = kept h _ h.providers

-- What does not depend on the network either.
module _ (E : Env) {A : Type 0} (f : Host E → A)
    (kept : (h : Host E) (net : Net E.grpc) (files : E.disk.Files) (providers : ProviderRecords)
      → f (record h { net = net; files = files; providers = providers }) ≡ f h) where
  kept_local :
      (h : Host E) (files : E.disk.Files) (providers : ProviderRecords)
      → f (record h { files = files; providers = providers }) ≡ f h
  kept_local h files providers = kept h h.net files providers

  replicate_to_keeps :
      (addrs : List Bytes) (cid block : Bytes) (h : Host E)
      → f (replicate_to E addrs cid block h) ≡ f h
  unfolding replicate_to
  replicate_to_keeps [] cid block h = refl
  replicate_to_keeps (a ∷ addrs) cid block h = kept h _ h.files h.providers

  replicate_to_ids_keeps :
      (ids : Option (List Bytes)) (cid block : Bytes) (h : Host E)
      → f (replicate_to_ids E ids cid block h) ≡ f h
  unfolding replicate_to_ids
  replicate_to_ids_keeps none cid block h = refl
  replicate_to_ids_keeps (some ids) cid block h =
      replicate_to_keeps (addrs_of h.reg ids) cid block h

  pub replicate_block_keeps :
      (o : Orders) (cid block : Bytes) (h : Host E) → f (replicate_block E o cid block h) ≡ f h
  unfolding replicate_block
  replicate_block_keeps o cid block h = replicate_to_ids_keeps _ cid block h

  replicate_all_keeps :
      (o : Orders) (cs : List Bytes) (h : Host E) → f (replicate_all E o cs h).1 ≡ f h
  unfolding replicate_all
  replicate_all_keeps o [] h = refl
  replicate_all_keeps o (c ∷ cs) h = elim (Result-cases (E.storage.get c h.store)) [
    | inl (b, e) ↦
        rw (e, replicate_all)
          (replicate_all_keeps o cs (replicate_block E o c b h) ∙ replicate_block_keeps o c b h)
    | inr (x, e) ↦ rw (e, replicate_all) refl
  ]

  -- Once the blocks are in the store.
  pub after_put_keeps :
      (o : Orders) (cs : List Bytes) (b : Bytes) (h : Host E) (c : Bytes) (s : E.storage.Store)
      → f (after_put E o cs b h (ok c, s)).1 ≡ f (record h { store = s })
  unfolding after_put
  after_put_keeps o cs b h c s =
      after_replication_keeps (E.storage.new_cid b) (
        replicate_all E o (E.storage.new_cid b ∷ cs)
          (write_file_bundle E (E.storage.new_cid b) cs b
            (provide_all E (E.storage.new_cid b ∷ cs) (record h { store = s }))).1)
      ∙ replicate_all_keeps o (E.storage.new_cid b ∷ cs)
          (write_file_bundle E (E.storage.new_cid b) cs b
            (provide_all E (E.storage.new_cid b ∷ cs) (record h { store = s }))).1
      ∙ write_file_bundle_keeps E f kept_local (E.storage.new_cid b) cs b
          (provide_all E (E.storage.new_cid b ∷ cs) (record h { store = s }))
      ∙ provide_all_keeps E f kept_local (E.storage.new_cid b ∷ cs) (record h { store = s })
    where
      after_replication_keeps :
          (root : Bytes) (r : Option Bytes × Host E) → f (after_replication E root r).1 ≡ f r.1
      after_replication_keeps root (none, k) = refl
      after_replication_keeps root (some e, k) = refl

  after_encode_keeps :
      (o : Orders) (cs : List Bytes) (h : Host E) (node : Result Bytes)
      → ((s : E.storage.Store) (k : Host E) → f (record k { store = s }) ≡ f k)
      → f (after_encode E o cs h node).1 ≡ f h
  after_encode_keeps o cs h (err e) any = unfold after_encode in refl
  after_encode_keeps o cs h (ok b) any = unfold after_encode in put_keeps (E.storage.put b h.store)
    where
      put_keeps : (p : Result Bytes × E.storage.Store) → f (after_put E o cs b h p).1 ≡ f h
      put_keeps (err e, s) = unfold after_put in any s h
      put_keeps (ok c, s) = after_put_keeps o cs b h c s ∙ any s h

  after_chunks_keeps :
      (o : Orders) (h : Host E) (r : Result (List Bytes) × E.storage.Store)
      → ((s : E.storage.Store) (k : Host E) → f (record k { store = s }) ≡ f k)
      → f (after_chunks E o h r).1 ≡ f h
  after_chunks_keeps o h (err e, s) any = unfold after_chunks in any s h
  after_chunks_keeps o h (ok cs, s) any =
      unfold after_chunks in after_encode_keeps o cs (record h { store = s }) _ any ∙ any s h

  -- What does not depend on the store either.
  pub add_file_keeps :
      (o : Orders) (path : Bytes) (h : Host E)
      → ((s : E.storage.Store) (k : Host E) → f (record k { store = s }) ≡ f k)
      → f (add_file E o path h).1 ≡ f h
  unfolding add_file
  add_file_keeps o path h any = after_chunks_keeps o h (E.storage.put_file path h.files h.store) any
