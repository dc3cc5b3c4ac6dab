-- ===== src/Cluster/Storing.antt =====
-- What `StoreBlock` does to the node that answers it.
use p2p_distributed_system_m.Base.{
  ◌≡◌, refl, sym, subst, Bytes, false, [], none, some, Result, ok, err, arith, ◌==◌, Bool-cases,
  Option-cases, inl, inr,
}
use p2p_distributed_system_m.Gen.{StoreBlockRequest}
use p2p_distributed_system_m.Storage.{StorageLaws}
use p2p_distributed_system_m.Dht.Providers
use p2p_distributed_system_m.Dht.Providers.Laws.{provider, provider-add}
use p2p_distributed_system_m.Coordinator.Host.{Env, Host, self_endpoint}
use p2p_distributed_system_m.Coordinator.Files.Roundtrip.{put-Keeps}
use p2p_distributed_system_m.Coordinator.Rpc.{block_put, serve_store_block}

module _ (E : Env) where
  -- The node has the block and says so in its records.
  abbrev pub Has : Host E → Bytes → Bytes → Type 0
  Has h c b =
      (E.storage.get c h.store ≡ ok b)
      × (provider c h.self_id h.providers ≡ some (self_endpoint E h))

  -- The same node later: it has kept its name and what it has.
  pub record Later (h h' : Host E) : Type 0 where
    pub same_id : h'.self_id ≡ h.self_id
    pub same : self_endpoint E h' ≡ self_endpoint E h
    pub keeps : (c b : Bytes) → Has h c b → Has h' c b

  pub Later-refl : (h : Host E) → Later h h
  Later-refl h = record { same_id = refl; same = refl; keeps = λ c b k. k }

  provider_self :
      (cid c : Bytes) (h : Host E)
      → (h.self_id == []) ≡ false
      → provider c h.self_id h.providers ≡ some (self_endpoint E h)
      → provider c h.self_id (Providers.add cid (some (self_endpoint E h)) h.providers)
        ≡ some (self_endpoint E h)
  unfolding self_endpoint
  provider_self cid c h named p =
      ground (arith, provider-add cid c h.self_id (self_endpoint E h) h.providers named)

  provider_own :
      (cid : Bytes) (h : Host E)
      → (h.self_id == []) ≡ false
      → provider cid h.self_id (Providers.add cid (some (self_endpoint E h)) h.providers)
        ≡ some (self_endpoint E h)
  unfolding self_endpoint
  provider_own cid h named =
      ground (arith, provider-add cid cid h.self_id (self_endpoint E h) h.providers named)

  module _ (laws : StorageLaws E.storage) where
    block_put-Later :
        (cid b : Bytes) (h : Host E) (p : Result Bytes × E.storage.Store)
        → (h.self_id == []) ≡ false
        → E.storage.put b h.store ≡ p
        → Later h (block_put E cid h p).1
    unfolding block_put self_endpoint
    block_put-Later cid b h (err e, s) named q = record {
      same_id = refl;
      same = refl;
      keeps = λ c d has. (put-Keeps E laws b (err e) h.store s q c d has.0, has.1);
    }
    block_put-Later cid b h (ok x, s) named q = record {
      same_id = refl;
      same = refl;
      keeps = λ c d has.
          (put-Keeps E laws b (ok x) h.store s q c d has.0, provider_self cid c h named has.1);
    }

    pub serve_store_block-Later :
        (req : StoreBlockRequest) (h : Host E)
        → (h.self_id == []) ≡ false
        → Later h (serve_store_block E (some req) h).1
    unfolding serve_store_block
    serve_store_block-Later req h named = elim (Bool-cases (req.cid == [])) [
      | inl e ↦ rw e (Later-refl h)
      | inr e ↦ elim (Option-cases (E.storage.validate req.cid)) [
        | inl v ↦
            rw (e, v)
              (block_put-Later req.cid req.block h (E.storage.put req.block h.store) named refl)
        | inr (x, v) ↦ rw (e, v) (Later-refl h)
      ]
    ]

    block_put-Has :
        (b c : Bytes) (h : Host E) (s : E.storage.Store)
        → (h.self_id == []) ≡ false
        → E.storage.put b h.store ≡ (ok c, s)
        → Has (block_put E (E.storage.new_cid b) h (ok c, s)).1 (E.storage.new_cid b) b
    unfolding block_put self_endpoint
    block_put-Has b c h s named q =
        (laws.put-get b c h.store s q, provider_own (E.storage.new_cid b) h named)

    -- A node with room takes a block under the CID of that block.
    pub serve_store_block-Has :
        (cid b c : Bytes) (h : Host E) (s : E.storage.Store)
        → (h.self_id == []) ≡ false
        → E.storage.validate cid ≡ none
        → cid ≡ E.storage.new_cid b
        → E.storage.put b h.store ≡ (ok c, s)
        → Has (serve_store_block E (some (record { cid = cid; block = b })) h).1 cid b
    unfolding serve_store_block
    serve_store_block-Has cid b c h s named valid own q =
        let known : (cid == []) ≡ false = ground (arith, own, laws.new_cid-ne-nil b) in
        rw (known, valid, q)
          (subst (λ x. Has (block_put E x h (ok c, s)).1 x b) (sym own)
            (block_put-Has b c h s named q))
