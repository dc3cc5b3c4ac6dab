-- ===== src/Coordinator/Rpc/Serving.antt =====
-- What the calls that a node serves do to its state.
use p2p_distributed_system_m.Base.{
  ℕ, ◌≡◌, refl, Bytes, [], true, false, Option, none, some, Result, ok, err, arith, ◌==◌,
  Bool-cases, Option-cases, inl, inr,
}
use p2p_distributed_system_m.Base.GoMap.{Distinct}
use p2p_distributed_system_m.Gen.{PeerEndpoint, StoreBlockRequest, LeaveNetworkRequest}
use p2p_distributed_system_m.Storage.{StorageLaws}
use p2p_distributed_system_m.Peer.Registry.{Registry}
use p2p_distributed_system_m.Peer.Registry.Validity.{
  IsValid, touch-IsValid, upsert-IsValid, mark_state-IsValid, remove-IsValid,
}
use p2p_distributed_system_m.Peer.Manager.{leave}
use p2p_distributed_system_m.Dht.Providers.Laws.{add-Distinct}
use p2p_distributed_system_m.Coordinator.Host.{Env, Orders, Host, self_endpoint}
use p2p_distributed_system_m.Coordinator.Rpc.{
  touch_named, block_put, serve_store_block, serve_get_block, serve_leave_network, join_self,
  add_named, Incoming, pings, stores, reads, joins, leaves, beats, provides, serve_call, joining,
}

leave-IsValid : (id : Bytes) (r : Registry) → IsValid r → IsValid (leave id r)
unfolding leave
leave-IsValid id r v = remove-IsValid id (mark_state-IsValid id _ r v)

module _ (E : Env) where
  -- The registry is valid, and the provider records have each CID once.
  pub record IsSound (h : Host E) : Type 0 where
    pub registry : IsValid h.reg
    pub records : Distinct h.providers.m

  pub with_reg :
      (r : Registry) (h : Host E) → IsValid r → IsSound h → IsSound (record h { reg = r })
  with_reg r h v s = record { registry = v; records = s.records }

  touch_named-IsSound :
      (now : ℕ) (id : Bytes) (h : Host E) → IsSound h → IsSound (touch_named E now id h)
  unfolding touch_named
  touch_named-IsSound now id h s = elim (Bool-cases (id == [])) [
    | inl e ↦ rw e s
    | inr e ↦ rw e (with_reg _ h (touch-IsValid now id h.reg s.registry) s)
  ]

  block_put-IsSound :
      (cid : Bytes) (h : Host E) (p : Result Bytes × E.storage.Store)
      → IsSound h
      → IsSound (block_put E cid h p).1
  unfolding block_put
  block_put-IsSound cid h (err e, t) s = record { registry = s.registry; records = s.records }
  block_put-IsSound cid h (ok c, t) s = record {
    registry = s.registry;
    records = add-Distinct cid (some (self_endpoint E h)) h.providers s.records;
  }

  store_block-IsSound :
      (req : Option StoreBlockRequest) (h : Host E)
      → IsSound h
      → IsSound (serve_store_block E req h).1
  unfolding serve_store_block
  store_block-IsSound none h s = s
  store_block-IsSound (some req) h s = elim (Bool-cases (req.cid == [])) [
    | inl e ↦ rw e s
    | inr e ↦ elim (Option-cases (E.storage.validate req.cid)) [
      | inl v ↦ rw (e, v) (block_put-IsSound req.cid h (E.storage.put req.block h.store) s)
      | inr (x, v) ↦ rw (e, v) s
    ]
  ]

  join_self-IsSound :
      (o : Orders) (now later : ℕ) (self : Option PeerEndpoint) (h : Host E)
      → IsSound h
      → IsSound (join_self E o now later self h).1
  unfolding join_self
  join_self-IsSound o now later none h s = s
  join_self-IsSound o now later (some self) h s =
      with_reg _ h (upsert-IsValid o.stale o.evict later (some (joining now self)) h.reg s.registry)
        s

  add_named-IsSound :
      (cid : Bytes) (ep : Option PeerEndpoint) (h : Host E)
      → IsSound h
      → IsSound (add_named E cid ep h).1
  unfolding add_named
  add_named-IsSound cid none h s = s
  add_named-IsSound cid (some ep) h s = elim (Bool-cases (cid == [])) [
    | inl e ↦ rw e s
    | inr e ↦ rw e (record {
      registry = s.registry;
      records = add-Distinct cid (some ep) h.providers s.records;
    })
  ]

  leave_network-IsSound :
      (req : Option LeaveNetworkRequest) (h : Host E)
      → IsSound h
      → IsSound (serve_leave_network E req h).1
  unfolding serve_leave_network
  leave_network-IsSound none h s = s
  leave_network-IsSound (some req) h s = elim (Bool-cases (req.peer_id == [])) [
    | inl e ↦ rw e s
    | inr e ↦ rw e (with_reg _ h (leave-IsValid req.peer_id h.reg s.registry) s)
  ]

  pub serve_call-IsSound : (c : Incoming E) (h : Host E) → IsSound h → IsSound (serve_call E c h)
  unfolding serve_call
  serve_call-IsSound (pings now none) h s = s
  serve_call-IsSound (pings now (some req)) h s = touch_named-IsSound now req.peer_id h s
  serve_call-IsSound (stores req) h s = store_block-IsSound req h s
  serve_call-IsSound reads h s = s
  serve_call-IsSound (joins o now later none) h s = s
  serve_call-IsSound (joins o now later (some req)) h s = join_self-IsSound o now later req.self h s
  serve_call-IsSound (leaves req) h s = leave_network-IsSound req h s
  serve_call-IsSound (beats now none) h s = s
  serve_call-IsSound (beats now (some req)) h s = touch_named-IsSound now req.peer_id h s
  serve_call-IsSound (provides none) h s = s
  serve_call-IsSound (provides (some req)) h s = add_named-IsSound req.cid req.provider h s

  module _ (laws : StorageLaws E.storage) where
    put_served :
        (cid b : Bytes) (h : Host E) (p : Result Bytes × E.storage.Store)
        → E.storage.put b h.store ≡ p
        → (block_put E cid h p).0.ok ≡ true
        → E.storage.get (E.storage.new_cid b) (block_put E cid h p).1.store ≡ ok b
    unfolding block_put
    put_served cid b h (err e, s) q t = absurd (ground arith)
    put_served cid b h (ok c, s) q t = laws.put-get b c h.store s q

    -- A block that a node has taken by `StoreBlock` is served by `GetBlock` under its own CID, whatever
    -- CID the request named. The block store satisfies its laws.
    pub get_block-store_block :
        (req : StoreBlockRequest) (h : Host E)
        → (serve_store_block E (some req) h).0.ok ≡ true
        → serve_get_block E
            (some (record { cid = E.storage.new_cid req.block }))
            (serve_store_block E (some req) h).1
          ≡ ok (record { block = req.block; error_message = [] })
    unfolding serve_store_block serve_get_block
    get_block-store_block req h t = elim (Bool-cases (req.cid == [])) [
      | inl e ↦ absurd (ground arith)
      | inr e ↦ elim (Option-cases (E.storage.validate req.cid)) [
        | inl v ↦
            let named : (E.storage.new_cid req.block == []) ≡ false =
              ground (arith, laws.new_cid-ne-nil req.block) in
            let served =
              put_served req.cid req.block h (E.storage.put req.block h.store) refl
                (rw (e, v) at t) in
            rw (e, v, named, served) refl
        | inr (x, v) ↦ absurd (ground arith)
      ]
    ]
