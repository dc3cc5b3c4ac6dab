-- ===== src/Cluster/Spreading.antt =====
-- `ReplicateToAddrs` in a cluster: what it does to the node at one address.
use p2p_distributed_system_m.Base.{
  ℕ, ◌≡◌, refl, sym, subst, ap, ◌∙◌, Bytes, false, List, [], ◌∷◌, Option, none, some, Result, ok,
  arith, ◌==◌, Bool-cases, inl, inr,
}
use mathlib.Core.List.{Memᴰ}
use p2p_distributed_system_m.Base.GoMap.{lookup, insert, lookup-insert}
use p2p_distributed_system_m.Gen.{StoreBlockRequest, StoreBlockResponse}
use p2p_distributed_system_m.Network.Pool.{Net}
use p2p_distributed_system_m.Storage.{StorageLaws}
use p2p_distributed_system_m.Replication.{store_on_peer, replicate_from, replicate_to_addrs, later}
use p2p_distributed_system_m.Coordinator.Host.{Env, Orders, Host}
use p2p_distributed_system_m.Coordinator.Rpc.{serve_store_block}
use p2p_distributed_system_m.Cluster.{Nodes, write_at, cluster}
use p2p_distributed_system_m.Cluster.Calls.{IsPool, Over, with_client-Answers}
use p2p_distributed_system_m.Cluster.Storing.{
  Has, Later, serve_store_block-Later, serve_store_block-Has,
}

module _ (E : Env) where
  -- The one call, at an address where `found` is the node.
  abbrev pub stored_at : StoreBlockRequest → Bytes → Nodes E → Option (Host E) → Nodes E
  stored_at req x w found = (write_at E (serve_store_block E (some req)) x w found).1

module _ (E : Env) (a : Bytes) where
  -- The node at `a` has an ID, and is one of `Q`.
  abbrev pub At : (Host E → Type 0) → Nodes E → Type 0
  At Q w = (h : Host E) × (lookup a w ≡ some h) × ((h.self_id == []) ≡ false) × Q h

  -- What stays true of a node that takes blocks.
  abbrev pub IsStable : (Host E → Type 0) → Type 0
  IsStable Q = (h h' : Host E) → Later E h h' → Q h → Q h'

  -- A node of `Q` that has the block.
  abbrev pub Having : (Host E → Type 0) → Bytes → Bytes → Host E → Type 0
  Having Q c b h = Q h × Has E h c b

  pub Having-IsStable : (Q : Host E → Type 0) (c b : Bytes) → IsStable Q → IsStable (Having Q c b)
  Having-IsStable Q c b stable h h' l (q, has) = (stable h h' l q, l.keeps c b has)

  -- The network of a node, with such a node at `a`, and nodes that satisfy `I`.
  abbrev pub On :
      (Nodes E → Type 0)
      → (o : Orders) (time : Nodes E → ℕ × ℕ) → (Host E → Type 0)
      → Net (cluster E o time)
      → Type 0
  On I o time Q n = IsPool n.conns × At Q n.world × I n.world

  module _ (laws : StorageLaws E.storage) where
    Later-At :
        (Q R : Host E → Type 0) (h h' : Host E) (w : Nodes E)
        → Later E h h'
        → (h.self_id == []) ≡ false
        → R h'
        → At R (insert a h' w)
    Later-At Q R h h' w l named r = (
      h',
      ground (arith, lookup-insert a a h' w),
      subst (λ i. (i == []) ≡ false) (sym l.same_id) named,
      r,
    )

    same_host : (h k : Host E) (w : Nodes E) → lookup a w ≡ some h → lookup a w ≡ some k → h ≡ k
    same_host h k w p q = ap (λ z. elim z [ some y ↦ y | none ↦ h ]) (sym p ∙ q)

    stored-At :
        (Q : Host E → Type 0) (req : StoreBlockRequest) (x : Bytes) (w : Nodes E)
        (found : Option (Host E))
        → IsStable Q
        → lookup x w ≡ found
        → At Q w
        → At Q (stored_at E req x w found)
    stored-At Q req x w none stable e at = at
    stored-At Q req x w (some k) stable e (h, there, named, q) = elim (Bool-cases (x == a)) [
      | inl s ↦
          let x_is_a : a ≡ x = ground arith in
          let same : h ≡ k = same_host h k w there (ap (λ z. lookup z w) x_is_a ∙ e) in
          let k_named = subst (λ z. (z.self_id == []) ≡ false) same named in
          let l = serve_store_block-Later E laws req k k_named in
          subst (λ z. At Q (insert z (serve_store_block E (some req) k).1 w)) x_is_a
            (Later-At Q Q k (serve_store_block E (some req) k).1 w l k_named
              (stable k (serve_store_block E (some req) k).1 l (subst Q same q)))
      | inr s ↦ (
        h,
        ground (arith, lookup-insert x a (serve_store_block E (some req) k).1 w, there),
        named,
        q,
      )
    ]

    module _ (c b : Bytes) (valid : E.storage.validate c ≡ none) (own : c ≡ E.storage.new_cid b)
        (room : (s : E.storage.Store)
          → (d : Bytes) × (s' : E.storage.Store) × (E.storage.put b s ≡ (ok d, s'))) where
      stored-Having :
          (Q : Host E → Type 0) (w : Nodes E)
          → IsStable Q
          → At Q w
          → At (Having Q c b) (stored_at E (record { cid = c; block = b }) a w (lookup a w))
      stored-Having Q w stable (h, there, named, q) =
          let (d, s, put) = room h.store in
          let l = serve_store_block-Later E laws (record { cid = c; block = b }) h named in
          let h' = (serve_store_block E (some (record { cid = c; block = b })) h).1 in
          subst (λ f. At (Having Q c b) (stored_at E (record { cid = c; block = b }) a w f))
            (sym there)
            (Later-At Q (Having Q c b) h h' w l named
              (stable h h' l q, serve_store_block-Has E laws c b d h s named valid own put))

      module _ (o : Orders) (time : Nodes E → ℕ × ℕ) (I : Nodes E → Type 0)
          (kept : (req : StoreBlockRequest) (x : Bytes) (w : Nodes E)
            → I w
            → I (stored_at E req x w (lookup x w))) where
        abbrev calling : Bytes → Nodes E → Result (Option StoreBlockResponse) × Nodes E
        calling x w = (cluster E o time).store_block x (record { cid = c; block = b }) w

        Over-On :
            (Q : Host E → Type 0) (w : Nodes E) (n : Net (cluster E o time))
            → Over E o time w n
            → At Q w
            → I w
            → On I o time Q n
        Over-On Q w n v at i = (v.pool, subst (At Q) (sym v.world) at, subst I (sym v.world) i)

        store_on_peer-On :
            (Q : Host E → Type 0) (x : Bytes) (n : Net (cluster E o time))
            → IsStable Q
            → On I o time Q n
            → On I o time Q (store_on_peer (cluster E o time) x c b n).1
        unfolding store_on_peer
        store_on_peer-On Q x n stable (pool, at, i) =
            elim (with_client-Answers E o time calling x n.world n
              (record { world = refl; pool = pool })) [
                | inl (absent, failed, over) ↦ Over-On Q n.world _ over at i
                | inr (e, over) ↦
                    Over-On Q (calling x n.world).1 _ over
                      (stored-At Q (record { cid = c; block = b }) x n.world (lookup x n.world)
                        stable refl at)
                      (kept (record { cid = c; block = b }) x n.world i)
              ]

        store_on_peer-Having :
            (Q : Host E → Type 0) (n : Net (cluster E o time))
            → IsStable Q
            → On I o time Q n
            → On I o time (Having Q c b) (store_on_peer (cluster E o time) a c b n).1
        unfolding store_on_peer
        store_on_peer-Having Q n stable (pool, at, i) =
            elim (with_client-Answers E o time calling a n.world n
              (record { world = refl; pool = pool })) [
                | inl (absent, failed, over) ↦ absurd (ground (arith, absent, at.1))
                | inr (e, over) ↦
                    Over-On (Having Q c b) (calling a n.world).1 _ over
                      (stored-Having Q n.world stable at)
                      (kept (record { cid = c; block = b }) a n.world i)
              ]

        replicate_from-On :
            (Q : Host E → Type 0) (last : Option Bytes) (addrs : List Bytes)
            (n : Net (cluster E o time))
            → IsStable Q
            → On I o time Q n
            → On I o time Q (replicate_from (cluster E o time) last addrs c b n).1
        unfolding replicate_from
        replicate_from-On Q last [] n stable on = on
        replicate_from-On Q last (x ∷ addrs) n stable on =
            let r = store_on_peer (cluster E o time) x c b n in
            replicate_from-On Q (later last r.0) addrs r.1 stable (store_on_peer-On Q x n stable on)

        replicate_from-Having :
            (Q : Host E → Type 0) (last : Option Bytes) (addrs : List Bytes)
            (n : Net (cluster E o time))
            → IsStable Q
            → Memᴰ a addrs
            → On I o time Q n
            → On I o time (Having Q c b) (replicate_from (cluster E o time) last addrs c b n).1
        unfolding replicate_from
        replicate_from-Having Q last [] n stable m on = elim m [ ]
        replicate_from-Having Q last (x ∷ addrs) n stable (Memᴰ.head e) on =
            let r = store_on_peer (cluster E o time) x c b n in
            replicate_from-On (Having Q c b) (later last r.0) addrs r.1
              (Having-IsStable Q c b stable)
              (subst (λ y. On I o time (Having Q c b) (store_on_peer (cluster E o time) y c b n).1)
                e (store_on_peer-Having Q n stable on))
        replicate_from-Having Q last (x ∷ addrs) n stable (Memᴰ.tail m) on =
            let r = store_on_peer (cluster E o time) x c b n in
            replicate_from-Having Q (later last r.0) addrs r.1 stable m
              (store_on_peer-On Q x n stable on)

        -- A block that is sent to an address with a node is there afterwards, and nothing is lost.
        pub replicate_to_addrs-Having :
            (Q : Host E → Type 0) (addrs : List Bytes) (n : Net (cluster E o time))
            → IsStable Q
            → Memᴰ a addrs
            → On I o time Q n
            → On I o time (Having Q c b) (replicate_to_addrs (cluster E o time) addrs c b n).1
        unfolding replicate_to_addrs
        replicate_to_addrs-Having Q addrs n stable m on =
            replicate_from-Having Q none addrs n stable m on
