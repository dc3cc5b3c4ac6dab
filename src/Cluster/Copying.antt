-- ===== src/Cluster/Copying.antt =====
-- The replication of a list of blocks in a cluster: they are at a node that is chosen for each of them.
use p2p_distributed_system_m.Base.{
  ℕ, ◌≡◌, refl, sym, subst, ap, ◌∙◌, Bytes, List, [], ◌∷◌, Option, none, some, ok, arith,
  Result-cases, inl, inr,
}
use mathlib.Core.List.{Memᴰ}
use p2p_distributed_system_m.Network.Pool.{Net}
use p2p_distributed_system_m.Base.GoMap.{lookup}
use p2p_distributed_system_m.Gen.{StoreBlockRequest}
use p2p_distributed_system_m.Storage.{StorageLaws, CidLaws, Holds}
use p2p_distributed_system_m.Replication.{select_replica_peer_ids}
use p2p_distributed_system_m.Coordinator.Host.{Env, Orders, Host}
use p2p_distributed_system_m.Coordinator.Files.{
  addrs_of, replicate_to, replicate_to_ids, replicate_block, replicate_all,
}
use p2p_distributed_system_m.Coordinator.Files.Keeps.{replicate_block_keeps}
use p2p_distributed_system_m.Cluster.{Nodes, cluster, in_cluster}
use p2p_distributed_system_m.Cluster.Storing.{Has}
use p2p_distributed_system_m.Cluster.Spreading.{
  stored_at, IsStable, Having, Having-IsStable, On, replicate_to_addrs-Having,
}

module _ (E : Env) (a : Bytes) (oc : Orders) (time : Nodes E → ℕ × ℕ) where
  abbrev addrs_chosen : Host (in_cluster E oc time) → Option (List Bytes) → List Bytes
  addrs_chosen h none = []
  addrs_chosen h (some ids) = addrs_of h.reg ids

  -- The addresses that `AddFile` sends a block to.
  abbrev pub chosen : Orders → Host (in_cluster E oc time) → Bytes → List Bytes
  chosen o h c = addrs_chosen h (select_replica_peer_ids o.entries h.reg c h.repl_factor h.self_id)

  -- The node has every block of a list that the store has.
  abbrev pub Copies : E.storage.Store → List Bytes → Host E → Type 0
  Copies s cs k = (c : Bytes) → Memᴰ c cs → (b : Bytes) × (E.storage.get c s ≡ ok b) × Has E k c b

  pub Holds-Copies :
      (s : E.storage.Store) (cs : List Bytes) (content : Bytes) (k : Host E)
      → Copies s cs k
      → Holds E.storage s cs content
      → Holds E.storage k.store cs content
  Holds-Copies s [] content k copies held = held
  Holds-Copies s (c ∷ cs) content k copies (b, rest, got, e, held) =
      let (d, found, has) = copies c (Memᴰ.head refl) in
      let same : d ≡ b = ground (arith, got, found) in
      (
        b,
        rest,
        has.0 ∙ ap ok same,
        e,
        Holds-Copies s cs rest k (λ x m. copies x (Memᴰ.tail m)) held,
      )

  module _ (laws : StorageLaws E.storage) (cids : CidLaws E.storage)
      (room : (b : Bytes) (s : E.storage.Store)
        → (d : Bytes) × (s' : E.storage.Store) × (E.storage.put b s ≡ (ok d, s')))
      (I : Nodes E → Type 0)
      (kept : (req : StoreBlockRequest) (x : Bytes) (w : Nodes E)
        → I w
        → I (stored_at E req x w (lookup x w))) where
    replicate_to-Having :
        (Q : Host E → Type 0) (c b : Bytes) (addrs : List Bytes) (h : Host (in_cluster E oc time))
        → IsStable E a Q
        → E.storage.get c h.store ≡ ok b
        → Memᴰ a addrs
        → On E a I oc time Q h.net
        → On E a I oc time (Having E a Q c b) (replicate_to (in_cluster E oc time) addrs c b h).net
    unfolding replicate_to
    replicate_to-Having Q c b [] h stable got m on = elim m [ ]
    replicate_to-Having Q c b (x ∷ addrs) h stable got m on =
        let right : E.storage.verify_cid c b ≡ none = cids.stored c b h.store got in
        replicate_to_addrs-Having E a laws c b (cids.valid c b right) (cids.named c b right)
          (room b) oc time I kept Q (x ∷ addrs) h.net stable m on

    replicate_to_ids-Having :
        (Q : Host E → Type 0) (c b : Bytes) (ids : Option (List Bytes))
        (h : Host (in_cluster E oc time))
        → IsStable E a Q
        → E.storage.get c h.store ≡ ok b
        → Memᴰ a (addrs_chosen h ids)
        → On E a I oc time Q h.net
        → On E a I oc time
            (Having E a Q c b)
            (replicate_to_ids (in_cluster E oc time) ids c b h).net
    unfolding replicate_to_ids
    replicate_to_ids-Having Q c b none h stable got m on = elim m [ ]
    replicate_to_ids-Having Q c b (some ids) h stable got m on =
        replicate_to-Having Q c b (addrs_of h.reg ids) h stable got m on

    replicate_block-Having :
        (Q : Host E → Type 0) (o : Orders) (c b : Bytes) (h : Host (in_cluster E oc time))
        → IsStable E a Q
        → E.storage.get c h.store ≡ ok b
        → Memᴰ a (chosen o h c)
        → On E a I oc time Q h.net
        → On E a I oc time (Having E a Q c b) (replicate_block (in_cluster E oc time) o c b h).net
    unfolding replicate_block
    replicate_block-Having Q o c b h stable got m on =
        replicate_to_ids-Having Q c b
          (select_replica_peer_ids o.entries h.reg c h.repl_factor h.self_id) h stable got m on

    pub On-map :
        (Q R : Host E → Type 0) (n : Net (cluster E oc time))
        → ((k : Host E) → Q k → R k)
        → On E a I oc time Q n
        → On E a I oc time R n
    On-map Q R n f (pool, (k, there, named, q), i) = (pool, (k, there, named, f k q), i)

    cons-Copies :
        (Q : Host E → Type 0) (s : E.storage.Store) (c b : Bytes) (cs : List Bytes) (k : Host E)
        → E.storage.get c s ≡ ok b
        → Having E a Q c b k × Copies s cs k
        → Q k × Copies s (c ∷ cs) k
    cons-Copies Q s c b cs k got ((q, has), copies) = (
      q,
      λ x m. elim m [
        | Memᴰ.head e ↦
            subst (λ y. (d : Bytes) × (E.storage.get y s ≡ ok d) × Has E k y d) (sym e)
              (b, got, has)
        | Memᴰ.tail n ↦ copies x n
      ],
    )

    chosen-sent :
        (o : Orders) (c b x : Bytes) (h : Host (in_cluster E oc time))
        → chosen o (replicate_block (in_cluster E oc time) o c b h) x ≡ chosen o h x
    chosen-sent o c b x h =
        replicate_block_keeps (in_cluster E oc time)
          (λ (k : Host (in_cluster E oc time)). chosen o k x) (λ k n f p. refl) o c b h

    store-sent :
        (o : Orders) (c b : Bytes) (h : Host (in_cluster E oc time))
        → (replicate_block (in_cluster E oc time) o c b h).store ≡ h.store
    store-sent o c b h =
        replicate_block_keeps (in_cluster E oc time) (λ (k : Host (in_cluster E oc time)). k.store)
          (λ k n f p. refl) o c b h

    all_sent :
        (o : Orders) (c : Bytes) (cs : List Bytes) (b : Bytes) (h : Host (in_cluster E oc time))
        → E.storage.get c h.store ≡ ok b
        → replicate_all (in_cluster E oc time) o (c ∷ cs) h
          ≡ replicate_all
              (in_cluster E oc time)
              o
              cs
              (replicate_block (in_cluster E oc time) o c b h)
    unfolding replicate_all
    all_sent o c cs b h got = rw (got, replicate_all) refl

    -- Every block of a list is sent, where the loop meets no error.
    pub replicate_all-Copies :
        (Q : Host E → Type 0) (o : Orders) (cs : List Bytes) (h : Host (in_cluster E oc time))
        → IsStable E a Q
        → ((c : Bytes) → Memᴰ c cs → Memᴰ a (chosen o h c))
        → On E a I oc time Q h.net
        → (replicate_all (in_cluster E oc time) o cs h).0 ≡ none
        → On E a I oc time
            (λ k. Q k × Copies h.store cs k)
            (replicate_all (in_cluster E oc time) o cs h).1.net
    unfolding replicate_all
    replicate_all-Copies Q o [] h stable all on fine =
        On-map Q (λ k. Q k × Copies h.store [] k) h.net (λ k q. (q, λ c m. elim m [ ])) on
    replicate_all-Copies Q o (c ∷ cs) h stable all on fine =
        elim (Result-cases (E.storage.get c h.store)) [
          | inl (b, got) ↦
              let sent = replicate_block (in_cluster E oc time) o c b h in
              let all_rest : (x : Bytes) → Memᴰ x cs → Memᴰ a (chosen o sent x) =
                λ x m. subst (λ l. Memᴰ a l) (sym (chosen-sent o c b x h)) (all x (Memᴰ.tail m)) in
              let on_sent =
                replicate_block-Having Q o c b h stable got (all c (Memᴰ.head refl)) on in
              let rest =
                replicate_all-Copies (Having E a Q c b) o cs sent (Having-IsStable E a Q c b stable)
                  all_rest on_sent (rw (got, replicate_all) at fine) in
              subst (λ r. On E a I oc time (λ k. Q k × Copies h.store (c ∷ cs) k) r.1.net)
                (sym (all_sent o c cs b h got))
                (On-map (λ k. Having E a Q c b k × Copies sent.store cs k)
                  (λ k. Q k × Copies h.store (c ∷ cs) k)
                  (replicate_all (in_cluster E oc time) o cs sent).1.net
                  (λ k (q, copies).
                    cons-Copies Q h.store c b cs k got
                      (q, subst (λ s. Copies s cs k) (store-sent o c b h) copies))
                  rest)
          | inr (x, got) ↦ absurd (ground (arith, rw (got, replicate_all) at fine))
        ]
