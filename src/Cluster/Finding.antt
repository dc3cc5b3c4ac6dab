-- ===== src/Cluster/Finding.antt =====
-- `LookupProviders` in a cluster: one node that provides a block is found.
use p2p_distributed_system_m.Base.{
  ℕ, ◌≡◌, ◌≢◌, ◌⊎◌, refl, sym, subst, ap, ◌∙◌, Bytes, true, false, List, [], ◌∷◌, Option, none,
  some, Result, ok, err, arith, ◌==◌, inl, inr,
}
use mathlib.Core.List.{Memᴰ}
use mathlib.Core.List.Permᴰ
use p2p_distributed_system_m.Base.GoMap.{lookup}
use p2p_distributed_system_m.Base.Order.{RangeOrder, perm-mem}
use p2p_distributed_system_m.Gen.{PeerEndpoint, FindProviderResponse}
use p2p_distributed_system_m.Network.Pool.{Net}
use p2p_distributed_system_m.Peer.Record.{Record}
use p2p_distributed_system_m.Dht.Providers
use p2p_distributed_system_m.Dht.Providers.{ProviderRecords}
use p2p_distributed_system_m.Dht.Lookup.{
  Found, nothing_found, add_all, pointers, to_ask, merge_answer, ask, ask_all, lookup_providers,
}
use p2p_distributed_system_m.Dht.Lookup.Distinct.{
  has_peer, IsConsistent, add_all_finds, ask_all_keeps, add_all-IsConsistent,
  nothing_found-IsConsistent, merge_answer-IsConsistent,
}
use p2p_distributed_system_m.Coordinator.Host.{Env, Orders, Host}
use p2p_distributed_system_m.Coordinator.Rpc.{serve_find_provider}
use p2p_distributed_system_m.Cluster.{Nodes, read_at, cluster}
use p2p_distributed_system_m.Cluster.Calls.{Over, with_client-Answers}
use p2p_distributed_system_m.Cluster.Naming.{pointers_to-eq, add_all-AllName, pointers-AllPointed}
use p2p_distributed_system_m.Cluster.Records.{AllName, RecordsName, get-AllName}

module _ (E : Env) (w : Nodes E) (id a : Bytes) where
  -- Every node's records give the address `a` to the node `id`.
  abbrev pub NodesName : Type 0
  NodesName = (x : Bytes) (h : Host E) → lookup x w ≡ some h → RecordsName id a h.providers

module _ (E : Env) (o : Orders) (time : Nodes E → ℕ × ℕ) (w : Nodes E) (id a cid : Bytes)
    (known : cid ≢ []) where
  abbrev answer : Option (Host E) → Result (Option FindProviderResponse)
  answer found = read_at E (λ h. ok (serve_find_provider E o (some (record { cid = cid })) h)) found

  serves :
      (h : Host E)
      → (serve_find_provider E o (some (record { cid = cid })) h).providers
        ≡ pointers (Providers.get o.endpoints cid h.providers)
  unfolding serve_find_provider
  serves h =
      let named : (cid == []) ≡ false = ground arith in
      rw named (pointers_to-eq (Providers.get o.endpoints cid h.providers))

  merge-AllName :
      (f : Found) (found : Option (Host E))
      → ((h : Host E) → found ≡ some h → RecordsName id a h.providers)
      → AllName id a f.out
      → AllName id a (merge_answer (answer found) f).out
  unfolding merge_answer
  merge-AllName f none honest r = r
  merge-AllName f (some h) honest r =
      subst (λ l. AllName id a (add_all l f).out) (sym (serves h))
        (add_all-AllName id a (pointers (Providers.get o.endpoints cid h.providers)) f
          (pointers-AllPointed id a (Providers.get o.endpoints cid h.providers)
            (get-AllName id a o.endpoints cid h.providers (honest h refl)))
          r)

  merge_finds :
      (f : Found) (h : Host E)
      → IsConsistent f
      → (id == []) ≡ false
      → has_peer id (Providers.get o.endpoints cid h.providers) ≡ true
      → has_peer id (merge_answer (answer (some h)) f).out ≡ true
  unfolding merge_answer
  merge_finds f h c named p =
      subst (λ l. has_peer id (add_all l f).out ≡ true) (sym (serves h))
        (add_all_finds (Providers.get o.endpoints cid h.providers) f id c named p)

  -- The answer of one node, or an error because there is none.
  abbrev Asked : Bytes → Result (Option FindProviderResponse) × Net (cluster E o time) → Type 0
  Asked x r =
      (((lookup x w ≡ none) × ((e : Bytes) × (r.0 ≡ err e))) ⊎ (r.0 ≡ answer (lookup x w)))
      × Over E o time w r.1

  ask-Asked :
      (x : Bytes) (n : Net (cluster E o time))
      → Over E o time w n
      → Asked x (ask (cluster E o time) cid x n)
  unfolding ask
  ask-Asked x n v =
      elim (with_client-Answers E o time
        (λ c u. (cluster E o time).find_provider c (record { cid = cid }) u) x w n v) [
          | inl (absent, failed, over) ↦ (inl (absent, failed), over)
          | inr (e, over) ↦ (inr e, over)
        ]

  answered-AllName :
      (x : Bytes) (f : Found) (r : Result (Option FindProviderResponse) × Net (cluster E o time))
      → NodesName E w id a
      → Asked x r
      → AllName id a f.out
      → AllName id a (merge_answer r.0 f).out
  answered-AllName x f (r, n) honest (inl (absent, (e, q)), v) named =
      subst (λ y. AllName id a (merge_answer y f).out) (sym q) (unfold merge_answer in named)
  answered-AllName x f (r, n) honest (inr q, v) named =
      subst (λ y. AllName id a (merge_answer y f).out) (sym q)
        (merge-AllName f (lookup x w) (λ h e. honest x h e) named)

  ask_all-AllName :
      (xs : List Bytes) (f : Found) (n : Net (cluster E o time))
      → NodesName E w id a
      → Over E o time w n
      → AllName id a f.out
      → AllName id a (ask_all (cluster E o time) cid xs f n).0.out
        × Over E o time w (ask_all (cluster E o time) cid xs f n).1
  unfolding ask_all
  ask_all-AllName [] f n honest v named = (named, v)
  ask_all-AllName (x ∷ xs) f n honest v named =
      let r = ask (cluster E o time) cid x n in
      let asked = ask-Asked x n v in
      ask_all-AllName xs (merge_answer r.0 f) r.1 honest asked.1
        (answered-AllName x f r honest asked named)

  answered_finds :
      (x : Bytes) (f : Found) (h : Host E)
      (r : Result (Option FindProviderResponse) × Net (cluster E o time))
      → lookup x w ≡ some h
      → Asked x r
      → IsConsistent f
      → (id == []) ≡ false
      → has_peer id (Providers.get o.endpoints cid h.providers) ≡ true
      → has_peer id (merge_answer r.0 f).out ≡ true
  answered_finds x f h (r, n) there (inl (absent, q), v) c named p =
      absurd (ground (arith, there, absent))
  answered_finds x f h (r, n) there (inr q, v) c named p =
      subst (λ y. has_peer id (merge_answer y f).out ≡ true) (sym (q ∙ ap answer there))
        (merge_finds f h c named p)

  ask_all_finds :
      (x : Bytes) (xs : List Bytes) (f : Found) (h : Host E) (n : Net (cluster E o time))
      → Memᴰ x xs
      → lookup x w ≡ some h
      → Over E o time w n
      → IsConsistent f
      → (id == []) ≡ false
      → has_peer id (Providers.get o.endpoints cid h.providers) ≡ true
      → has_peer id (ask_all (cluster E o time) cid xs f n).0.out ≡ true
  unfolding ask_all
  ask_all_finds x [] f h n m there v c named p = elim m [ ]
  ask_all_finds x (y ∷ xs) f h n (Memᴰ.head q) there v c named p =
      let r = ask (cluster E o time) cid y n in
      ask_all_keeps (cluster E o time) cid xs (merge_answer r.0 f) r.1 id
        (answered_finds y f h r (ap (λ z. lookup z w) (sym q) ∙ there) (ask-Asked y n v) c named p)
  ask_all_finds x (y ∷ xs) f h n (Memᴰ.tail m) there v c named p =
      let r = ask (cluster E o time) cid y n in
      ask_all_finds x xs (merge_answer r.0 f) h r.1 m there (ask-Asked y n v).1
        (merge_answer-IsConsistent r.0 f c) named p

  nothing_found-AllName : AllName id a nothing_found.out
  unfolding nothing_found
  nothing_found-AllName ep m = elim m [ ]

  -- A node that is asked and provides the block is named, under its address, and the nodes are as before.
  pub lookup_providers-AllName :
      (entries : RangeOrder (Bytes × PeerEndpoint)) (schedule : RangeOrder Bytes)
      (local : ProviderRecords) (self_grpc : Bytes) (peers : List Record)
      (n : Net (cluster E o time)) (x : Bytes) (h : Host E)
      → NodesName E w id a
      → RecordsName id a local
      → Over E o time w n
      → Memᴰ x (to_ask self_grpc peers)
      → lookup x w ≡ some h
      → (id == []) ≡ false
      → has_peer id (Providers.get o.endpoints cid h.providers) ≡ true
      → let r = lookup_providers (cluster E o time) entries schedule local self_grpc peers cid n in
        (has_peer id r.0 ≡ true) × AllName id a r.0 × Over E o time w r.1
  unfolding lookup_providers
  lookup_providers-AllName entries schedule local self_grpc peers n x h honest own v m there named
        p =
      let eps = Providers.get entries cid local in
      let f = add_all (pointers eps) nothing_found in
      let xs = schedule.visit (to_ask self_grpc peers) in
      let consistent =
        add_all-IsConsistent (pointers eps) nothing_found nothing_found-IsConsistent in
      let known_eps =
        add_all-AllName id a (pointers eps) nothing_found
          (pointers-AllPointed id a eps (get-AllName id a entries cid local own))
          nothing_found-AllName in
      let (all_named, over) = ask_all-AllName xs f n honest v known_eps in
      (
        ask_all_finds x xs f h n
            (perm-mem (Permᴰ.symm (schedule.visit-perm (to_ask self_grpc peers))) m) there v
            consistent named p,
        all_named,
        over,
      )
