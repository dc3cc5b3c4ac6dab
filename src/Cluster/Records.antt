-- ===== src/Cluster/Records.antt =====
-- What provider records say of one node: under which address they name it, and what it provides.
use p2p_distributed_system_m.Base.{
  ◌≡◌, ◌⊎◌, refl, sym, subst, ap, Bytes, true, List, [], ◌∷◌, some, arith, ◌==◌, map, inl, inr,
  Bool-cases,
}
use mathlib.Core.List.{Memᴰ}
use mathlib.Core.List.Permᴰ
use p2p_distributed_system_m.Base.GoMap.{GoMap, lookup, insert, lookup-insert}
use p2p_distributed_system_m.Base.Order.{RangeOrder, perm-mem}
use p2p_distributed_system_m.Gen.{PeerEndpoint}
use p2p_distributed_system_m.Dht.Providers
use p2p_distributed_system_m.Dht.Providers.{ProviderRecords, Endpoints, or_empty, providers_of, add}
use p2p_distributed_system_m.Dht.Providers.Laws.{provider}
use p2p_distributed_system_m.Dht.Lookup.Distinct.{has_peer}

module _ {V : Type 0} where
  insert-mem :
      (key k : Bytes) (u v : V) (m : GoMap V)
      → Memᴰ (k, v) (insert key u m)
      → (v ≡ u) ⊎ Memᴰ (k, v) m
  unfolding insert
  insert-mem key k u v [] (Memᴰ.head e) = inl (ap (λ p. p.1) e)
  insert-mem key k u v [] (Memᴰ.tail m) = elim m [ ]
  insert-mem key k u v ((j, old) ∷ rest) h = elim (Bool-cases (j == key)) [
    | inl e ↦ replaced (rw e at h)
    | inr e ↦ skipped (λ n. insert-mem key k u v rest n) (rw e at h)
  ]
    where
      replaced : Memᴰ (k, v) ((j, u) ∷ rest) → (v ≡ u) ⊎ Memᴰ (k, v) ((j, old) ∷ rest)
      replaced (Memᴰ.head q) = inl (ap (λ p. p.1) q)
      replaced (Memᴰ.tail m) = inr (Memᴰ.tail m)

      skipped :
          (Memᴰ (k, v) (insert key u rest) → (v ≡ u) ⊎ Memᴰ (k, v) rest)
          → Memᴰ (k, v) ((j, old) ∷ insert key u rest)
          → (v ≡ u) ⊎ Memᴰ (k, v) ((j, old) ∷ rest)
      skipped go (Memᴰ.head q) = inr (Memᴰ.head q)
      skipped go (Memᴰ.tail m) = elim (go m) [ inl q ↦ inl q | inr n ↦ inr (Memᴰ.tail n) ]

  lookup-mem : (k : Bytes) (v : V) (m : GoMap V) → lookup k m ≡ some v → Memᴰ (k, v) m
  unfolding lookup
  lookup-mem k v [] h = absurd (ground arith)
  lookup-mem k v ((j, u) ∷ rest) h = elim (Bool-cases (j == k)) [
    | inl e ↦
        let same : k ≡ j = ground arith in
        let value : v ≡ u = ground arith in Memᴰ.head (λ i. (same i, value i))
    | inr e ↦ Memᴰ.tail (lookup-mem k v rest (rw e at h))
  ]

  map-mem : (x : V) (es : GoMap V) → Memᴰ x (map (λ e. e.1) es) → (k : Bytes) × Memᴰ (k, x) es
  map-mem x [] h = elim h [ ]
  map-mem x ((k, v) ∷ es) (Memᴰ.head q) = (k, Memᴰ.head (λ i. (k, q i)))
  map-mem x ((k, v) ∷ es) (Memᴰ.tail m) = let (j, n) = map-mem x es m in (j, Memᴰ.tail n)

  mem-map : (k : Bytes) (x : V) (es : GoMap V) → Memᴰ (k, x) es → Memᴰ x (map (λ e. e.1) es)
  mem-map k x [] h = elim h [ ]
  mem-map k x (e ∷ es) (Memᴰ.head q) = Memᴰ.head (ap (λ p. p.1) q)
  mem-map k x (e ∷ es) (Memᴰ.tail m) = Memᴰ.tail (mem-map k x es m)

pub mem-has_peer :
    (ep : PeerEndpoint) (eps : List PeerEndpoint) → Memᴰ ep eps → has_peer ep.peer_id eps ≡ true
mem-has_peer ep [] h = elim h [ ]
mem-has_peer ep (x ∷ eps) (Memᴰ.head q) =
    let same : (x.peer_id == ep.peer_id) ≡ true = ground (arith, ap (λ p. p.peer_id) q) in
    rw same refl
mem-has_peer ep (x ∷ eps) (Memᴰ.tail m) = ground (arith, mem-has_peer ep eps m)

module _ (id a : Bytes) where
  -- Endpoints that name the node with the ID `id` give its address `a`.
  abbrev pub Names : PeerEndpoint → Type 0
  Names ep = ep.peer_id ≡ id → ep.grpc_addr ≡ a

  abbrev pub AllName : List PeerEndpoint → Type 0
  AllName eps = (ep : PeerEndpoint) → Memᴰ ep eps → Names ep

  abbrev pub RecordsName : ProviderRecords → Type 0
  RecordsName p = (c k : Bytes) (ep : PeerEndpoint) → Memᴰ (k, ep) (providers_of c p) → Names ep

  pub get-AllName :
      (o : RangeOrder (Bytes × PeerEndpoint)) (c : Bytes) (p : ProviderRecords)
      → RecordsName p
      → AllName (Providers.get o c p)
  unfolding Providers.get
  get-AllName o c p r ep m =
      let (k, n) = map-mem ep (o.visit (providers_of c p)) m in
      r c k ep (perm-mem (o.visit-perm (providers_of c p)) n)

  providers_of-add :
      (cid c : Bytes) (ep : PeerEndpoint) (p : ProviderRecords)
      → (providers_of c (add cid (some ep) p) ≡ providers_of c p)
        ⊎ (providers_of c (add cid (some ep) p) ≡ insert ep.peer_id ep (providers_of cid p))
          × (cid ≡ c)
  unfolding add providers_of
  providers_of-add cid c ep p = elim (Bool-cases (ep.peer_id == [])) [
    | inl e ↦ inl (rw e refl)
    | inr e ↦ elim (Bool-cases (cid == c)) [
      | inl q ↦ inr (
        ground (arith, lookup-insert cid c (insert ep.peer_id ep (or_empty (lookup cid p.m))) p.m),
        ground arith,
      )
      | inr q ↦ inl (
          ground
            (arith, lookup-insert cid c (insert ep.peer_id ep (or_empty (lookup cid p.m))) p.m))
    ]
  ]

  pub add-RecordsName :
      (cid : Bytes) (ep : PeerEndpoint) (p : ProviderRecords)
      → Names ep
      → RecordsName p
      → RecordsName (add cid (some ep) p)
  add-RecordsName cid ep p n r c k x m = elim (providers_of-add cid c ep p) [
    | inl e ↦ r c k x (subst (λ l. Memᴰ (k, x) l) e m)
    | inr (e, q) ↦
        elim (insert-mem ep.peer_id k ep x (providers_of cid p) (subst (λ l. Memᴰ (k, x) l) e m)) [
          | inl same ↦ subst Names (sym same) n
          | inr old ↦ r cid k x old
        ]
  ]

-- A provider that is found under its ID is among those that `Get` returns.
pub get-has_peer :
    (o : RangeOrder (Bytes × PeerEndpoint)) (c : Bytes) (p : ProviderRecords) (ep : PeerEndpoint)
    → provider c ep.peer_id p ≡ some ep
    → has_peer ep.peer_id (Providers.get o c p) ≡ true
unfolding Providers.get
get-has_peer o c p ep h = mem-has_peer ep (Providers.get o c p) (
    mem-map ep.peer_id ep (o.visit (providers_of c p)) (
      perm-mem (Permᴰ.symm (o.visit-perm (providers_of c p)))
        (lookup-mem ep.peer_id ep (providers_of c p) h)))
