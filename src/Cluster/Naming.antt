-- ===== src/Cluster/Naming.antt =====
-- What a lookup has found names a node by its one address, whichever endpoints are added to it.
use p2p_distributed_system_m.Base.{
  ◌≡◌, ◌⊎◌, refl, sym, subst, ap, Bytes, List, [], ◌∷◌, ◌++◌, Option, none, some, arith, ◌==◌, inl,
  inr, Bool-cases,
}
use mathlib.Core.List.{Memᴰ}
use p2p_distributed_system_m.Base.GoMap.{lookup}
use p2p_distributed_system_m.Gen.{PeerEndpoint}
use p2p_distributed_system_m.Dht.Lookup.{Found, is_seen, add, add_all, pointers}
use p2p_distributed_system_m.Coordinator.Rpc.{pointers_to}
use p2p_distributed_system_m.Cluster.Records.{Names, AllName}

pub pointers_to-eq : (eps : List PeerEndpoint) → pointers_to eps ≡ pointers eps
unfolding pointers_to pointers
pointers_to-eq [] = refl
pointers_to-eq (ep ∷ eps) = ap (λ l. some ep ∷ l) (pointers_to-eq eps)

mem-pointers :
    (ep : PeerEndpoint) (eps : List PeerEndpoint) → Memᴰ (some ep) (pointers eps) → Memᴰ ep eps
unfolding pointers
mem-pointers ep [] m = elim m [ ]
mem-pointers ep (x ∷ eps) (Memᴰ.head q) = Memᴰ.head (ground (arith, q))
mem-pointers ep (x ∷ eps) (Memᴰ.tail m) = Memᴰ.tail (mem-pointers ep eps m)

mem-append :
    (x y : PeerEndpoint) (xs : List PeerEndpoint) → Memᴰ x (xs ++ y ∷ []) → Memᴰ x xs ⊎ (x ≡ y)
mem-append x y [] (Memᴰ.head q) = inr q
mem-append x y [] (Memᴰ.tail m) = elim m [ ]
mem-append x y (z ∷ xs) (Memᴰ.head q) = inl (Memᴰ.head q)
mem-append x y (z ∷ xs) (Memᴰ.tail m) = elim (mem-append x y xs m) [
  | inl n ↦ inl (Memᴰ.tail n)
  | inr e ↦ inr e
]

module _ (id a : Bytes) where
  abbrev AllPointed : List (Option PeerEndpoint) → Type 0
  AllPointed l = (ep : PeerEndpoint) → Memᴰ (some ep) l → Names id a ep

  append-AllName :
      (eps : List PeerEndpoint) (ep : PeerEndpoint)
      → Names id a ep
      → AllName id a eps
      → AllName id a (eps ++ ep ∷ [])
  append-AllName eps ep n r x m = elim (mem-append x ep eps m) [
    | inl old ↦ r x old
    | inr e ↦ subst (Names id a) (sym e) n
  ]

  add-AllName :
      (ep : Option PeerEndpoint) (f : Found)
      → ((x : PeerEndpoint) → ep ≡ some x → Names id a x)
      → AllName id a f.out
      → AllName id a (add ep f).out
  unfolding add
  add-AllName none f n r = r
  add-AllName (some ep) f n r = elim (Bool-cases (ep.peer_id == [])) [
    | inl e ↦ rw e r
    | inr e ↦ elim (Bool-cases (is_seen (lookup ep.peer_id f.seen))) [
      | inl s ↦ rw (e, s) r
      | inr s ↦ rw (e, s) (append-AllName f.out ep (n ep refl) r)
    ]
  ]

  pub add_all-AllName :
      (eps : List (Option PeerEndpoint)) (f : Found)
      → AllPointed eps
      → AllName id a f.out
      → AllName id a (add_all eps f).out
  unfolding add_all
  add_all-AllName [] f n r = r
  add_all-AllName (ep ∷ eps) f n r =
      add_all-AllName eps (add ep f) (λ x m. n x (Memᴰ.tail m))
        (add-AllName ep f (λ x q. n x (Memᴰ.head (sym q))) r)

  pub pointers-AllPointed : (eps : List PeerEndpoint) → AllName id a eps → AllPointed (pointers eps)
  pointers-AllPointed eps r ep m = r ep (mem-pointers ep eps m)
