-- ===== src/Dht/Lookup/Distinct.antt =====
-- The providers that a lookup returns.
use p2p_distributed_system_m.Base.{
  ◌≡◌, refl, Bytes, Bool, true, false, List, [], ◌∷◌, ◌++◌, Option, none, some, Result, ok, err,
  if◌then◌else◌, ◌==◌, arith, subst, dec_text,
}
use p2p_distributed_system_m.Base.GoMap.{lookup, lookup-insert}
use p2p_distributed_system_m.Base.Order.{RangeOrder}
use p2p_distributed_system_m.Gen.{PeerEndpoint, FindProviderResponse}
use p2p_distributed_system_m.Network.{Grpc}
use p2p_distributed_system_m.Network.Pool.{Net}
use p2p_distributed_system_m.Peer.Record.{Record}
use p2p_distributed_system_m.Dht.Providers
use p2p_distributed_system_m.Dht.Providers.{ProviderRecords}
use p2p_distributed_system_m.Dht.Lookup.{
  Found, nothing_found, is_seen, add, add_all, pointers, to_ask, merge_answer, ask, ask_all,
  lookup_providers,
}

-- A peer with this ID is in the list.
abbrev pub has_peer : Bytes → List PeerEndpoint → Bool
has_peer id [] = false
has_peer id (ep ∷ eps) = if ep.peer_id == id then true else has_peer id eps

-- Every peer has an ID, and no other peer of the list has the same.
abbrev pub AreDistinct : List PeerEndpoint → Type 0
AreDistinct [] = Unit
AreDistinct (ep ∷ eps) =
    ((ep.peer_id == []) ≡ false) × (has_peer ep.peer_id eps ≡ false) × AreDistinct eps

has_peer-append :
    (id : Bytes) (xs : List PeerEndpoint) (ep : PeerEndpoint)
    → has_peer id (xs ++ ep ∷ []) ≡ (if has_peer id xs then true else ep.peer_id == id)
has_peer-append id [] ep = ground arith
has_peer-append id (x ∷ xs) ep = ground (arith, has_peer-append id xs ep)

append-AreDistinct :
    (xs : List PeerEndpoint) (ep : PeerEndpoint)
    → AreDistinct xs
    → (ep.peer_id == []) ≡ false
    → has_peer ep.peer_id xs ≡ false
    → AreDistinct (xs ++ ep ∷ [])
append-AreDistinct [] ep d n h = (n, refl, tt)
append-AreDistinct (x ∷ xs) ep d n h =
    ground (arith, append-AreDistinct xs ep d.2 n, has_peer-append x.peer_id xs ep)

-- `seen` holds the IDs of `out`, and `out` names no peer twice.
pub record IsConsistent (f : Found) : Type 0 where
  pub distinct : AreDistinct f.out
  pub marked : (id : Bytes) → is_seen (lookup id f.seen) ≡ has_peer id f.out

pub nothing_found-IsConsistent : IsConsistent nothing_found
unfolding nothing_found lookup
nothing_found-IsConsistent = record { distinct = tt; marked = λ id. refl }

add-IsConsistent : (ep : Option PeerEndpoint) (f : Found) → IsConsistent f → IsConsistent (add ep f)
unfolding add
add-IsConsistent none f c = c
add-IsConsistent (some ep) f c = record {
  distinct =
      ground (arith, c.distinct, c.marked ep.peer_id, append-AreDistinct f.out ep c.distinct);
  marked = λ id.
      ground
        (arith, c.marked id, lookup-insert ep.peer_id id tt f.seen, has_peer-append id f.out ep);
}

pub add_all-IsConsistent :
    (eps : List (Option PeerEndpoint)) (f : Found) → IsConsistent f → IsConsistent (add_all eps f)
unfolding add_all
add_all-IsConsistent [] f c = c
add_all-IsConsistent (ep ∷ eps) f c = add_all-IsConsistent eps (add ep f) (add-IsConsistent ep f c)

-- What has been found stays found.
add_keeps :
    (ep : Option PeerEndpoint) (f : Found) (id : Bytes)
    → has_peer id f.out ≡ true
    → has_peer id (add ep f).out ≡ true
unfolding add
add_keeps none f id h = h
add_keeps (some ep) f id h = ground (arith, has_peer-append id f.out ep)

add_all_keeps :
    (eps : List (Option PeerEndpoint)) (f : Found) (id : Bytes)
    → has_peer id f.out ≡ true
    → has_peer id (add_all eps f).out ≡ true
unfolding add_all
add_all_keeps [] f id h = h
add_all_keeps (ep ∷ eps) f id h = add_all_keeps eps (add ep f) id (add_keeps ep f id h)

add_finds :
    (ep : PeerEndpoint) (f : Found)
    → IsConsistent f
    → (ep.peer_id == []) ≡ false
    → has_peer ep.peer_id (add (some ep) f).out ≡ true
unfolding add
add_finds ep f c n = ground (arith, c.marked ep.peer_id, has_peer-append ep.peer_id f.out ep)

pub add_all_finds :
    (eps : List PeerEndpoint) (f : Found) (id : Bytes)
    → IsConsistent f
    → (id == []) ≡ false
    → has_peer id eps ≡ true
    → has_peer id (add_all (pointers eps) f).out ≡ true
unfolding add_all pointers
add_all_finds [] f id c n h = absurd (ground arith)
add_all_finds (ep ∷ eps) f id c n h = elim (dec_text ep.peer_id id) [
  | yes e ↦
      add_all_keeps (pointers eps) (add (some ep) f) id
        (subst (λ i. has_peer i (add (some ep) f).out ≡ true) e (add_finds ep f c (ground arith)))
  | no e ↦ add_all_finds eps (add (some ep) f) id (add-IsConsistent (some ep) f c) n (ground arith)
]

pub merge_answer-IsConsistent :
    (r : Result (Option FindProviderResponse)) (f : Found)
    → IsConsistent f
    → IsConsistent (merge_answer r f)
unfolding merge_answer
merge_answer-IsConsistent (err e) f c = c
merge_answer-IsConsistent (ok none) f c = c
merge_answer-IsConsistent (ok (some resp)) f c = add_all-IsConsistent resp.providers f c

merge_answer_keeps :
    (r : Result (Option FindProviderResponse)) (f : Found) (id : Bytes)
    → has_peer id f.out ≡ true
    → has_peer id (merge_answer r f).out ≡ true
unfolding merge_answer
merge_answer_keeps (err e) f id h = h
merge_answer_keeps (ok none) f id h = h
merge_answer_keeps (ok (some resp)) f id h = add_all_keeps resp.providers f id h

module _ (G : Grpc) (cid : Bytes) where
  pub ask_all-IsConsistent :
      (addrs : List Bytes) (f : Found) (n : Net G)
      → IsConsistent f
      → IsConsistent (ask_all G cid addrs f n).0
  unfolding ask_all
  ask_all-IsConsistent [] f n c = c
  ask_all-IsConsistent (addr ∷ addrs) f n c =
      ask_all-IsConsistent addrs (merge_answer (ask G cid addr n).0 f) (ask G cid addr n).1
        (merge_answer-IsConsistent (ask G cid addr n).0 f c)

  pub ask_all_keeps :
      (addrs : List Bytes) (f : Found) (n : Net G) (id : Bytes)
      → has_peer id f.out ≡ true
      → has_peer id (ask_all G cid addrs f n).0.out ≡ true
  unfolding ask_all
  ask_all_keeps [] f n id h = h
  ask_all_keeps (addr ∷ addrs) f n id h =
      ask_all_keeps addrs (merge_answer (ask G cid addr n).0 f) (ask G cid addr n).1 id
        (merge_answer_keeps (ask G cid addr n).0 f id h)

  module _ (entries : RangeOrder (Bytes × PeerEndpoint)) (schedule : RangeOrder Bytes)
      (local : ProviderRecords) (self_grpc : Bytes) (peers : List Record) (n : Net G) where
    -- Whatever the other nodes answer and in whatever order, a lookup names no peer twice, and none
    -- without an ID.
    pub lookup_providers-AreDistinct :
        AreDistinct (lookup_providers G entries schedule local self_grpc peers cid n).0
    unfolding lookup_providers
    lookup_providers-AreDistinct =
        (ask_all-IsConsistent (schedule.visit (to_ask self_grpc peers))
          (add_all (pointers (Providers.get entries cid local)) nothing_found) n
          (add_all-IsConsistent (pointers (Providers.get entries cid local)) nothing_found
            nothing_found-IsConsistent)).distinct
