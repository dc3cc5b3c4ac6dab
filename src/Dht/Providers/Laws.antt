-- ===== src/Dht/Providers/Laws.antt =====
-- Which providers a CID has after each method.
use p2p_distributed_system_m.Base.{
  ◌≡◌, refl, Bytes, [], ◌∷◌, Option, none, some, true, false, arith, if◌then◌else◌, ◌==◌,
}
use p2p_distributed_system_m.Base.GoMap.{
  GoMap, lookup, insert, delete, Distinct, lookup-insert, lookup-delete, insert-Distinct,
}
use p2p_distributed_system_m.Gen.{PeerEndpoint}
use p2p_distributed_system_m.Dht.Providers.{
  Endpoints, ProviderRecords, or_empty, providers_of, add, is_empty, without_peer, remove_peer,
}

-- The endpoint under which `peer` provides `cid`, if it does.
abbrev pub provider : Bytes → Bytes → ProviderRecords → Option PeerEndpoint
provider cid peer p = lookup peer (providers_of cid p)

-- Adding a provider that has an ID is seen at its CID and its ID, and nowhere else.
pub provider-add :
    (cid c peer : Bytes) (ep : PeerEndpoint) (p : ProviderRecords)
    → (ep.peer_id == []) ≡ false
    → provider c peer (add cid (some ep) p) ≡ (
        if cid == c
        then (if ep.peer_id == peer then some ep else provider c peer p)
        else provider c peer p)
unfolding add providers_of
provider-add cid c peer ep p h = ground (
  arith,
  lookup-insert cid c (insert ep.peer_id ep (or_empty (lookup cid p.m))) p.m,
  lookup-insert ep.peer_id peer ep (or_empty (lookup cid p.m)),
)

lookup-empty : (peer : Bytes) (mp : Endpoints) → is_empty mp ≡ true → lookup peer mp ≡ none
unfolding is_empty lookup
lookup-empty peer [] h = refl
lookup-empty peer (e ∷ es) h = cc

without_peer-absent :
    (id c : Bytes) (m : GoMap Endpoints) → lookup c m ≡ none → lookup c (without_peer id m) ≡ none
unfolding without_peer lookup
without_peer-absent id c [] h = refl
without_peer-absent id c ((cid, mp) ∷ rest) h = ground (arith, without_peer-absent id c rest)

lookup-without_peer :
    (id c peer : Bytes) (m : GoMap Endpoints)
    → Distinct m
    → lookup peer (or_empty (lookup c (without_peer id m)))
      ≡ (if id == peer then none else lookup peer (or_empty (lookup c m)))
unfolding without_peer lookup
lookup-without_peer id c peer [] d = ground arith
lookup-without_peer id c peer ((cid, mp) ∷ rest) d = ground (
  arith,
  lookup-without_peer id c peer rest d.1,
  without_peer-absent id c rest,
  lookup-empty peer (delete id mp),
  lookup-delete id peer mp,
)

-- On records that have each CID once, `RemovePeer` with an ID that is not empty takes the peer from every
-- CID, and no other provider from any.
pub provider-remove_peer :
    (id c peer : Bytes) (p : ProviderRecords)
    → Distinct p.m
    → (id == []) ≡ false
    → provider c peer (remove_peer id p) ≡ (if id == peer then none else provider c peer p)
unfolding remove_peer providers_of
provider-remove_peer id c peer p d h = ground (arith, lookup-without_peer id c peer p.m d)

-- The same for a peer that has an ID: removing the empty ID changes nothing.
pub provider-remove_peer_named :
    (id c peer : Bytes) (p : ProviderRecords)
    → Distinct p.m
    → (peer == []) ≡ false
    → provider c peer (remove_peer id p) ≡ (if id == peer then none else provider c peer p)
unfolding remove_peer providers_of
provider-remove_peer_named id c peer p d h = ground (arith, lookup-without_peer id c peer p.m d)

without_peer-Distinct :
    (id : Bytes) (m : GoMap Endpoints) → Distinct m → Distinct (without_peer id m)
unfolding without_peer
without_peer-Distinct id [] d = tt
without_peer-Distinct id ((cid, mp) ∷ rest) d =
    ground (arith, without_peer-Distinct id rest d.1, without_peer-absent id cid rest d.0)

pub remove_peer-Distinct :
    (id : Bytes) (p : ProviderRecords) → Distinct p.m → Distinct (remove_peer id p).m
unfolding remove_peer
remove_peer-Distinct id p d = ground (arith, without_peer-Distinct id p.m d)

pub add-Distinct :
    (cid : Bytes) (ep : Option PeerEndpoint) (p : ProviderRecords)
    → Distinct p.m
    → Distinct (add cid ep p).m
unfolding add
add-Distinct cid none p d = d
add-Distinct cid (some ep) p d =
    ground (arith, insert-Distinct cid (insert ep.peer_id ep (providers_of cid p)) p.m d)
