-- ===== src/Dht/Providers.antt =====
-- internal/dht/provider_records.go. A CID leads to its providers by peer ID; the mutex makes each
-- method one step.
pub mod Laws
use p2p_distributed_system_m.Base.{
  Bytes, Bool, true, false, List, [], ◌∷◌, map, Option, none, some, if◌then◌else◌, ◌==◌,
}
use p2p_distributed_system_m.Base.GoMap.{GoMap, lookup, insert, delete}
use p2p_distributed_system_m.Base.Order.{RangeOrder}
use p2p_distributed_system_m.Gen.{PeerEndpoint}

abbrev pub Endpoints : Type 0
Endpoints = GoMap PeerEndpoint

pub record ProviderRecords : Type 0 where
  pub m : GoMap Endpoints

unfoldable pub new_provider_records : ProviderRecords
new_provider_records = record { m = [] }

-- A missing key is a nil map, which reads as an empty one.
abbrev pub or_empty : Option Endpoints → Endpoints
or_empty none = []
or_empty (some mp) = mp

unfoldable pub providers_of : Bytes → ProviderRecords → Endpoints
providers_of cid p = or_empty (lookup cid p.m)

unfoldable pub add : Bytes → Option PeerEndpoint → ProviderRecords → ProviderRecords
unfolding providers_of
add cid none p = p
add cid (some ep) p =
    if ep.peer_id == []
    then p
    else record { m = insert cid (insert ep.peer_id ep (providers_of cid p)) p.m }

unfoldable pub get : RangeOrder (Bytes × PeerEndpoint) → Bytes → ProviderRecords → List PeerEndpoint
unfolding providers_of
get o cid p = map (λ e. e.1) (o.visit (providers_of cid p))

unfoldable pub merge : Bytes → List (Option PeerEndpoint) → ProviderRecords → ProviderRecords
unfolding add
merge cid [] p = p
merge cid (ep ∷ eps) p = merge cid eps (add cid ep p)

unfoldable pub is_empty : Endpoints → Bool
is_empty [] = true
is_empty (e ∷ es) = false

-- Each CID loses the peer, and a CID without providers is dropped.
unfoldable pub without_peer : Bytes → GoMap Endpoints → GoMap Endpoints
unfolding is_empty
without_peer peer_id [] = []
without_peer peer_id ((cid, mp) ∷ rest) =
    let kept = delete peer_id mp in
    let others = without_peer peer_id rest in if is_empty kept then others else (cid, kept) ∷ others

unfoldable pub remove_peer : Bytes → ProviderRecords → ProviderRecords
unfolding without_peer
remove_peer peer_id p = if peer_id == [] then p else record { m = without_peer peer_id p.m }
