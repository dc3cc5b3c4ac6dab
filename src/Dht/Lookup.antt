-- ===== src/Dht/Lookup.antt =====
-- internal/dht/lookup.go. The goroutines ask the peers at the same time; each merges its whole answer
-- under the mutex, so the result is that of the answers in some order, which is a parameter.
pub mod Distinct
use p2p_distributed_system_m.Base.{
  Bytes, Bool, true, false, List, [], ◌∷◌, ◌++◌, ◌&&◌, not, Option, none, some, Result, ok, err,
  if◌then◌else◌, ◌==◌,
}
use p2p_distributed_system_m.Base.GoMap.{GoMap, lookup, insert}
use p2p_distributed_system_m.Base.Order.{RangeOrder}
use p2p_distributed_system_m.Gen.{PeerEndpoint, FindProviderResponse}
use p2p_distributed_system_m.Network.{Grpc}
use p2p_distributed_system_m.Network.Pool.{Net, with_client}
use p2p_distributed_system_m.Peer.Record.{Record, active}
use p2p_distributed_system_m.Peer.Registry.{◌is◌}
use p2p_distributed_system_m.Dht.Providers
use p2p_distributed_system_m.Dht.Providers.{ProviderRecords}

-- The variables `seen` and `out`.
pub record Found : Type 0 where
  pub seen : GoMap (Unit {0})
  pub out : List PeerEndpoint

unfoldable pub nothing_found : Found
nothing_found = record { seen = []; out = [] }

abbrev pub is_seen : Option (Unit {0}) → Bool
is_seen none = false
is_seen (some u) = true

-- The closure `add`.
unfoldable pub add : Option PeerEndpoint → Found → Found
add none f = f
add (some ep) f =
    if ep.peer_id == []
    then f
    else if is_seen (lookup ep.peer_id f.seen)
    then f
    else record { seen = insert ep.peer_id tt f.seen; out = f.out ++ ep ∷ [] }

unfoldable pub add_all : List (Option PeerEndpoint) → Found → Found
unfolding add
add_all [] f = f
add_all (ep ∷ eps) f = add_all eps (add ep f)

unfoldable pub pointers : List PeerEndpoint → List (Option PeerEndpoint)
pointers [] = []
pointers (ep ∷ eps) = some ep ∷ pointers eps

-- The addresses of the peers that are asked.
unfoldable pub to_ask : Bytes → List Record → List Bytes
to_ask self_grpc [] = []
to_ask self_grpc (pr ∷ prs) =
    let rest = to_ask self_grpc prs in
    if (pr.state is active) && (not (pr.grpc_addr == []) && not (pr.grpc_addr == self_grpc))
    then pr.grpc_addr ∷ rest
    else rest

unfoldable pub merge_answer : Result (Option FindProviderResponse) → Found → Found
unfolding add_all
merge_answer (err e) f = f
merge_answer (ok none) f = f
merge_answer (ok (some resp)) f = add_all resp.providers f

module _ (G : Grpc) where
  -- One goroutine.
  unfoldable pub ask : Bytes → Bytes → Net G → Result (Option FindProviderResponse) × Net G
  ask cid addr n = with_client G addr (λ c. G.find_provider c (record { cid = cid })) n

  unfoldable pub ask_all : Bytes → List Bytes → Found → Net G → Found × Net G
  unfolding ask merge_answer
  ask_all cid [] f n = (f, n)
  ask_all cid (addr ∷ addrs) f n =
      let (answer, n') = ask cid addr n in ask_all cid addrs (merge_answer answer f) n'

  unfoldable pub lookup_providers :
      RangeOrder (Bytes × PeerEndpoint)
      → RangeOrder Bytes
      → ProviderRecords
      → Bytes
      → List Record
      → Bytes
      → Net G
      → List PeerEndpoint × Net G
  unfolding ask_all add_all to_ask pointers nothing_found
  lookup_providers entries schedule local self_grpc peers cid n =
      let known = add_all (pointers (Providers.get entries cid local)) nothing_found in
      let (f, n') = ask_all cid (schedule.visit (to_ask self_grpc peers)) known n in (f.out, n')
