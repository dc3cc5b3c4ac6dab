-- ===== src/Tests/Peers.antt =====
-- A registry of two peers: the registry's calls, a sweep and a cleanup.
use mathlib.Core.Option
use p2p_distributed_system_m.Base.{
  ℕ_discrete, dec_text, ◌≡◌, ◌↔◌, ◌⊎◌, refl, codes, List, [], ◌∷◌, false, none, some, ◌*◌, arith,
  if◌then◌else◌,
}
use p2p_distributed_system_m.Base.GoMap.{lookup, insert, delete}
use p2p_distributed_system_m.Base.Order.{as_stored, backwards, find_first}
use p2p_distributed_system_m.Gen.{PeerEndpoint}
use p2p_distributed_system_m.Utils.{second}
use p2p_distributed_system_m.Peer.Record.{Record, State-discrete, active, inactive}
use p2p_distributed_system_m.Peer.Registry.{
  Registry, Call, upserts, marks, touches, run, new_registry, upsert, is_stale,
}
use p2p_distributed_system_m.Peer.Registry.Validity.{IsValid, run-new_registry-IsValid}
use p2p_distributed_system_m.Peer.Registry.Upsert.{
  HasNoPlace, admitted, upsert_refused_iff, upsert_refused-eq, upsert_stores,
}
use p2p_distributed_system_m.Peer.Registry.Others.{KeptUnless, stale_or_left, upsert_others}
use p2p_distributed_system_m.Peer.Registry.Redis.{IsMirrored, run-new_registry-IsMirrored}
use p2p_distributed_system_m.Peer.Manager.{new_manager, sweep}
use p2p_distributed_system_m.Peer.Manager.Sweep.{aged, lookup-sweep}
use p2p_distributed_system_m.Dht.Providers.{ProviderRecords, add, remove_peer, new_provider_records}
use p2p_distributed_system_m.Dht.Providers.Laws.{provider, provider-remove_peer}
use p2p_distributed_system_m.Scheduler.{cleanup}
use p2p_distributed_system_m.Scheduler.Effects.{buried, is_dead, lookup-cleanup, provider-cleanup}
use p2p_distributed_system_m.Peer.Registry.Snapshot.{test_at}

abbrev peer_a : Record
peer_a = record {
  id = codes "a";
  grpc_addr = codes "a:1";
  http_addr = codes "a:2";
  state = active;
  last_seen = 5;
  joined_at = 0;
}

abbrev peer_b : Record
peer_b = record peer_a { id = codes "b"; grpc_addr = codes "b:1"; http_addr = codes "b:2" }

-- `b` again, after a restart, under the address that it had.
abbrev peer_c : Record
peer_c = record peer_b { id = codes "c" }

abbrev calls : List Call
calls =
    upserts as_stored backwards 10 (some peer_a)
    ∷ touches 20 (codes "a")
    ∷ upserts backwards as_stored 30 (some peer_b)
    ∷ marks (codes "b") inactive
    ∷ []

abbrev known : Registry
known = run calls (new_registry (codes "a") (some []))

known-IsValid : IsValid known
known-IsValid = run-new_registry-IsValid (codes "a") (some []) calls

run-new_registry-IsValid_example : IsValid (run calls (new_registry (codes "a") (some [])))
run-new_registry-IsValid_example = run-new_registry-IsValid (codes "a") (some []) calls

run-new_registry-IsMirrored_example : IsMirrored (run calls (new_registry (codes "a") (some [])))
run-new_registry-IsMirrored_example = run-new_registry-IsMirrored (codes "a") calls refl

known-named : lookup [] known.peers ≡ none
unfolding run dec_text ℕ_discrete State-discrete lookup find_first new_registry insert is_stale
known-named = refl

upsert_refused_iff_example :
    ((upsert as_stored backwards 40 (some peer_c) known).1 ≡ false)
    ↔ ((peer_c.id ≡ []) ⊎ HasNoPlace peer_c known)
upsert_refused_iff_example =
    upsert_refused_iff as_stored backwards 40 peer_c known known-IsValid known-named

abbrev nobody : Record
nobody = record peer_a { id = [] }

upsert_refused-eq_example : (upsert as_stored backwards 40 (some nobody) known).0 ≡ known
unfolding upsert dec_text ℕ_discrete
upsert_refused-eq_example =
    upsert_refused-eq as_stored backwards 40 nobody known known-IsValid known-named refl

upsert_stores_example :
    lookup (codes "c") (upsert as_stored backwards 40 (some peer_c) known).0.peers
    ≡ some (admitted 40 peer_c (lookup (codes "c") known.peers))
unfolding run upsert dec_text ℕ_discrete State-discrete lookup find_first new_registry insert delete
    is_stale
upsert_stores_example = upsert_stores as_stored backwards 40 peer_c known known-IsValid refl

upsert_others_example :
    KeptUnless
      (stale_or_left peer_c)
      (codes "b")
      (lookup (codes "b") known.peers)
      (lookup (codes "b") (upsert as_stored backwards 40 (some peer_c) known).0.peers)
unfolding dec_text ℕ_discrete
upsert_others_example =
    upsert_others as_stored backwards 40 peer_c known known-IsValid (codes "b") (λ e. ground arith)

lookup-sweep_example :
    lookup (codes "b") (sweep backwards (90 * second) new_manager known).peers
    ≡ Option.map (aged (90 * second) new_manager known.self) (lookup (codes "b") known.peers)
lookup-sweep_example =
    lookup-sweep backwards (90 * second) new_manager known (codes "b") known-IsValid

abbrev at_b : PeerEndpoint
at_b = record { peer_id = codes "b"; grpc_addr = codes "b:1"; http_addr = codes "b:2" }

abbrev provided : ProviderRecords
provided = add (codes "cid") (some at_b) new_provider_records

lookup-cleanup_example :
    lookup (codes "b") (cleanup backwards (90 * second) (known, provided)).0.peers
    ≡ Option.map (buried (90 * second) known.self) (lookup (codes "b") known.peers)
lookup-cleanup_example =
    lookup-cleanup backwards (90 * second) known provided known-IsValid (codes "b")

provider-cleanup_example :
    provider (codes "cid") (codes "b") (cleanup backwards (90 * second) (known, provided)).1 ≡ (
      if test_at (is_dead (90 * second) known.self) (lookup (codes "b") known.peers)
      then none
      else provider (codes "cid") (codes "b") provided)
unfolding add new_provider_records dec_text ℕ_discrete insert lookup
provider-cleanup_example =
    provider-cleanup (90 * second) (codes "cid") (codes "b") refl backwards known provided
      known-IsValid (refl, tt)

provider-remove_peer_example :
    provider (codes "cid") (codes "b") (remove_peer (codes "b") provided) ≡ none
unfolding add new_provider_records dec_text ℕ_discrete insert lookup
provider-remove_peer_example =
    provider-remove_peer (codes "b") (codes "cid") (codes "b") provided (refl, tt) refl
