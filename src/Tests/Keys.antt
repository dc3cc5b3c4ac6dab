-- ===== src/Tests/Keys.antt =====
-- Keys of peers: distances between short keys, and a query for the closest peer.
use p2p_distributed_system_m.Base.{
  ℕ, ◌≡◌, ◌≤◌, ◌<◌, ◌+◌, refl, Bytes, codes, List, [], ◌∷◌, none, some, arith,
}
use p2p_distributed_system_m.Base.Hex.{decode_string, hex_value}
use p2p_distributed_system_m.Base.Order.{as_stored, backwards}
use p2p_distributed_system_m.Peer.Record.{Record, active}
use p2p_distributed_system_m.Peer.Registry.{Registry, Call, upserts, run, new_registry}
use p2p_distributed_system_m.Peer.Registry.Validity.{run-new_registry-IsValid}
use p2p_distributed_system_m.Replication.{only_active}
use p2p_distributed_system_m.Dht.Xor.{key_from_hex, distance}
use p2p_distributed_system_m.Dht.Xor.Metric.{distance-injective, distance_triangle}
use p2p_distributed_system_m.Dht.Xor.Bounds.{distance_bound}
use Prim.Native.Nat.{zero, suc, ◌^◌}
use p2p_distributed_system_m.Dht.Routing.{closest_peer_ids}
use p2p_distributed_system_m.Dht.Routing.Closest.{IsClosest, closest_peer_ids-IsClosest}

abbrev key : Bytes
key = 5 ∷ 200 ∷ []

distance-injective_example : key ≡ key
unfolding distance
distance-injective_example =
    distance-injective (1 ∷ 2 ∷ []) key key refl refl (omega arith, (omega arith, tt))
      (omega arith, (omega arith, tt)) (omega arith, (omega arith, tt)) refl

distance_triangle_example :
    (x : ℕ) × (y : ℕ) × (z : ℕ) × (distance (1 ∷ 2 ∷ []) (7 ∷ 9 ∷ []) ≡ some x)
    × (distance (1 ∷ 2 ∷ []) (5 ∷ 200 ∷ []) ≡ some y)
    × (distance (5 ∷ 200 ∷ []) (7 ∷ 9 ∷ []) ≡ some z)
    × (x ≤ y + z)
distance_triangle_example = distance_triangle (1 ∷ 2 ∷ []) (5 ∷ 200 ∷ []) (7 ∷ 9 ∷ []) refl refl

abbrev id_a : Bytes
id_a = codes "aa00000000000000000000000000000000000000000000000000000000000000"

abbrev id_b : Bytes
id_b = codes "bb00000000000000000000000000000000000000000000000000000000000000"

abbrev zeros_after : ℕ → ℕ → Bytes
zeros_after b zero = b ∷ []
zeros_after b (suc n) = b ∷ zeros_after 0 n

distance_bound_example :
    (d : ℕ) × (distance (zeros_after 170 31) (zeros_after 187 31) ≡ some d) × (d < 2 ^ 256)
unfolding key_from_hex decode_string hex_value
distance_bound_example =
    distance_bound id_a id_b (zeros_after 170 31) (zeros_after 187 31) refl refl

abbrev peer_a : Record
peer_a = record {
  id = id_a;
  grpc_addr = codes "a:1";
  http_addr = codes "a:2";
  state = active;
  last_seen = 5;
  joined_at = 0;
}

abbrev peer_b : Record
peer_b = record peer_a { id = id_b; grpc_addr = codes "b:1"; http_addr = codes "b:2" }

abbrev calls : List Call
calls =
    upserts as_stored backwards 10 (some peer_a) ∷ upserts as_stored backwards 20 (some peer_b) ∷ []

abbrev known : Registry
known = run calls (new_registry id_a none)

abbrev eight : Bytes → Bytes
eight l = 170 ∷ 0 ∷ 0 ∷ 0 ∷ 0 ∷ 0 ∷ 0 ∷ 1 ∷ l

abbrev target : Bytes
target = eight (eight (eight (eight [])))

closest_peer_ids-IsClosest_example :
    IsClosest known target 1 id_a
      (some only_active)
      (closest_peer_ids backwards known target 1 id_a (some only_active))
closest_peer_ids-IsClosest_example =
    closest_peer_ids-IsClosest backwards known (run-new_registry-IsValid id_a none calls) target 1
      id_a (some only_active) refl
