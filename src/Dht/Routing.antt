-- ===== src/Dht/Routing.antt =====
-- internal/dht/routing_table.go. The table is a view of the registry, which is an argument here.
pub mod Closest
use p2p_distributed_system_m.Base.{
  ℕ, Bytes, List, [], ◌∷◌, Bool, true, false, ◌&&◌, not, Option, none, some, if◌then◌else◌, ltb,
  leb, length, take, ◌==◌,
}
use p2p_distributed_system_m.Base.Order.{RangeOrder}
use p2p_distributed_system_m.Base.Sort.{sort_stable}
use p2p_distributed_system_m.Peer.Record.{Record, State}
use p2p_distributed_system_m.Peer.Registry.{Registry, Entry, snapshot}
use p2p_distributed_system_m.Dht.Xor.{key_from_hex, closer}

-- `ki, _ := KeyFromHex(s)`: the key is used where the decoding cannot fail.
unfoldable pub key_of : Option Bytes → Bytes
key_of none = []
key_of (some k) = k

unfoldable pub is_true : Option Bool → Bool
is_true none = false
is_true (some b) = b

-- The comparison that the sort is given. All candidates have keys of 32 bytes, so `closer` panics only
-- where the target has another length.
unfoldable pub nearer : Bytes → Bytes → Bytes → Bool
unfolding closer key_of is_true
nearer target i j = is_true (closer target (key_of (key_from_hex i)) (key_of (key_from_hex j)))

abbrev pub is_known : Option Bytes → Bool
is_known none = false
is_known (some k) = true

-- The state is allowed: a nil map allows every state.
unfoldable pub allowed : Option (State → Bool) → State → Bool
allowed none s = true
allowed (some f) s = f s

unfoldable pub is_candidate : Bytes → Option (State → Bool) → Record → Bool
unfolding allowed
is_candidate exclude states rec =
    not (rec.id == exclude) && (allowed states rec.state && is_known (key_from_hex rec.id))

unfoldable pub candidates : Bytes → Option (State → Bool) → List Record → List Bytes
unfolding is_candidate
candidates exclude states [] = []
candidates exclude states (rec ∷ recs) =
    let rest = candidates exclude states recs in
    if is_candidate exclude states rec then rec.id ∷ rest else rest

-- The limit `k` is an `int`: those that are not positive are 0 here.
unfoldable pub closest_peer_ids :
    RangeOrder Entry → Registry → Bytes → ℕ → Bytes → Option (State → Bool) → List Bytes
unfolding candidates sort_stable nearer
closest_peer_ids o r target k exclude states =
    if leb k 0
    then []
    else let sorted = sort_stable (nearer target) (candidates exclude states (snapshot o r)) in
      if ltb k (length sorted) then take k sorted else sorted
