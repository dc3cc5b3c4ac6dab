-- ===== src/Peer/Manager.antt =====
-- internal/peer/peer_manager.go. The receivers are never nil in the program, and the pointer to the
-- registry is the registry that a method takes and returns.
pub mod Sweep
use p2p_distributed_system_m.Base.{
  ℕ, ◌-◌, ◌*◌, Bytes, List, [], ◌∷◌, Bool, if◌then◌else◌, ltb, ◌==◌,
}
use p2p_distributed_system_m.Base.Order.{RangeOrder}
use p2p_distributed_system_m.Utils.{default_heartbeat_sec, second}
use p2p_distributed_system_m.Peer.Record.{Record, inactive, left}
use p2p_distributed_system_m.Peer.Registry.{Registry, Entry, ◌is◌, snapshot, mark_state, remove}

pub record Manager : Type 0 where
  pub inactive_after : ℕ

unfoldable pub new_manager : Manager
new_manager = record { inactive_after = default_heartbeat_sec * 3 * second }

-- `now.Sub(p.LastSeen)` is not positive where `last_seen` lies ahead, as the difference is here.
unfoldable pub sweep_one : ℕ → Manager → Record → Registry → Registry
sweep_one now m p r =
    if p.id == r.self
    then r
    else if p.state is left
    then r
    else if ltb m.inactive_after (now - p.last_seen)
    then mark_state p.id inactive r
    else r

unfoldable pub sweep_all : ℕ → Manager → List Record → Registry → Registry
unfolding sweep_one
sweep_all now m [] r = r
sweep_all now m (p ∷ ps) r = sweep_all now m ps (sweep_one now m p r)

unfoldable pub sweep : RangeOrder Entry → ℕ → Manager → Registry → Registry
unfolding sweep_all
sweep o now m r = sweep_all now m (snapshot o r) r

unfoldable pub leave : Bytes → Registry → Registry
leave id r = remove id (mark_state id left r)
