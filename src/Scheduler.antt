-- ===== src/Scheduler.antt =====
-- internal/scheduler/cleanup.go: one tick of the cleanup, over the registry and the provider records.
pub mod Effects
use p2p_distributed_system_m.Base.{
  ℕ, ◌-◌, ◌*◌, Bytes, List, [], ◌∷◌, Bool, ◌&&◌, if◌then◌else◌, ltb, ◌==◌,
}
use p2p_distributed_system_m.Base.Order.{RangeOrder}
use p2p_distributed_system_m.Utils.{second}
use p2p_distributed_system_m.Peer.Record.{Record, inactive, left}
use p2p_distributed_system_m.Peer.Registry.{Registry, Entry, ◌is◌, snapshot, mark_state}
use p2p_distributed_system_m.Dht.Providers.{ProviderRecords, remove_peer}

abbrev pub stale_timeout : ℕ
stale_timeout = 60 * second

unfoldable pub cleanup_one : ℕ → Record → Registry × ProviderRecords → Registry × ProviderRecords
cleanup_one now p (r, provs) =
    if p.id == r.self
    then (r, provs)
    else if (p.state is inactive) && ltb stale_timeout (now - p.last_seen)
    then (mark_state p.id left r, remove_peer p.id provs)
    else (r, provs)

unfoldable pub cleanup_all :
    ℕ → List Record → Registry × ProviderRecords → Registry × ProviderRecords
unfolding cleanup_one
cleanup_all now [] s = s
cleanup_all now (p ∷ ps) s = cleanup_all now ps (cleanup_one now p s)

unfoldable pub cleanup :
    RangeOrder Entry → ℕ → Registry × ProviderRecords → Registry × ProviderRecords
unfolding cleanup_all
cleanup o now s = cleanup_all now (snapshot o s.0) s
