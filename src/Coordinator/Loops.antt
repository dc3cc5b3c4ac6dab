-- ===== src/Coordinator/Loops.antt =====
-- The background work of a node: a tick of `heartbeatLoop` and of `cleanupLoop` (node.go), and
-- `mergeBootstrapPeers` (bootstrap_sync.go). The tickers are outside, and `answer` is
-- what the discovery server sends, or an error where the request, its status or its JSON fails.
pub mod Events
use p2p_distributed_system_m.Base.{
  ℕ, suc, Bytes, List, [], ◌∷◌, Bool, ◌||◌, not, ◌&&◌, Option, none, some, Result, ok, err,
  if◌then◌else◌, ◌==◌,
}
use p2p_distributed_system_m.Gen.{PeerEndpoint, PingResponse, JoinNetworkResponse}
use p2p_distributed_system_m.Base.Order.{RangeOrder}
use p2p_distributed_system_m.Network.Pool
use p2p_distributed_system_m.Network.Pool.{Net, with_client}
use p2p_distributed_system_m.Peer.Record.{Record, active}
use p2p_distributed_system_m.Peer.Registry.{Registry, ◌is◌, snapshot, touch, upsert}
use p2p_distributed_system_m.Peer.Manager.{sweep}
use p2p_distributed_system_m.Scheduler.{cleanup}
use p2p_distributed_system_m.Coordinator.Host.{Env, Orders, Host, self_endpoint}
use p2p_distributed_system_m.Coordinator.Rpc.{joining}

pub record BootstrapPeer : Type 0 where
  pub peer_id : Bytes
  pub grpc_addr : Bytes
  pub http_addr : Bytes

-- The peers that a tick pings.
unfoldable pub is_pinged : Bytes → Record → Bool
is_pinged self_id rec =
    not ((rec.id == self_id) || not (rec.state is active)) && not (rec.grpc_addr == [])

-- A record from an endpoint, with the time of the record and that at which it joins.
unfoldable pub upsert_endpoint : Orders → ℕ × ℕ → PeerEndpoint → Registry → Registry × Bool
upsert_endpoint o (now, later) ep r = upsert o.stale o.evict later (some (joining now ep)) r

-- The peers that a joined node knows; `clock j` is read for the one at position `j`.
unfoldable pub merge_known :
    Orders → (ℕ → ℕ × ℕ) → ℕ → List (Option PeerEndpoint) → Registry → Registry
unfolding upsert_endpoint
merge_known o clock j [] r = r
merge_known o clock j (none ∷ eps) r = merge_known o clock (suc j) eps r
merge_known o clock j (some ep ∷ eps) r =
    merge_known o clock (suc j) eps
      (if ep.peer_id == [] then r else (upsert_endpoint o (clock j) ep r).0)

unfoldable pub merge_joined :
    Orders → (ℕ → ℕ × ℕ) → Result (Option JoinNetworkResponse) → Registry → Registry
unfolding merge_known
merge_joined o clock (err e) r = r
merge_joined o clock (ok none) r = r
merge_joined o clock (ok (some resp)) r =
    if not resp.accepted then r else merge_known o clock 1 resp.known_peers r

module _ (E : Env) where
  ping_answered : ℕ → Bytes → Host E → Result (Option PingResponse) × Net E.grpc → Host E
  ping_answered now id h (err e, n) = record h { net = n }
  ping_answered now id h (ok resp, n) = record h { net = n; reg = touch now id h.reg }

  unfoldable pub ping_one : (Record → ℕ) → Record → Host E → Host E
  unfolding ping_answered is_pinged
  ping_one answered rec h =
      if is_pinged h.self_id rec
      then ping_answered (answered rec) rec.id h (
          with_client E.grpc rec.grpc_addr (λ c. E.grpc.ping c (record { peer_id = h.self_id }))
            h.net)
      else h

  unfoldable pub ping_all : (Record → ℕ) → List Record → Host E → Host E
  unfolding ping_one
  ping_all answered [] h = h
  ping_all answered (rec ∷ recs) h = ping_all answered recs (ping_one answered rec h)

  -- `now` and `swept` are the times of the touch and of the sweep, and `answered` the time at which a
  -- peer has answered.
  unfoldable pub heartbeat_tick : Orders → ℕ → ℕ → (Record → ℕ) → Host E → Host E
  unfolding ping_all
  heartbeat_tick o now swept answered h =
      let r = sweep o.entries swept h.rtm (touch now h.self_id h.reg) in
      ping_all answered (snapshot o.entries r) (record h { reg = r })

  unfoldable pub cleanup_tick : Orders → ℕ → Host E → Host E
  cleanup_tick o now h =
      let (r, provs) = cleanup o.entries now (h.reg, h.providers) in
      record h { reg = r; providers = provs }

  -- The node joins a peer that the registry has taken.
  unfoldable pub join_peer : Orders → (ℕ → ℕ × ℕ) → Bytes → Host E → Host E
  unfolding merge_joined
  join_peer o clock addr h =
      let (answer, n) =
        with_client E.grpc addr
          (λ c. E.grpc.join_network c (record { self = some (self_endpoint E h) })) h.net in
      record h { net = n; reg = merge_joined o clock answer h.reg }

  unfoldable pub merge_peer : Orders → (ℕ → ℕ × ℕ) → BootstrapPeer → Host E → Host E
  unfolding join_peer upsert_endpoint
  merge_peer o clock bp h =
      let ep : PeerEndpoint = record {
        peer_id = bp.peer_id;
        grpc_addr = bp.grpc_addr;
        http_addr = bp.http_addr;
      } in
      let (r, accepted) = upsert_endpoint o (clock 0) ep h.reg in
      let upserted = record h { reg = r } in
      if (bp.peer_id == []) || (bp.peer_id == h.self_id)
      then h
      else if not accepted || (bp.grpc_addr == [])
      then upserted
      else join_peer o clock bp.grpc_addr upserted

  -- `clock k` is read for the peer at position `k` of the list.
  unfoldable pub merge_peers : Orders → (ℕ → ℕ → ℕ × ℕ) → ℕ → List BootstrapPeer → Host E → Host E
  unfolding merge_peer
  merge_peers o clock k [] h = h
  merge_peers o clock k (bp ∷ bps) h = merge_peers o clock (suc k) bps (merge_peer o (clock k) bp h)

  unfoldable pub merge_bootstrap_peers :
      Orders → (ℕ → ℕ → ℕ × ℕ) → Result (List BootstrapPeer) → Host E → Option Bytes × Host E
  unfolding merge_peers
  merge_bootstrap_peers o clock answer h =
      if h.bootstrap == []
      then (none, h)
      else elim answer [ err e ↦ (some e, h) | ok list ↦ (none, merge_peers o clock 0 list h) ]

  -- `Close`; the order is that of the loop over the connections.
  unfoldable pub close_host : RangeOrder (Bytes × E.grpc.Conn) → Host E → Option Bytes × Host E
  close_host o h = let (e, n) = Pool.close E.grpc o h.net in (e, record h { net = n })
