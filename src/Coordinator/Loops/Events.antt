-- ===== src/Coordinator/Loops/Events.antt =====
-- A node over time: the calls that it serves and its background work, in any order.
use p2p_distributed_system_m.Base.{
  ℕ, suc, Bytes, List, [], ◌∷◌, Bool, true, false, not, Option, none, some, Result, ok, err,
  if◌then◌else◌, ◌==◌,
}
use p2p_distributed_system_m.Base.GoMap.{Distinct}
use p2p_distributed_system_m.Base.Order.{RangeOrder}
use p2p_distributed_system_m.Gen.{PeerEndpoint, PingResponse, JoinNetworkResponse}
use p2p_distributed_system_m.Network.Pool.{Net, with_client}
use p2p_distributed_system_m.Peer.Record.{Record, active, inactive, left}
use p2p_distributed_system_m.Peer.Registry.{
  Registry, Entry, RedisCommand, ◌is◌, snapshot, touch, new_registry,
}
use p2p_distributed_system_m.Peer.Registry.Validity.{
  IsValid, touch-IsValid, upsert-IsValid, mark_state-IsValid, new_registry-IsValid,
}
use p2p_distributed_system_m.Peer.Manager.{Manager, sweep, sweep_all, sweep_one}
use p2p_distributed_system_m.Dht.Providers.{ProviderRecords, new_provider_records}
use p2p_distributed_system_m.Dht.Providers.Laws.{remove_peer-Distinct}
use p2p_distributed_system_m.Scheduler.{cleanup, cleanup_all, cleanup_one}
use p2p_distributed_system_m.Coordinator.Host.{Env, Orders, Host, Config, new_host, self_endpoint}
use p2p_distributed_system_m.Coordinator.Rpc.{Incoming, serve_call, joining}
use p2p_distributed_system_m.Coordinator.Rpc.Serving.{IsSound, with_reg, serve_call-IsSound}
use p2p_distributed_system_m.Coordinator.Loops.{
  BootstrapPeer, is_pinged, upsert_endpoint, merge_known, merge_joined, ping_answered, ping_one,
  ping_all, heartbeat_tick, cleanup_tick, join_peer, merge_peer, merge_peers, merge_bootstrap_peers,
}

if-keeps : {A : Type 0} (P : A → Type 0) (b : Bool) {x y : A} → P x → P y → P (if b then x else y)
if-keeps P true p q = p
if-keeps P false p q = q

sweep_all-IsValid :
    (now : ℕ) (m : Manager) (ps : List Record) (r : Registry)
    → IsValid r
    → IsValid (sweep_all now m ps r)
unfolding sweep_all sweep_one
sweep_all-IsValid now m [] r v = v
sweep_all-IsValid now m (p ∷ ps) r v = sweep_all-IsValid now m ps (sweep_one now m p r) (
    if-keeps IsValid (p.id == r.self) v (
      if-keeps IsValid (p.state is left) v
        (if-keeps IsValid _ (mark_state-IsValid p.id inactive r v) v)))

sweep-IsValid :
    (o : RangeOrder Entry) (now : ℕ) (m : Manager) (r : Registry)
    → IsValid r
    → IsValid (sweep o now m r)
unfolding sweep
sweep-IsValid o now m r v = sweep_all-IsValid now m (snapshot o r) r v

-- A registry and provider records that satisfy their invariants.
abbrev AreSound : Registry × ProviderRecords → Type 0
AreSound (r, provs) = IsValid r × Distinct provs.m

cleanup_all-AreSound :
    (now : ℕ) (ps : List Record) (s : Registry × ProviderRecords)
    → AreSound s
    → AreSound (cleanup_all now ps s)
unfolding cleanup_all cleanup_one
cleanup_all-AreSound now [] s v = v
cleanup_all-AreSound now (p ∷ ps) (r, provs) v =
    cleanup_all-AreSound now ps (cleanup_one now p (r, provs)) (
      if-keeps AreSound (p.id == r.self) v (
        if-keeps AreSound _
          (mark_state-IsValid p.id left r v.0, remove_peer-Distinct p.id provs v.1) v))

upsert_endpoint-IsValid :
    (o : Orders) (t : ℕ × ℕ) (ep : PeerEndpoint) (r : Registry)
    → IsValid r
    → IsValid (upsert_endpoint o t ep r).0
unfolding upsert_endpoint
upsert_endpoint-IsValid o (now, later) ep r v =
    upsert-IsValid o.stale o.evict later (some (joining now ep)) r v

merge_known-IsValid :
    (o : Orders) (clock : ℕ → ℕ × ℕ) (j : ℕ) (eps : List (Option PeerEndpoint)) (r : Registry)
    → IsValid r
    → IsValid (merge_known o clock j eps r)
unfolding merge_known
merge_known-IsValid o clock j [] r v = v
merge_known-IsValid o clock j (none ∷ eps) r v = merge_known-IsValid o clock (suc j) eps r v
merge_known-IsValid o clock j (some ep ∷ eps) r v =
    merge_known-IsValid o clock (suc j) eps _
      (if-keeps IsValid (ep.peer_id == []) v (upsert_endpoint-IsValid o (clock j) ep r v))

merge_joined-IsValid :
    (o : Orders) (clock : ℕ → ℕ × ℕ) (answer : Result (Option JoinNetworkResponse)) (r : Registry)
    → IsValid r
    → IsValid (merge_joined o clock answer r)
unfolding merge_joined
merge_joined-IsValid o clock (err e) r v = v
merge_joined-IsValid o clock (ok none) r v = v
merge_joined-IsValid o clock (ok (some resp)) r v =
    if-keeps IsValid (not resp.accepted) v (merge_known-IsValid o clock 1 resp.known_peers r v)

module _ (E : Env) where
  ping_answered-IsSound :
      (now : ℕ) (id : Bytes) (h : Host E) (a : Result (Option PingResponse) × Net E.grpc)
      → IsSound E h
      → IsSound E (ping_answered E now id h a)
  unfolding ping_answered
  ping_answered-IsSound now id h (err e, n) s = record {
    registry = s.registry;
    records = s.records;
  }
  ping_answered-IsSound now id h (ok resp, n) s = record {
    registry = touch-IsValid now id h.reg s.registry;
    records = s.records;
  }

  ping_all-IsSound :
      (answered : Record → ℕ) (recs : List Record) (h : Host E)
      → IsSound E h
      → IsSound E (ping_all E answered recs h)
  unfolding ping_all ping_one
  ping_all-IsSound answered [] h s = s
  ping_all-IsSound answered (rec ∷ recs) h s =
      ping_all-IsSound answered recs (ping_one E answered rec h) (
        if-keeps (IsSound E) (is_pinged h.self_id rec)
          (ping_answered-IsSound (answered rec) rec.id h _ s) s)

  heartbeat_tick-IsSound :
      (o : Orders) (now swept : ℕ) (answered : Record → ℕ) (h : Host E)
      → IsSound E h
      → IsSound E (heartbeat_tick E o now swept answered h)
  unfolding heartbeat_tick
  heartbeat_tick-IsSound o now swept answered h s =
      let r = sweep o.entries swept h.rtm (touch now h.self_id h.reg) in
      ping_all-IsSound answered (snapshot o.entries r) (record h { reg = r })
        (with_reg E r h
          (sweep-IsValid o.entries swept h.rtm (touch now h.self_id h.reg)
            (touch-IsValid now h.self_id h.reg s.registry))
          s)

  cleanup_tick-IsSound :
      (o : Orders) (now : ℕ) (h : Host E) → IsSound E h → IsSound E (cleanup_tick E o now h)
  unfolding cleanup_tick cleanup
  cleanup_tick-IsSound o now h s =
      let (valid, distinct) =
        cleanup_all-AreSound now (snapshot o.entries h.reg) (h.reg, h.providers)
          (s.registry, s.records) in
      record { registry = valid; records = distinct }

  join_peer-IsSound :
      (o : Orders) (clock : ℕ → ℕ × ℕ) (addr : Bytes) (h : Host E)
      → IsSound E h
      → IsSound E (join_peer E o clock addr h)
  unfolding join_peer
  join_peer-IsSound o clock addr h s =
      let joined =
        with_client E.grpc addr
          (λ c. E.grpc.join_network c (record { self = some (self_endpoint E h) })) h.net in
      record {
        registry = merge_joined-IsValid o clock joined.0 h.reg s.registry;
        records = s.records;
      }

  merge_peers-IsSound :
      (o : Orders) (clock : ℕ → ℕ → ℕ × ℕ) (k : ℕ) (bps : List BootstrapPeer) (h : Host E)
      → IsSound E h
      → IsSound E (merge_peers E o clock k bps h)
  unfolding merge_peers merge_peer
  merge_peers-IsSound o clock k [] h s = s
  merge_peers-IsSound o clock k (bp ∷ bps) h s =
      let upserted = with_reg E _ h (upsert_endpoint-IsValid o (clock k 0) _ h.reg s.registry) s in
      merge_peers-IsSound o clock (suc k) bps (merge_peer E o (clock k) bp h) (
        if-keeps (IsSound E) _ s
          (if-keeps (IsSound E) _ upserted (join_peer-IsSound o (clock k) bp.grpc_addr _ upserted)))

  merge_bootstrap_peers-IsSound :
      (o : Orders) (clock : ℕ → ℕ → ℕ × ℕ) (answer : Result (List BootstrapPeer)) (h : Host E)
      → IsSound E h
      → IsSound E (merge_bootstrap_peers E o clock answer h).1
  unfolding merge_bootstrap_peers
  merge_bootstrap_peers-IsSound o clock (err e) h s =
      if-keeps (λ (r : Option Bytes × Host E). IsSound E r.1) (h.bootstrap == []) {x = (none, h)}
        {y = (some e, h)} s s
  merge_bootstrap_peers-IsSound o clock (ok list) h s =
      if-keeps (λ (r : Option Bytes × Host E). IsSound E r.1) (h.bootstrap == []) {x = (none, h)}
        {y = (none, merge_peers E o clock 0 list h)} s (merge_peers-IsSound o clock 0 list h s)

  -- What can happen to a node: a call that it serves, a tick of a loop, an answer of the discovery
  -- server.
  pub data Event : Type 0 where
    serves : Incoming E → Event
    heartbeats : Orders → ℕ → ℕ → (Record → ℕ) → Event
    cleanups : Orders → ℕ → Event
    merges : Orders → (ℕ → ℕ → ℕ × ℕ) → Result (List BootstrapPeer) → Event

  unfoldable pub happen : Event → Host E → Host E
  happen (serves c) h = serve_call E c h
  happen (heartbeats o now swept answered) h = heartbeat_tick E o now swept answered h
  happen (cleanups o now) h = cleanup_tick E o now h
  happen (merges o clock answer) h = (merge_bootstrap_peers E o clock answer h).1

  unfoldable pub happen_all : List Event → Host E → Host E
  unfolding happen
  happen_all [] h = h
  happen_all (e ∷ es) h = happen_all es (happen e h)

  happen-IsSound : (e : Event) (h : Host E) → IsSound E h → IsSound E (happen e h)
  unfolding happen
  happen-IsSound (serves c) h s = serve_call-IsSound E c h s
  happen-IsSound (heartbeats o now swept answered) h s =
      heartbeat_tick-IsSound o now swept answered h s
  happen-IsSound (cleanups o now) h s = cleanup_tick-IsSound o now h s
  happen-IsSound (merges o clock answer) h s = merge_bootstrap_peers-IsSound o clock answer h s

  happen_all-IsSound : (es : List Event) (h : Host E) → IsSound E h → IsSound E (happen_all es h)
  unfolding happen_all
  happen_all-IsSound [] h s = s
  happen_all-IsSound (e ∷ es) h s = happen_all-IsSound es (happen e h) (happen-IsSound e h s)

  -- Whatever a new node serves, and whatever its loops find, in any order: its registry stays valid,
  -- and its provider records keep each CID once.
  pub happen_all-new_host-IsSound :
      (o : Orders) (now : ℕ) (cfg : Config) (pid : Bytes) (rdb : Option (List RedisCommand))
      (store : E.storage.Store) (files : E.disk.Files) (world : E.grpc.World) (db : E.redis.Db)
      (es : List Event)
      → IsSound E (happen_all es (new_host E o now cfg pid rdb store files world db))
  unfolding new_host new_provider_records
  happen_all-new_host-IsSound o now cfg pid rdb store files world db es =
      happen_all-IsSound es _ (record {
        registry =
            upsert-IsValid o.stale o.evict now
              (some (record {
                id = pid;
                grpc_addr = cfg.grpc_listen_addr;
                http_addr = cfg.http_listen_addr;
                state = active;
                last_seen = now;
                joined_at = 0;
              }))
              (new_registry pid rdb) (new_registry-IsValid pid rdb);
        records = tt;
      })
