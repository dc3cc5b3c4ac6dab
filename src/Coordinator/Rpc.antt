-- ===== src/Coordinator/Rpc.antt =====
-- internal/coordinator/grpc_service.go: the calls that a node serves, over its state. `none` is a nil
-- request. An answer is a response, or an error where the handler returns one.
pub mod Serving
pub mod Joining
use p2p_distributed_system_m.Base.{
  ℕ, Bytes, codes, List, [], ◌∷◌, Bool, true, false, ◌||◌, Option, none, some, Result, ok, err,
  if◌then◌else◌, ◌==◌,
}
use p2p_distributed_system_m.Gen.{
  PeerEndpoint, FindProviderRequest, FindProviderResponse, GetBlockRequest, GetBlockResponse,
  StoreBlockRequest, StoreBlockResponse, PingRequest, PingResponse, JoinNetworkRequest,
  JoinNetworkResponse, LeaveNetworkRequest, LeaveNetworkResponse, HeartbeatRequest,
  HeartbeatResponse, AddProviderRequest, AddProviderResponse,
}
use p2p_distributed_system_m.Peer.Record.{Record, active}
use p2p_distributed_system_m.Peer.Registry.{Registry, snapshot, touch, upsert}
use p2p_distributed_system_m.Peer.Manager.{leave}
use p2p_distributed_system_m.Dht.Providers
use p2p_distributed_system_m.Coordinator.Host.{Env, Orders, Host, self_endpoint}

unfoldable pub endpoints_of : List Record → List (Option PeerEndpoint)
endpoints_of [] = []
endpoints_of (p ∷ ps) =
    some (record { peer_id = p.id; grpc_addr = p.grpc_addr; http_addr = p.http_addr })
    ∷ endpoints_of ps

-- The record of a node that joins.
abbrev pub joining : ℕ → PeerEndpoint → Record
joining now self = record {
  id = self.peer_id;
  grpc_addr = self.grpc_addr;
  http_addr = self.http_addr;
  state = active;
  last_seen = now;
  joined_at = 0;
}

unfoldable pub pointers_to : List PeerEndpoint → List (Option PeerEndpoint)
pointers_to [] = []
pointers_to (ep ∷ eps) = some ep ∷ pointers_to eps

unfoldable pub join_answer : Orders → Registry × Bool → JoinNetworkResponse
unfolding endpoints_of
join_answer o (r, accepted) =
    if accepted
    then record {
      known_peers = endpoints_of (snapshot o.entries r);
      accepted = true;
      error_message = [];
    }
    else record { known_peers = []; accepted = false; error_message = codes "network full" }

module _ (E : Env) where
  unfoldable pub touch_named : ℕ → Bytes → Host E → Host E
  touch_named now id h = if id == [] then h else record h { reg = touch now id h.reg }

  unfoldable pub serve_ping : ℕ → Option PingRequest → Host E → PingResponse × Host E
  unfolding touch_named
  serve_ping now none h = (record { ok = true }, h)
  serve_ping now (some req) h = (record { ok = true }, touch_named now req.peer_id h)

  unfoldable pub block_put :
      Bytes → Host E → Result Bytes × E.storage.Store → StoreBlockResponse × Host E
  block_put cid h (err e, s) = (record { ok = false; error_message = e }, record h { store = s })
  block_put cid h (ok c, s) = (
    record { ok = true; error_message = [] },
    record h { store = s; providers = Providers.add cid (some (self_endpoint E h)) h.providers },
  )

  unfoldable pub serve_store_block : Option StoreBlockRequest → Host E → StoreBlockResponse × Host E
  unfolding block_put
  serve_store_block none h = (record { ok = false; error_message = codes "missing cid" }, h)
  serve_store_block (some req) h =
      if req.cid == []
      then (record { ok = false; error_message = codes "missing cid" }, h)
      else elim (E.storage.validate req.cid) [
        | some e ↦ (record { ok = false; error_message = e }, h)
        | none ↦ block_put req.cid h (E.storage.put req.block h.store)
      ]

  unfoldable pub serve_get_block : Option GetBlockRequest → Host E → Result GetBlockResponse
  serve_get_block none h = err (codes "missing cid")
  serve_get_block (some req) h =
      if req.cid == [] then err (codes "missing cid") else elim (E.storage.get req.cid h.store) [
        | err e ↦ ok (record { block = []; error_message = e })
        | ok b ↦ ok (record { block = b; error_message = [] })
      ]

  unfoldable pub serve_find_provider :
      Orders → Option FindProviderRequest → Host E → FindProviderResponse
  unfolding pointers_to
  serve_find_provider o none h = record { providers = [] }
  serve_find_provider o (some req) h =
      if req.cid == []
      then record { providers = [] }
      else record { providers = pointers_to (Providers.get o.endpoints req.cid h.providers) }

  -- `now` is the time that the handler reads, and `later` the time at which the registry notes the
  -- joining.
  unfoldable pub join_self :
      Orders → ℕ → ℕ → Option PeerEndpoint → Host E → JoinNetworkResponse × Host E
  unfolding join_answer
  join_self o now later none h =
      (record { known_peers = []; accepted = false; error_message = codes "missing self" }, h)
  join_self o now later (some self) h =
      let answer = upsert o.stale o.evict later (some (joining now self)) h.reg in
      (join_answer o answer, record h { reg = answer.0 })

  unfoldable pub serve_join_network :
      Orders → ℕ → ℕ → Option JoinNetworkRequest → Host E → JoinNetworkResponse × Host E
  unfolding join_self
  serve_join_network o now later none h = join_self o now later none h
  serve_join_network o now later (some req) h = join_self o now later req.self h

  unfoldable pub serve_leave_network :
      Option LeaveNetworkRequest → Host E → LeaveNetworkResponse × Host E
  serve_leave_network none h = (record { ok = false }, h)
  serve_leave_network (some req) h =
      if req.peer_id == []
      then (record { ok = false }, h)
      else (record { ok = true }, record h { reg = leave req.peer_id h.reg })

  unfoldable pub serve_heartbeat : ℕ → Option HeartbeatRequest → Host E → HeartbeatResponse × Host E
  unfolding touch_named
  serve_heartbeat now none h = (record { ok = true }, h)
  serve_heartbeat now (some req) h = (record { ok = true }, touch_named now req.peer_id h)

  add_named : Bytes → Option PeerEndpoint → Host E → AddProviderResponse × Host E
  add_named cid none h = (record { ok = false }, h)
  add_named cid (some ep) h =
      if cid == []
      then (record { ok = false }, h)
      else (record { ok = true }, record h { providers = Providers.add cid (some ep) h.providers })

  unfoldable pub serve_add_provider :
      Option AddProviderRequest → Host E → AddProviderResponse × Host E
  unfolding add_named
  serve_add_provider none h = (record { ok = false }, h)
  serve_add_provider (some req) h = add_named req.cid req.provider h

  -- A call with its arguments; those that only read change nothing.
  pub data Incoming : Type 0 where
    pings : ℕ → Option PingRequest → Incoming
    stores : Option StoreBlockRequest → Incoming
    reads : Incoming
    joins : Orders → ℕ → ℕ → Option JoinNetworkRequest → Incoming
    leaves : Option LeaveNetworkRequest → Incoming
    beats : ℕ → Option HeartbeatRequest → Incoming
    provides : Option AddProviderRequest → Incoming

  unfoldable pub serve_call : Incoming → Host E → Host E
  unfolding serve_ping serve_store_block serve_join_network serve_leave_network serve_heartbeat
      serve_add_provider
  serve_call (pings now req) h = (serve_ping now req h).1
  serve_call (stores req) h = (serve_store_block req h).1
  serve_call reads h = h
  serve_call (joins o now later req) h = (serve_join_network o now later req h).1
  serve_call (leaves req) h = (serve_leave_network req h).1
  serve_call (beats now req) h = (serve_heartbeat now req h).1
  serve_call (provides req) h = (serve_add_provider req h).1

  unfoldable pub serve_calls : List Incoming → Host E → Host E
  unfolding serve_call
  serve_calls [] h = h
  serve_calls (c ∷ cs) h = serve_calls cs (serve_call c h)
