-- ===== src/Gen.antt =====
-- internal/gen/node.pb.go: the messages between nodes, as records of their fields. A message whose only
-- field is a text or an `ok` keeps its record, so that the handlers read as in the source.
use p2p_distributed_system_m.Base.{Bytes, Bool, List, Option}

pub record PeerEndpoint : Type 0 where
  pub peer_id : Bytes
  pub grpc_addr : Bytes
  pub http_addr : Bytes

pub record PingRequest : Type 0 where
  pub peer_id : Bytes

pub record PingResponse : Type 0 where
  pub ok : Bool

pub record StoreBlockRequest : Type 0 where
  pub cid : Bytes
  pub block : Bytes

pub record StoreBlockResponse : Type 0 where
  pub ok : Bool
  pub error_message : Bytes

pub record GetBlockRequest : Type 0 where
  pub cid : Bytes

pub record GetBlockResponse : Type 0 where
  pub block : Bytes
  pub error_message : Bytes

pub record FindProviderRequest : Type 0 where
  pub cid : Bytes

-- A pointer in a repeated field can be nil.
pub record FindProviderResponse : Type 0 where
  pub providers : List (Option PeerEndpoint)

pub record JoinNetworkRequest : Type 0 where
  pub self : Option PeerEndpoint

pub record JoinNetworkResponse : Type 0 where
  pub known_peers : List (Option PeerEndpoint)
  pub accepted : Bool
  pub error_message : Bytes

pub record LeaveNetworkRequest : Type 0 where
  pub peer_id : Bytes

pub record LeaveNetworkResponse : Type 0 where
  pub ok : Bool

pub record HeartbeatRequest : Type 0 where
  pub peer_id : Bytes

pub record HeartbeatResponse : Type 0 where
  pub ok : Bool

pub record AddProviderRequest : Type 0 where
  pub cid : Bytes
  pub provider : Option PeerEndpoint

pub record AddProviderResponse : Type 0 where
  pub ok : Bool
