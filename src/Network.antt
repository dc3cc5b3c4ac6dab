-- ===== src/Network.antt =====
-- internal/network. gRPC and the other nodes lie outside the program: `Grpc` is a parameter, whose
-- `World` stands for all that is outside and is passed along from call to call, so that an answer may
-- depend on everything that went before. Deadlines are such behaviour of the outside: a call that runs
-- out of time returns an error.
pub mod Pool
use p2p_distributed_system_m.Base.{Bytes, Bool, true, false, Option, Result}
use p2p_distributed_system_m.Gen.{
  FindProviderRequest, FindProviderResponse, GetBlockRequest, GetBlockResponse, StoreBlockRequest,
  StoreBlockResponse, PingRequest, PingResponse, JoinNetworkRequest, JoinNetworkResponse,
}

-- An answer is an error or a pointer to a message, which can be nil. `dial` is `grpc.DialContext`, and
-- `close` is `ClientConn.Close`.
pub record Grpc : Type 1 where
  pub World : Type 0
  pub Conn : Type 0
  pub dial : Bytes → World → Result Conn × World
  pub close : Conn → World → Option Bytes × World
  pub ping : Conn → PingRequest → World → Result (Option PingResponse) × World
  pub store_block : Conn → StoreBlockRequest → World → Result (Option StoreBlockResponse) × World
  pub get_block : Conn → GetBlockRequest → World → Result (Option GetBlockResponse) × World
  pub find_provider :
      Conn → FindProviderRequest → World → Result (Option FindProviderResponse) × World
  pub join_network : Conn → JoinNetworkRequest → World → Result (Option JoinNetworkResponse) × World

-- The status codes that `IsUnavailable` tells apart; `none` is an error without a status.
pub data Code : Type 0 where
  unavailable deadline_exceeded resource_exhausted other_code : Code

unfoldable pub is_unavailable : Option (Option Code) → Bool
is_unavailable Option.none = false
is_unavailable (Option.some Option.none) = true
is_unavailable (Option.some (Option.some Code.unavailable)) = true
is_unavailable (Option.some (Option.some Code.deadline_exceeded)) = true
is_unavailable (Option.some (Option.some Code.resource_exhausted)) = true
is_unavailable (Option.some (Option.some Code.other_code)) = false
