-- ===== src/Peer/Record.antt =====
-- internal/peer/peer_state.go and the struct `Record` of peer_registry.go.
use p2p_distributed_system_m.Base.{ℕ, Bytes, ℕ_discrete}

-- A state is a Go string: three constants, the empty string, and what else a JSON text can hold.
pub data State : Type 0 where
  unset active inactive left : State
  other : Bytes → State

unfoldable pub State-discrete : Discrete State
unfolding ℕ_discrete
State-discrete = hlevel ℕ_discrete

-- Times are numbers of nanoseconds.
pub record Record : Type 0 where
  pub id : Bytes
  pub grpc_addr : Bytes
  pub http_addr : Bytes
  pub state : State
  pub last_seen : ℕ
  pub joined_at : ℕ
