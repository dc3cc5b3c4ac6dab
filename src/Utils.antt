-- ===== src/Utils.antt =====
-- internal/utils: the constants of the program. Times and durations are numbers of nanoseconds, as in
-- Go's `time.Duration`.
use p2p_distributed_system_m.Base.{ℕ}

abbrev pub second : ℕ
second = 1_000_000_000

abbrev pub max_network_peers : ℕ
max_network_peers = 20

abbrev pub default_grpc_timeout_sec : ℕ
default_grpc_timeout_sec = 5

abbrev pub default_heartbeat_sec : ℕ
default_heartbeat_sec = 3

abbrev pub bootstrap_poll_sec : ℕ
bootstrap_poll_sec = 5

pub record NetDefaults : Type 0 where
  pub grpc_timeout_sec : ℕ
  pub retry_attempts : ℕ

abbrev pub default_net : NetDefaults
default_net = record { grpc_timeout_sec = default_grpc_timeout_sec; retry_attempts = 2 }
