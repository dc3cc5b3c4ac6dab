-- ===== src/Tests/Background.antt =====
-- The background work of one node, from its start to its end.
use p2p_distributed_system_m.Base.{none, Bytes, codes, List, [], ◌∷◌, ◌++◌, some, ok}
use p2p_distributed_system_m.Http.{HttpClient}
use p2p_distributed_system_m.Coordinator.Host.{Host}
use p2p_distributed_system_m.Coordinator.Rpc.{pings, stores}
use p2p_distributed_system_m.Coordinator.Background.{
  Running, Signal, begins, beats, cleans, ends, serves, bootstrap_loop, heartbeat_loop,
  cleanup_loop, run_loops, receive_all,
}
use p2p_distributed_system_m.Tests.World.{env, orders, host}

-- A discovery server that takes everything and lists no one; it counts what it is asked.
abbrev silent : HttpClient
silent = record {
  World = List Bytes;
  post = λ url body w. (ok (200, []), url ∷ w);
  get = λ url w. (ok (200, []), url ∷ w);
}

abbrev started : Host env
started = record host { bootstrap = codes "http://d" }

abbrev before : List (Signal env silent)
before =
    beats orders 20 21 (λ rec. 22)
    ∷ serves (stores (some (record { cid = codes "x"; block = codes "x" })))
    ∷ ends heartbeat_loop
    ∷ []

abbrev run : List (Signal env silent) → Running env silent
run ss =
    receive_all env silent (λ p. ok p.peer_id) (λ b. ok []) ss (run_loops env silent started [])

-- The ends of the contexts come in another order, with ticks and calls between them.
abbrev rest : List (Signal env silent)
rest =
    beats orders 25 26 (λ rec. 27)
    ∷ ends cleanup_loop
    ∷ serves (pings 28 none)
    ∷ ends bootstrap_loop
    ∷ cleans orders 29
    ∷ []

abbrev all_signals : List (Signal env silent)
all_signals = before ++ begins orders (λ k j. (23, 24)) ∷ rest
