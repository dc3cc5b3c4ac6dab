-- ===== src/Coordinator/Background/Stopping.antt =====
-- How the background work of a node comes to its end.
use p2p_distributed_system_m.Base.{◌≡◌, Bytes, List, [], ◌∷◌, Result}
use p2p_distributed_system_m.Http.{HttpClient}
use p2p_distributed_system_m.Coordinator.Host.{Env, Host}
use p2p_distributed_system_m.Coordinator.Rpc.{Incoming, serve_calls}
use p2p_distributed_system_m.Coordinator.Loops.{BootstrapPeer}
use p2p_distributed_system_m.Coordinator.Background.{returned, Running, Signal, serves, receive_all}

module _ (E : Env) (C : HttpClient) where
  -- The calls among the signals.
  unfoldable pub calls_of : List (Signal E C) → List (Incoming E)
  calls_of [] = []
  calls_of (serves c ∷ ss) = c ∷ calls_of ss
  calls_of (s ∷ ss) = calls_of ss

  -- A node of which every loop has returned.
  abbrev pub at_rest : Host E → C.World → Running E C
  at_rest h w = record {
    host = h;
    client = w;
    bootstrap = returned;
    heartbeat = returned;
    cleanup = returned;
  }

  module _ (marshal : BootstrapPeer → Result Bytes)
      (unmarshal : Bytes → Result (List BootstrapPeer)) where
    abbrev after : List (Signal E C) → Running E C → Running E C
    after = receive_all E C marshal unmarshal

    -- From now on the node does nothing but serve: whatever signals follow, it changes by the calls among
    -- them only, in their order, and no loop starts again.
    abbrev pub IsQuiet : Running E C → Type 0
    IsQuiet r =
        (later : List (Signal E C))
        → after later r ≡ at_rest (serve_calls E (calls_of later) r.host) r.client
