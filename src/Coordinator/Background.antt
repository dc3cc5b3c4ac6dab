-- ===== src/Coordinator/Background.antt =====
-- `RunLoops` of internal/coordinator/node.go: the goroutines of `bootstrapLoop`, `heartbeatLoop` and
-- `cleanupLoop` beside the calls that the node serves. A signal is what one of them receives next: the
-- first step of its goroutine, a tick of its ticker, or the end of the context. Loops take their
-- signals in any order, and a tick is one step.
pub mod States
pub mod Stopping
use p2p_distributed_system_m.Base.{ℕ, Bytes, List, [], ◌∷◌, Result, if◌then◌else◌, ◌==◌}
use p2p_distributed_system_m.Http.{HttpClient}
use p2p_distributed_system_m.Peer.Record.{Record}
use p2p_distributed_system_m.Coordinator.Host.{Env, Orders, Host}
use p2p_distributed_system_m.Coordinator.Rpc.{Incoming, serve_call}
use p2p_distributed_system_m.Coordinator.Loops.{BootstrapPeer, heartbeat_tick, cleanup_tick}
use p2p_distributed_system_m.Coordinator.Announce.{bootstrap_round}

-- A goroutine before its first step, one that waits in its `select`, and one that has returned.
pub data LoopState : Type 0 where
  starting : LoopState
  waiting : LoopState
  returned : LoopState

pub data Loop : Type 0 where
  bootstrap_loop : Loop
  heartbeat_loop : Loop
  cleanup_loop : Loop

module _ (E : Env) (C : HttpClient) where
  pub record Running : Type 0 where
    pub host : Host E
    pub client : C.World
    pub bootstrap : LoopState
    pub heartbeat : LoopState
    pub cleanup : LoopState

  -- The times that a tick reads are a part of its signal.
  pub data Signal : Type 0 where
    begins : Orders → (ℕ → ℕ → ℕ × ℕ) → Signal
    polls : Orders → (ℕ → ℕ → ℕ × ℕ) → Signal
    beats : Orders → ℕ → ℕ → (Record → ℕ) → Signal
    cleans : Orders → ℕ → Signal
    ends : Loop → Signal
    serves : Incoming E → Signal

  -- A loop that receives the end of the context returns.
  unfoldable pub on_done : LoopState → LoopState
  on_done starting = starting
  on_done waiting = returned
  on_done returned = returned

  unfoldable pub run_loops : Host E → C.World → Running
  run_loops h w = record {
    host = h;
    client = w;
    bootstrap = starting;
    heartbeat = waiting;
    cleanup = waiting;
  }

  unfoldable pub beat : LoopState → Orders → ℕ → ℕ → (Record → ℕ) → Running → Running
  beat waiting o now swept answered r = record r {
    host = heartbeat_tick E o now swept answered r.host;
  }
  beat state o now swept answered r = r

  unfoldable pub clean : LoopState → Orders → ℕ → Running → Running
  clean waiting o now r = record r { host = cleanup_tick E o now r.host }
  clean state o now r = r

  unfoldable pub end : Loop → Running → Running
  unfolding on_done
  end bootstrap_loop r = record r { bootstrap = on_done r.bootstrap }
  end heartbeat_loop r = record r { heartbeat = on_done r.heartbeat }
  end cleanup_loop r = record r { cleanup = on_done r.cleanup }

  module _ (marshal : BootstrapPeer → Result Bytes)
      (unmarshal : Bytes → Result (List BootstrapPeer)) where
    -- The function `do` of `bootstrapLoop`.
    unfoldable pub do_round : Orders → (ℕ → ℕ → ℕ × ℕ) → Running → Running
    do_round o clock r =
        let (h, w) = bootstrap_round E C marshal unmarshal o clock r.host r.client in
        record r { host = h; client = w }

    unfoldable pub begin_bootstrap : LoopState → Orders → (ℕ → ℕ → ℕ × ℕ) → Running → Running
    unfolding do_round
    begin_bootstrap starting o clock r =
        if r.host.bootstrap == []
        then record r { bootstrap = returned }
        else record (do_round o clock r) { bootstrap = waiting }
    begin_bootstrap state o clock r = r

    unfoldable pub poll : LoopState → Orders → (ℕ → ℕ → ℕ × ℕ) → Running → Running
    unfolding do_round
    poll waiting o clock r = do_round o clock r
    poll state o clock r = r

    unfoldable pub receive : Signal → Running → Running
    unfolding begin_bootstrap poll beat clean end
    receive (begins o clock) r = begin_bootstrap r.bootstrap o clock r
    receive (polls o clock) r = poll r.bootstrap o clock r
    receive (beats o now swept answered) r = beat r.heartbeat o now swept answered r
    receive (cleans o now) r = clean r.cleanup o now r
    receive (ends l) r = end l r
    receive (serves c) r = record r { host = serve_call E c r.host }

    unfoldable pub receive_all : List Signal → Running → Running
    unfolding receive
    receive_all [] r = r
    receive_all (s ∷ ss) r = receive_all ss (receive s r)
