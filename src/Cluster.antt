-- ===== src/Cluster.antt =====
-- Several nodes: the network is a map of nodes by their gRPC addresses, and a call is answered by the
-- handlers of internal/coordinator/grpc_service.go at the node of that address. A handler calls no other
-- node, so the nodes of the map need no network of their own.
pub mod Calls
pub mod Records
pub mod Naming
pub mod Finding
pub mod Fetching
pub mod Reading
pub mod Storing
pub mod Spreading
pub mod Copying
pub mod Sharing
pub mod Adding
pub mod Delivering
use p2p_distributed_system_m.Base.{ℕ, Bytes, codes, Option, none, some, Result, ok, err}
use p2p_distributed_system_m.Base.GoMap.{GoMap, lookup, insert}
use p2p_distributed_system_m.Network.{Grpc}
use p2p_distributed_system_m.Coordinator.Host.{Env, Orders, Host}
use p2p_distributed_system_m.Coordinator.Rpc.{
  serve_ping, serve_store_block, serve_get_block, serve_find_provider, serve_join_network,
}

abbrev pub Nodes : Env → Type 0
Nodes E = GoMap (Host E)

abbrev no_node : Bytes
no_node = codes "unavailable"

module _ (E : Env) where
  -- A connection is the address that it leads to.
  abbrev pub dial_node : Bytes → Option (Host E) → Result Bytes
  dial_node addr none = err no_node
  dial_node addr (some h) = ok addr

  abbrev pub pointed : {R : Type 0} → Result R → Result (Option R)
  pointed (ok r) = ok (some r)
  pointed (err e) = err e

  -- A call that only reads, and one that changes the node.
  abbrev pub read_at : {R : Type 0} → (Host E → Result R) → Option (Host E) → Result (Option R)
  read_at f none = err no_node
  read_at f (some h) = pointed (f h)

  abbrev pub write_at :
      {R : Type 0}
      → (Host E → R × Host E)
      → Bytes
      → Nodes E
      → Option (Host E)
      → Result (Option R) × Nodes E
  write_at f addr w none = (err no_node, w)
  write_at f addr w (some h) = let (r, h') = f h in (ok (some r), insert addr h' w)

  -- `o` are the orders of the loops of the nodes, and `time` gives the two times that a call reads.
  abbrev pub cluster : Orders → (Nodes E → ℕ × ℕ) → Grpc
  cluster o time = record {
    World = Nodes E;
    Conn = Bytes;
    dial = λ addr w. (dial_node addr (lookup addr w), w);
    close = λ c w. (none, w);
    ping = λ c req w. write_at (serve_ping E (time w).0 (some req)) c w (lookup c w);
    store_block = λ c req w. write_at (serve_store_block E (some req)) c w (lookup c w);
    get_block = λ c req w. (read_at (serve_get_block E (some req)) (lookup c w), w);
    find_provider =
        λ c req w. (read_at (λ h. ok (serve_find_provider E o (some req) h)) (lookup c w), w);
    join_network = λ c req w.
        write_at (serve_join_network E o (time w).0 (time w).1 (some req)) c w (lookup c w);
  }

  -- A node whose network are these nodes.
  abbrev pub in_cluster : Orders → (Nodes E → ℕ × ℕ) → Env
  in_cluster o time = record E { grpc = cluster o time }
