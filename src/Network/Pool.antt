-- ===== src/Network/Pool.antt =====
-- internal/network/connection_pool.go, grpc_client.go and transport.go.
use p2p_distributed_system_m.Base.{
  Bytes, List, [], ◌∷◌, Option, none, some, Result, ok, err, ◌≡◌, refl, arith,
}
use p2p_distributed_system_m.Base.GoMap.{GoMap, lookup, insert, lookup-insert}
use p2p_distributed_system_m.Base.Order.{RangeOrder}
use p2p_distributed_system_m.Network.{Grpc}

-- The pool of a node with the outside.
pub record Net (G : Grpc) : Type 0 where
  pub conns : GoMap G.Conn
  pub world : G.World

module _ (G : Grpc) where
  open G use {World, Conn}

  unfoldable pub new_pool : World → Net G
  new_pool w = record { conns = []; world = w }

  unfoldable pub dialed : Bytes → GoMap Conn → Result Conn × World → Result Conn × Net G
  dialed addr conns (err e, w) = (err e, record { conns = conns; world = w })
  dialed addr conns (ok c, w) = (ok c, record { conns = insert addr c conns; world = w })

  unfoldable pub conn_found : Bytes → Option Conn → Net G → Result Conn × Net G
  unfolding dialed
  conn_found addr (some c) n = (ok c, n)
  conn_found addr none n = dialed addr n.conns (G.dial addr n.world)

  -- `Pool.Conn`, and with it `NodeClient`, which only wraps the connection.
  unfoldable pub conn : Bytes → Net G → Result Conn × Net G
  unfolding conn_found
  conn addr n = conn_found addr (lookup addr n.conns) n

  unfoldable pub called : {R : Type 0} → GoMap Conn → Result R × World → Result R × Net G
  called conns (r, w) = (r, record { conns = conns; world = w })

  unfoldable pub connected :
      {R : Type 0} → (Conn → World → Result R × World) → Result Conn × Net G → Result R × Net G
  unfolding called
  connected f (err e, n) = (err e, n)
  connected f (ok c, n) = called n.conns (f c n.world)

  -- `NodeClient` and then a call of the client, which fails where the connection fails.
  unfoldable pub with_client :
      {R : Type 0} → Bytes → (Conn → World → Result R × World) → Net G → Result R × Net G
  unfolding connected conn
  with_client addr f n = connected f (conn addr n)

  close_one : Option Bytes → Option Bytes → Option Bytes
  close_one none e = e
  close_one (some first) e = some first

  close_all : List (Bytes × Conn) → Option Bytes → World → Option Bytes × World
  unfolding close_one
  close_all [] first w = (first, w)
  close_all ((addr, c) ∷ rest) first w =
      let (e, w') = G.close c w in close_all rest (close_one first e) w'

  -- All connections are closed and forgotten; the first error is returned.
  unfoldable pub close : RangeOrder (Bytes × Conn) → Net G → Option Bytes × Net G
  unfolding close_all
  close o n =
      let (e, w) = close_all (o.visit n.conns) none n.world in (e, record { conns = []; world = w })

  -- The connection is in the pool, and finding it again changes nothing.
  pooled_again :
      (addr : Bytes) (conns : GoMap Conn) (d : Result Conn × World) {c : Conn}
      → (dialed addr conns d).0 ≡ ok c
      → lookup addr (dialed addr conns d).1.conns ≡ some c
  unfolding dialed
  pooled_again addr conns (err e, w) h = absurd (ground arith)
  pooled_again addr conns (ok a, w) {c} h = ground (arith, lookup-insert addr addr a conns)

  pooled_found :
      (addr : Bytes) (n : Net G) (found : Option Conn) {c : Conn}
      → lookup addr n.conns ≡ found
      → (conn_found addr found n).0 ≡ ok c
      → lookup addr (conn_found addr found n).1.conns ≡ some c
  unfolding conn_found
  pooled_found addr n none e h = pooled_again addr n.conns (G.dial addr n.world) h
  pooled_found addr n (some a) {c} e h = ground arith

  -- An address that has been connected is not dialled again: the pool and the outside stay as they
  -- are, and the connection is the same.
  pub conn_again :
      (addr : Bytes) (n : Net G) (c : Conn)
      → (conn addr n).0 ≡ ok c
      → conn addr (conn addr n).1 ≡ (ok c, (conn addr n).1)
  unfolding conn
  conn_again addr n c h =
      rw (pooled_found addr n (lookup addr n.conns) {c = c} refl h, conn_found) refl
