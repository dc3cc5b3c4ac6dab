-- ===== src/Cluster/Calls.antt =====
-- A call of a node in a cluster, through its pool of connections.
use p2p_distributed_system_m.Base.{
  ℕ, ◌≡◌, refl, subst, Bytes, Option, none, some, Result, ok, err, arith, ◌⊎◌, inl, inr,
}
use p2p_distributed_system_m.Base.GoMap.{GoMap, lookup, insert, lookup-insert}
use p2p_distributed_system_m.Network.Pool.{
  Net, conn, conn_found, dialed, called, connected, with_client,
}
use p2p_distributed_system_m.Coordinator.Host.{Env, Orders, Host}
use p2p_distributed_system_m.Cluster.{Nodes, dial_node, cluster}

-- A connection of the pool leads to the address that it stands under.
abbrev pub IsPool : GoMap Bytes → Type 0
IsPool conns = (x c : Bytes) → lookup x conns ≡ some c → c ≡ x

insert-IsPool :
    (addr : Bytes) (conns : GoMap Bytes) → IsPool conns → IsPool (insert addr addr conns)
insert-IsPool addr conns p x c h = ground (arith, lookup-insert addr x addr conns, p x c)

module _ (E : Env) (o : Orders) (time : Nodes E → ℕ × ℕ) where
  -- The network of a node: these nodes, and a pool that leads to them.
  pub record Over (w : Nodes E) (n : Net (cluster E o time)) : Type 0 where
    pub world : n.world ≡ w
    pub pool : IsPool n.conns

  -- What a connection to an address gives.
  abbrev Connects : Bytes → Nodes E → Result Bytes × Net (cluster E o time) → Type 0
  Connects addr w (err e, n) = Over w n × (lookup addr w ≡ none)
  Connects addr w (ok c, n) = Over w n × (c ≡ addr)

  dialed-Connects :
      (addr : Bytes) (conns : GoMap Bytes) (w : Nodes E) (found : Option (Host E))
      → IsPool conns
      → lookup addr w ≡ found
      → Connects addr w (dialed (cluster E o time) addr conns (dial_node E addr found, w))
  unfolding dialed
  dialed-Connects addr conns w none p e = (record { world = refl; pool = p }, e)
  dialed-Connects addr conns w (some h) p e =
      (record { world = refl; pool = insert-IsPool addr conns p }, refl)

  found-Connects :
      (addr : Bytes) (w : Nodes E) (n : Net (cluster E o time)) (found : Option Bytes)
      → Over w n
      → lookup addr n.conns ≡ found
      → Connects addr w (conn_found (cluster E o time) addr found n)
  unfolding conn_found
  found-Connects addr w n (some c) v e = (v, v.pool addr c e)
  found-Connects addr w n none v e =
      subst
        (λ u. Connects addr u (
          dialed (cluster E o time) addr n.conns (dial_node E addr (lookup addr n.world), n.world)))
        v.world (dialed-Connects addr n.conns n.world (lookup addr n.world) v.pool refl)

  conn-Connects :
      (addr : Bytes) (w : Nodes E) (n : Net (cluster E o time))
      → Over w n
      → Connects addr w (conn (cluster E o time) addr n)
  unfolding conn
  conn-Connects addr w n v = found-Connects addr w n (lookup addr n.conns) v refl

  module _ {R : Type 0} (f : Bytes → Nodes E → Result R × Nodes E) where
    -- A call is made at its address, or the address has no node and nothing happens.
    abbrev Answers : Bytes → Nodes E → Result R × Net (cluster E o time) → Type 0
    Answers addr w r =
        ((lookup addr w ≡ none) × ((e : Bytes) × (r.0 ≡ err e)) × Over w r.1)
        ⊎ ((r.0 ≡ (f addr w).0) × Over (f addr w).1 r.1)

    connected-Answers :
        (addr : Bytes) (w : Nodes E) (c : Result Bytes × Net (cluster E o time))
        → Connects addr w c
        → Answers addr w (connected (cluster E o time) f c)
    unfolding connected called
    connected-Answers addr w (err e, n) (v, absent) = inl (absent, (e, refl), v)
    connected-Answers addr w (ok c, n) (v, same) = inr (
      (λ i. (f (same i) (v.world i)).0),
      record { world = λ i. (f (same i) (v.world i)).1; pool = v.pool },
    )

    pub with_client-Answers :
        (addr : Bytes) (w : Nodes E) (n : Net (cluster E o time))
        → Over w n
        → Answers addr w (with_client (cluster E o time) addr f n)
    unfolding with_client
    with_client-Answers addr w n v =
        connected-Answers addr w (conn (cluster E o time) addr n) (conn-Connects addr w n v)
