-- ===== src/Api/Graph.antt =====
-- When `handleGraph` panics.
use p2p_distributed_system_m.Base.{
  ◌<◌, ◌≡◌, ◌↔◌, ◌⊎◌, refl, Bytes, List, [], ◌∷◌, Option, none, some, arith, length, map, inl, inr,
  Option-cases,
}
use mathlib.Core.List.{Memᴰ}
use mathlib.Core.List.Permᴰ
use p2p_distributed_system_m.Base.Order.{perm-mem}
use p2p_distributed_system_m.Http.{Response}
use p2p_distributed_system_m.Peer.Record.{Record}
use p2p_distributed_system_m.Peer.Registry.{Entry, snapshot}
use p2p_distributed_system_m.Coordinator.Host.{Env, Orders, Host}
use p2p_distributed_system_m.Api.{Views, GraphNode, panicked, label, node_and, graph_nodes}
use p2p_distributed_system_m.Api.Handlers.{handle_graph}

abbrev record_of : Entry → Record
record_of e = e.1

-- An entry whose ID has less than eight bytes.
abbrev pub HasShort : List Entry → Type 0
HasShort es = (e : Entry) × Memᴰ e es × (length (record_of e).id < 8)

label-none : (id : Bytes) → length id < 8 → label id ≡ none
unfolding label
label-none id h = ground arith

node_and-none : (p : Record) (l : Option Bytes) → node_and p l none ≡ none
unfolding node_and
node_and-none p none = refl
node_and-none p (some l) = refl

node_and_short :
    (p : Record) (l : Option Bytes) (ns : Option (List GraphNode))
    → l ≡ none
    → node_and p l ns ≡ none
unfolding node_and
node_and_short p none ns h = refl
node_and_short p (some l) ns h = cc

HasShort→none : (es : List Entry) (s : HasShort es) → graph_nodes (map record_of es) ≡ none
unfolding graph_nodes
HasShort→none [] (e, m, short) = elim m [ ]
HasShort→none (x ∷ es) (e, Memᴰ.head q, short) =
    let here : length (record_of x).id < 8 = rw q at short in
    node_and_short (record_of x) (label (record_of x).id) (graph_nodes (map record_of es))
      (label-none (record_of x).id here)
HasShort→none (x ∷ es) (e, Memᴰ.tail m, short) =
    rw (HasShort→none es (e, m, short)) (node_and-none (record_of x) (label (record_of x).id))

node_and_cases :
    (p : Record) (l : Option Bytes) (ns : Option (List GraphNode))
    → node_and p l ns ≡ none
    → (l ≡ none) ⊎ (ns ≡ none)
unfolding node_and
node_and_cases p none ns h = inl refl
node_and_cases p (some l) none h = inr refl
node_and_cases p (some l) (some ns) h = absurd (ground arith)

short-label : (id : Bytes) → label id ≡ none → length id < 8
unfolding label
short-label id h = ground arith

none→HasShort : (es : List Entry) → graph_nodes (map record_of es) ≡ none → HasShort es
unfolding graph_nodes
none→HasShort [] h = absurd (ground arith)
none→HasShort (x ∷ es) h =
    elim (node_and_cases (record_of x) (label (record_of x).id) (graph_nodes (map record_of es))
      h) [
        | inl q ↦ (x, Memᴰ.head refl, short-label (record_of x).id q)
        | inr q ↦ let (e, m, short) = none→HasShort es q in (e, Memᴰ.tail m, short)
      ]

module _ (E : Env) where
  -- The graph of the peers is answered unless some peer of the registry has an ID of less than eight
  -- bytes, and then, whatever the order of the peers, the handler panics.
  pub handle_graph_panics_iff :
      (views : Views) (o : Orders) (h : Host E) (w : Response)
      → (handle_graph E views o h w ≡ panicked) ↔ HasShort h.reg.peers
  unfolding handle_graph snapshot
  handle_graph_panics_iff views o h w = (
    λ p. elim (Option-cases (graph_nodes (map record_of (o.entries.visit h.reg.peers)))) [
      | inl q ↦
          let (e, m, short) = none→HasShort (o.entries.visit h.reg.peers) q in
          (e, perm-mem (o.entries.visit-perm h.reg.peers) m, short)
      | inr (ns, q) ↦ absurd (ground (arith, p, q))
    ],
    λ (e, m, short).
        rw
          (
            HasShort→none (o.entries.visit h.reg.peers)
                (e, perm-mem (Permᴰ.symm (o.entries.visit-perm h.reg.peers)) m, short),
            handle_graph,
          )
          refl,
  )
