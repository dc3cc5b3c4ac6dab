-- ===== src/Peer/Registry/Effects.antt =====
-- What each method does to the record of each peer.
use mathlib.Core.Option
use p2p_distributed_system_m.Base.{
  ℕ, ◌≡◌, refl, Bytes, Option, none, some, arith, ◌==◌, if◌then◌else◌,
}
use p2p_distributed_system_m.Base.GoMap.{lookup, lookup-insert, lookup-delete}
use p2p_distributed_system_m.Peer.Record.{Record, State}
use p2p_distributed_system_m.Peer.Registry.{
  Registry, send, store, remove, mark_found, mark_state, touched, touch_found, touch,
}

abbrev pub with_state : State → Record → Record
with_state s p = record p { state = s }

pub lookup-store :
    (id j : Bytes) (p : Record) (r : Registry)
    → lookup j (store id p r).peers ≡ (if id == j then some p else lookup j r.peers)
unfolding store send
lookup-store id j p r = lookup-insert id j p r.peers

pub lookup-remove :
    (id j : Bytes) (r : Registry)
    → lookup j (remove id r).peers ≡ (if id == j then none else lookup j r.peers)
unfolding remove send
lookup-remove id j r = lookup-delete id j r.peers

lookup-mark_found :
    (id j : Bytes) (s : State) (r : Registry) (found : Option Record)
    → lookup id r.peers ≡ found
    → lookup j (mark_found id s found r).peers
      ≡ (if id == j then Option.map (with_state s) (lookup j r.peers) else lookup j r.peers)
unfolding mark_found send
lookup-mark_found id j s r none h = ground arith
lookup-mark_found id j s r (some p) h = ground (arith, lookup-store id j (with_state s p) r)

-- `MarkState` sets the state of its peer, if it is known, and changes nothing else.
pub lookup-mark_state :
    (id j : Bytes) (s : State) (r : Registry)
    → lookup j (mark_state id s r).peers
      ≡ (if id == j then Option.map (with_state s) (lookup j r.peers) else lookup j r.peers)
unfolding mark_state
lookup-mark_state id j s r = lookup-mark_found id j s r _ refl

lookup-touch_found :
    (now : ℕ) (id j : Bytes) (r : Registry) (found : Option Record)
    → lookup id r.peers ≡ found
    → lookup j (touch_found now id found r).peers
      ≡ (if id == j then Option.map (touched now) (lookup j r.peers) else lookup j r.peers)
unfolding touch_found
lookup-touch_found now id j r none h = ground arith
lookup-touch_found now id j r (some p) h = ground (arith, lookup-store id j (touched now p) r)

pub lookup-touch :
    (now : ℕ) (id j : Bytes) (r : Registry)
    → lookup j (touch now id r).peers
      ≡ (if id == j then Option.map (touched now) (lookup j r.peers) else lookup j r.peers)
unfolding touch
lookup-touch now id j r = lookup-touch_found now id j r _ refl

pub self-mark_state : (id : Bytes) (s : State) (r : Registry) → (mark_state id s r).self ≡ r.self
unfolding mark_state mark_found store send
self-mark_state id s r = ground arith
