-- ===== src/Peer/Manager/Sweep.antt =====
-- What `Sweep` does to each peer.
use mathlib.Core.Option
use p2p_distributed_system_m.Base.{
  ℕ, ◌-◌, ◌≡◌, refl, Bool, Bytes, List, [], ◌∷◌, Option, none, some, ◌&&◌, ◌||◌, not, arith,
  if◌then◌else◌, ltb, ◌==◌, ◌∙◌,
}
use p2p_distributed_system_m.Base.GoMap.{lookup}
use p2p_distributed_system_m.Base.Order.{RangeOrder, any}
use p2p_distributed_system_m.Peer.Record.{Record, inactive, left}
use p2p_distributed_system_m.Peer.Registry.{Registry, Entry, ◌is◌, snapshot}
use p2p_distributed_system_m.Peer.Registry.Validity.{IsValid}
use p2p_distributed_system_m.Peer.Registry.Effects.{with_state, lookup-mark_state, self-mark_state}
use p2p_distributed_system_m.Peer.Registry.Snapshot.{hits, test_at, any-snapshot}
use p2p_distributed_system_m.Peer.Manager.{Manager, sweep_one, sweep_all, sweep}

-- A peer that is not this node, has not left and has not been heard of for too long.
abbrev pub is_silent : ℕ → Manager → Bytes → Record → Bool
is_silent now m self p =
    not (p.id == self) && (not (p.state is left) && ltb m.inactive_after (now - p.last_seen))

abbrev pub aged : ℕ → Manager → Bytes → Record → Record
aged now m self p = if is_silent now m self p then with_state inactive p else p

self-sweep_one :
    (now : ℕ) (m : Manager) (p : Record) (r : Registry) → (sweep_one now m p r).self ≡ r.self
unfolding sweep_one
self-sweep_one now m p r = ground (arith, self-mark_state p.id inactive r)

lookup-sweep_one :
    (now : ℕ) (m : Manager) (p : Record) (r : Registry) (j : Bytes)
    → lookup j (sweep_one now m p r).peers ≡ (
        if hits j (is_silent now m r.self) p
        then Option.map (with_state inactive) (lookup j r.peers)
        else lookup j r.peers)
unfolding sweep_one
lookup-sweep_one now m p r j = ground (arith, lookup-mark_state p.id j inactive r)

twice_inactive :
    (o : Option Record)
    → Option.map (with_state inactive) (Option.map (with_state inactive) o)
      ≡ Option.map (with_state inactive) o
twice_inactive none = refl
twice_inactive (some p) = refl

lookup-sweep_all :
    (now : ℕ) (m : Manager) (ps : List Record) (r : Registry) (j : Bytes)
    → lookup j (sweep_all now m ps r).peers ≡ (
        if any (hits j (is_silent now m r.self)) ps
        then Option.map (with_state inactive) (lookup j r.peers)
        else lookup j r.peers)
unfolding sweep_all any
lookup-sweep_all now m [] r j = refl
lookup-sweep_all now m (p ∷ ps) r j =
    lookup-sweep_all now m ps (sweep_one now m p r) j
    ∙ rw (self-sweep_one now m p r, lookup-sweep_one now m p r j)
        (split (hits j (is_silent now m r.self) p) (any (hits j (is_silent now m r.self)) ps)
          (lookup j r.peers))
  where
    split :
        (a b : Bool) (o : Option Record)
        → (if b
            then Option.map
                (with_state inactive)
                (if a then Option.map (with_state inactive) o else o)
            else if a
            then Option.map (with_state inactive) o
            else o)
          ≡ (if a || b then Option.map (with_state inactive) o else o)
    split a b o = ground (arith, twice_inactive o)

map-aged :
    (now : ℕ) (m : Manager) (self : Bytes) (o : Option Record)
    → (if test_at (is_silent now m self) o then Option.map (with_state inactive) o else o)
      ≡ Option.map (aged now m self) o
map-aged now m self none = refl
map-aged now m self (some p) = ground arith

-- On a valid registry, `Sweep` marks as inactive exactly the peers that were silent for too long,
-- whatever the order of its loop: this node itself, the peers that left and those heard of in time keep
-- their records.
pub lookup-sweep :
    (o : RangeOrder Entry) (now : ℕ) (m : Manager) (r : Registry) (j : Bytes)
    → IsValid r
    → lookup j (sweep o now m r).peers ≡ Option.map (aged now m r.self) (lookup j r.peers)
unfolding sweep
lookup-sweep o now m r j v =
    lookup-sweep_all now m (snapshot o r) r j
    ∙ rw (any-snapshot o j (is_silent now m r.self) r v) (map-aged now m r.self (lookup j r.peers))
