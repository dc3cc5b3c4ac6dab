-- ===== src/Scheduler/Effects.antt =====
-- What a tick of the cleanup does to each peer and to the providers of each block.
use mathlib.Core.Option
use p2p_distributed_system_m.Base.{
  ℕ, ◌-◌, ◌≡◌, refl, Bool, Bytes, List, [], ◌∷◌, Option, none, some, true, false, ◌&&◌, ◌||◌, not,
  arith, if◌then◌else◌, ltb, ◌==◌, ◌∙◌,
}
use p2p_distributed_system_m.Base.GoMap.{lookup, Distinct}
use p2p_distributed_system_m.Base.Order.{RangeOrder, any}
use p2p_distributed_system_m.Gen.{PeerEndpoint}
use p2p_distributed_system_m.Peer.Record.{Record, inactive, left}
use p2p_distributed_system_m.Peer.Registry.{Registry, Entry, ◌is◌, snapshot}
use p2p_distributed_system_m.Peer.Registry.Validity.{IsValid}
use p2p_distributed_system_m.Peer.Registry.Effects.{with_state, lookup-mark_state, self-mark_state}
use p2p_distributed_system_m.Peer.Registry.Snapshot.{hits, test_at, any-snapshot}
use p2p_distributed_system_m.Dht.Providers.{ProviderRecords}
use p2p_distributed_system_m.Dht.Providers.Laws.{
  provider, provider-remove_peer_named, remove_peer-Distinct,
}
use p2p_distributed_system_m.Scheduler.{stale_timeout, cleanup_one, cleanup_all, cleanup}

-- A peer that is not this node, is inactive and has not been heard of for a minute.
abbrev pub is_dead : ℕ → Bytes → Record → Bool
is_dead now self p =
    not (p.id == self) && ((p.state is inactive) && ltb stale_timeout (now - p.last_seen))

abbrev pub buried : ℕ → Bytes → Record → Record
buried now self p = if is_dead now self p then with_state left p else p

self-cleanup_one :
    (now : ℕ) (p : Record) (s : Registry × ProviderRecords)
    → (cleanup_one now p s).0.self ≡ s.0.self
unfolding cleanup_one
self-cleanup_one now p (r, provs) = ground (arith, self-mark_state p.id left r)

lookup-cleanup_one :
    (now : ℕ) (p : Record) (s : Registry × ProviderRecords) (j : Bytes)
    → lookup j (cleanup_one now p s).0.peers ≡ (
        if hits j (is_dead now s.0.self) p
        then Option.map (with_state left) (lookup j s.0.peers)
        else lookup j s.0.peers)
unfolding cleanup_one
lookup-cleanup_one now p (r, provs) j = ground (arith, lookup-mark_state p.id j left r)

left_twice :
    (a b : Bool) (o : Option Record)
    → (if b
        then Option.map (with_state left) (if a then Option.map (with_state left) o else o)
        else if a
        then Option.map (with_state left) o
        else o)
      ≡ (if a || b then Option.map (with_state left) o else o)
left_twice true true none = refl
left_twice true true (some p) = refl
left_twice true false o = refl
left_twice false b o = refl

lookup-cleanup_all :
    (now : ℕ) (ps : List Record) (s : Registry × ProviderRecords) (j : Bytes)
    → lookup j (cleanup_all now ps s).0.peers ≡ (
        if any (hits j (is_dead now s.0.self)) ps
        then Option.map (with_state left) (lookup j s.0.peers)
        else lookup j s.0.peers)
unfolding cleanup_all any
lookup-cleanup_all now [] s j = refl
lookup-cleanup_all now (p ∷ ps) s j =
    lookup-cleanup_all now ps (cleanup_one now p s) j
    ∙ rw (self-cleanup_one now p s, lookup-cleanup_one now p s j)
        (left_twice (hits j (is_dead now s.0.self) p) (any (hits j (is_dead now s.0.self)) ps)
          (lookup j s.0.peers))

map-buried :
    (now : ℕ) (self : Bytes) (o : Option Record)
    → (if test_at (is_dead now self) o then Option.map (with_state left) o else o)
      ≡ Option.map (buried now self) o
map-buried now self none = refl
map-buried now self (some p) = ground arith

module _ (o : RangeOrder Entry) (now : ℕ) (r : Registry) (provs : ProviderRecords) (v : IsValid r)
    (j : Bytes) where
  -- On a valid registry, a tick marks as left exactly the dead peers, whatever the order of its loop.
  pub lookup-cleanup :
      lookup j (cleanup o now (r, provs)).0.peers
      ≡ Option.map (buried now r.self) (lookup j r.peers)
  unfolding cleanup
  lookup-cleanup =
      lookup-cleanup_all now (snapshot o r) (r, provs) j
      ∙ rw (any-snapshot o j (is_dead now r.self) r v) (map-buried now r.self (lookup j r.peers))

module _ (now : ℕ) (cid j : Bytes) (named : (j == []) ≡ false) where
  provider-cleanup_one :
      (p : Record) (s : Registry × ProviderRecords)
      → Distinct s.1.m
      → provider cid j (cleanup_one now p s).1
        ≡ (if hits j (is_dead now s.0.self) p then none else provider cid j s.1)
  unfolding cleanup_one
  provider-cleanup_one p (r, provs) d =
      ground (arith, provider-remove_peer_named p.id cid j provs d named)

  cleanup_one-Distinct :
      (p : Record) (s : Registry × ProviderRecords)
      → Distinct s.1.m
      → Distinct (cleanup_one now p s).1.m
  unfolding cleanup_one
  cleanup_one-Distinct p (r, provs) d = ground (arith, remove_peer-Distinct p.id provs d)

  provider-cleanup_all :
      (ps : List Record) (s : Registry × ProviderRecords)
      → Distinct s.1.m
      → provider cid j (cleanup_all now ps s).1
        ≡ (if any (hits j (is_dead now s.0.self)) ps then none else provider cid j s.1)
  unfolding cleanup_all any
  provider-cleanup_all [] s d = refl
  provider-cleanup_all (p ∷ ps) s d =
      provider-cleanup_all ps (cleanup_one now p s) (cleanup_one-Distinct p s d)
      ∙ rw (self-cleanup_one now p s, provider-cleanup_one p s d)
          (none_twice (hits j (is_dead now s.0.self) p) (any (hits j (is_dead now s.0.self)) ps)
            (provider cid j s.1))
    where
      none_twice :
          (a b : Bool) (o : Option PeerEndpoint)
          → (if b then none else if a then none else o) ≡ (if a || b then none else o)
      none_twice a b o = ground arith

  -- On a valid registry and provider records that have each CID once, a tick takes a peer that has an ID
  -- from the providers of every block exactly when it is dead.
  pub provider-cleanup :
      (o : RangeOrder Entry) (r : Registry) (provs : ProviderRecords)
      → IsValid r
      → Distinct provs.m
      → provider cid j (cleanup o now (r, provs)).1
        ≡ (if test_at (is_dead now r.self) (lookup j r.peers) then none else provider cid j provs)
  unfolding cleanup
  provider-cleanup o r provs v d =
      provider-cleanup_all (snapshot o r) (r, provs) d
      ∙ rw (any-snapshot o j (is_dead now r.self) r v) refl
