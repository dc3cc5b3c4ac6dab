-- ===== src/Coordinator/Rpc/Joining.antt =====
-- What `JoinNetwork` answers, and what it does to the registry.
use p2p_distributed_system_m.Base.{
  ℕ, ◌≡◌, refl, ap, ◌∙◌, Bytes, List, [], ◌∷◌, Bool, true, false, ◌||◌, Option, none, some, arith,
  ◌==◌, Bool-cases, inl, inr,
}
use p2p_distributed_system_m.Base.GoMap.{lookup}
use p2p_distributed_system_m.Base.Order.{any}
use p2p_distributed_system_m.Gen.{PeerEndpoint}
use p2p_distributed_system_m.Peer.Record.{Record}
use p2p_distributed_system_m.Peer.Registry.{Registry, snapshot, upsert}
use p2p_distributed_system_m.Peer.Registry.Validity.{IsValid, upsert-IsValid}
use p2p_distributed_system_m.Peer.Registry.Snapshot.{hits, test_at, any-snapshot}
use p2p_distributed_system_m.Peer.Registry.Upsert.{admitted, upsert_stores}
use p2p_distributed_system_m.Coordinator.Host.{Env, Orders, Host}
use p2p_distributed_system_m.Coordinator.Rpc.{endpoints_of, join_answer, join_self, joining}

-- An endpoint with this ID is in the list.
abbrev pub lists_id : Bytes → List (Option PeerEndpoint) → Bool
lists_id id [] = false
lists_id id (none ∷ eps) = lists_id id eps
lists_id id (some ep ∷ eps) = (ep.peer_id == id) || lists_id id eps

abbrev always : Record → Bool
always p = true

lists_id-endpoints_of :
    (id : Bytes) (ps : List Record) → lists_id id (endpoints_of ps) ≡ any (hits id always) ps
unfolding endpoints_of any
lists_id-endpoints_of id [] = refl
lists_id-endpoints_of id (p ∷ ps) = ground (arith, lists_id-endpoints_of id ps)

-- A peer that the map holds is in the list of its snapshot.
endpoints_of_known :
    (o : Orders) (id : Bytes) (r : Registry) {p : Record}
    → IsValid r
    → lookup id r.peers ≡ some p
    → lists_id id (endpoints_of (snapshot o.entries r)) ≡ true
endpoints_of_known o id r {p} v h =
    lists_id-endpoints_of id (snapshot o.entries r)
    ∙ any-snapshot o.entries id always r v
    ∙ ap (test_at always) h

module _ (E : Env) (o : Orders) (now later : ℕ) (self : PeerEndpoint) (h : Host E)
    (v : IsValid h.reg) where
  -- On a node with a valid registry, a join that is accepted leaves the joined peer in the registry, as
  -- the record that `admitted` makes of it and of what was known, and the answer lists the peer among
  -- the others.
  pub join_self_accepted :
      (join_self E o now later (some self) h).0.accepted ≡ true
      → (lookup self.peer_id (join_self E o now later (some self) h).1.reg.peers
          ≡ some (admitted later (joining now self) (lookup self.peer_id h.reg.peers)))
        × (lists_id self.peer_id (join_self E o now later (some self) h).0.known_peers ≡ true)
  unfolding join_self join_answer
  join_self_accepted t =
      elim (Bool-cases (upsert o.stale o.evict later (some (joining now self)) h.reg).1) [
        | inl e ↦
            let stored = upsert_stores o.stale o.evict later (joining now self) h.reg v e in
            (
              stored,
              rw e (
                  endpoints_of_known o self.peer_id _
                    (upsert-IsValid o.stale o.evict later (some (joining now self)) h.reg v)
                    stored),
            )
        | inr e ↦ absurd (ground arith)
      ]
