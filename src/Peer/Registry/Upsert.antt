-- ===== src/Peer/Registry/Upsert.antt =====
-- `Upsert`: whom it admits, and what it stores.
use p2p_distributed_system_m.Base.{
  ℕ, ◌≤◌, ◌<◌, ◌≡◌, ◌↔◌, refl, [], Option, none, some, true, false, inl, inr, arith, length, ◌==◌,
  Option-cases, Bool-cases, ◌⊎◌, if◌then◌else◌,
}
use p2p_distributed_system_m.Base.GoMap.{lookup, length-delete-lt}
use p2p_distributed_system_m.Base.Order.{
  RangeOrder, find_first, any, find_visit-none, find_visit_of_any-false,
}
use p2p_distributed_system_m.Peer.Record.{Record, unset}
use p2p_distributed_system_m.Peer.Registry.{
  Registry, Entry, ◌is◌, send, remove, is_stale, is_left, id_of, remove_found, prune_stale, updated,
  add_peer, update_or_add, upsert,
}
use p2p_distributed_system_m.Peer.Registry.Validity.{IsValid, find_peer-lookup}
use p2p_distributed_system_m.Peer.Registry.Effects.{lookup-store, lookup-remove}

-- The registry has no place for `rec`: it is full, none of its peers has left, and none of them is
-- `rec` or has its address.
pub record HasNoPlace (rec : Record) (r : Registry) : Type 0 where
  pub full : r.max ≤ length r.peers
  pub unknown : lookup rec.id r.peers ≡ none
  pub fresh : any (is_stale rec) r.peers ≡ false
  pub present : any is_left r.peers ≡ false

module _ (o₁ o₂ : RangeOrder Entry) (now : ℕ) (rec : Record) (r : Registry) (v : IsValid r)
    (named : lookup [] r.peers ≡ none) where
  -- A peer that has left is found by its ID, which is not empty.
  left_hit :
      (hit : Option Entry)
      → find_first is_left (o₂.visit r.peers) ≡ hit
      → (id_of hit == []) ≡ true
      → any is_left r.peers ≡ false
  unfolding id_of
  left_hit none h e = find_visit-none o₂ is_left r.peers h
  left_hit (some (id, q)) h e = absurd (ground (arith, (find_peer-lookup o₂ is_left r id q v h).0))

  -- After a stale peer has gone there is room.
  pruned_room :
      (hit : Option Entry)
      → find_first (is_stale rec) (o₁.visit r.peers) ≡ hit
      → (hit ≡ none) ⊎ (length (remove_found hit r).peers < (remove_found hit r).max)
  unfolding remove_found remove send
  pruned_room none h = inl refl
  pruned_room (some (id, q)) h = inr (
      omega (
        arith,
        length-delete-lt id r.peers (find_peer-lookup o₁ (is_stale rec) r id q v h).0,
        v.bounded,
      ))

  add_peer_refused :
      (add_peer o₂ now rec r).1 ≡ false
      → (any is_left r.peers ≡ false) × (r.max ≤ length r.peers) × ((add_peer o₂ now rec r).0 ≡ r)
  unfolding add_peer
  add_peer_refused h = ground (arith, left_hit (find_first is_left (o₂.visit r.peers)) refl)

  add_peer_accepts : (q : Registry) → length q.peers < q.max → (add_peer o₂ now rec q).1 ≡ true
  unfolding add_peer
  add_peer_accepts q h = ground arith

  refused_at :
      (known : Option Record)
      → lookup rec.id r.peers ≡ known
      → any (is_stale rec) r.peers ≡ false
      → (update_or_add o₂ now rec known r).1 ≡ false
      → HasNoPlace rec r × ((update_or_add o₂ now rec known r).0 ≡ r)
  unfolding update_or_add
  refused_at (some p) h fresh e = cc
  refused_at none h fresh e =
      let (left, full, same) = add_peer_refused e in
      (record { full = full; unknown = h; fresh = fresh; present = left }, same)

  accepts_at :
      (known : Option Record) (q : Registry)
      → length q.peers < q.max
      → (update_or_add o₂ now rec known q).1 ≡ true
  unfolding update_or_add
  accepts_at none q h = add_peer_accepts q h
  accepts_at (some p) q h = refl

  -- A call that is refused changes nothing, and is refused for a reason.
  pub upsert_refused :
      (upsert o₁ o₂ now (some rec) r).1 ≡ false
      → ((rec.id ≡ []) ⊎ HasNoPlace rec r) × ((upsert o₁ o₂ now (some rec) r).0 ≡ r)
  unfolding upsert prune_stale remove_found
  upsert_refused h = elim (Bool-cases (rec.id == [])) [
    | inl e ↦ (inl (ground arith), rw e refl)
    | inr e ↦ elim (Option-cases (find_first (is_stale rec) (o₁.visit r.peers))) [
      | inl n ↦
          let (why, same) =
            refused_at (lookup rec.id r.peers) refl (find_visit-none o₁ (is_stale rec) r.peers n)
              (rw (e, n) at h) in
          (inr why, rw (e, n) same)
      | inr (hit, n) ↦ absurd (
          ground (
            arith,
            pruned_room (some hit) n,
            accepts_at (lookup rec.id (remove_found (some hit) r).peers)
                (remove_found (some hit) r),
          ))
    ]
  ]

  -- The other way round, a call with no place is refused.
  HasNoPlace→refused : HasNoPlace rec r → (upsert o₁ o₂ now (some rec) r).1 ≡ false
  unfolding upsert prune_stale remove_found update_or_add add_peer id_of
  HasNoPlace→refused n = ground (
    arith,
    find_visit_of_any-false o₁ (is_stale rec) r.peers n.fresh,
    find_visit_of_any-false o₂ is_left r.peers n.present,
  )

-- On a valid registry that has no entry under the empty ID, `Upsert` refuses a peer exactly when it has
-- no ID or the registry has no place for it, whatever the orders of its loops.
pub upsert_refused_iff :
    (o₁ o₂ : RangeOrder Entry) (now : ℕ) (rec : Record) (r : Registry)
    → IsValid r
    → lookup [] r.peers ≡ none
    → ((upsert o₁ o₂ now (some rec) r).1 ≡ false) ↔ ((rec.id ≡ []) ⊎ HasNoPlace rec r)
unfolding upsert
upsert_refused_iff o₁ o₂ now rec r v named =
    (λ h. (upsert_refused o₁ o₂ now rec r v named h).0, back)
  where
    back : (rec.id ≡ []) ⊎ HasNoPlace rec r → (upsert o₁ o₂ now (some rec) r).1 ≡ false
    back (inl e) = ground arith
    back (inr n) = HasNoPlace→refused o₁ o₂ now rec r v named n

-- On a valid registry that has no entry under the empty ID, a refused call leaves the registry and Redis
-- as they were.
pub upsert_refused-eq :
    (o₁ o₂ : RangeOrder Entry) (now : ℕ) (rec : Record) (r : Registry)
    → IsValid r
    → lookup [] r.peers ≡ none
    → (upsert o₁ o₂ now (some rec) r).1 ≡ false
    → (upsert o₁ o₂ now (some rec) r).0 ≡ r
upsert_refused-eq o₁ o₂ now rec r v named h = (upsert_refused o₁ o₂ now rec r v named h).1

-- The record that an accepted call leaves at the ID of `rec`: the time of joining is kept, and an empty
-- state does not replace the state that is known.
abbrev pub admitted : ℕ → Record → Option Record → Record
admitted now rec none = record rec { joined_at = now }
admitted now rec (some p) = record {
  id = rec.id;
  grpc_addr = rec.grpc_addr;
  http_addr = rec.http_addr;
  state = if rec.state is unset then p.state else rec.state;
  last_seen = rec.last_seen;
  joined_at = p.joined_at;
}

module _ (o₁ o₂ : RangeOrder Entry) (now : ℕ) (rec : Record) (r : Registry) (v : IsValid r) where
  pub prune_keeps_own :
      (hit : Option Entry)
      → find_first (is_stale rec) (o₁.visit r.peers) ≡ hit
      → lookup rec.id (remove_found hit r).peers ≡ lookup rec.id r.peers
  unfolding remove_found is_stale
  prune_keeps_own none h = refl
  prune_keeps_own (some (id, q)) h =
      ground (arith, (find_peer-lookup o₁ (is_stale rec) r id q v h).1, lookup-remove id rec.id r)

  admitted_at :
      (known : Option Record) (q : Registry)
      → ((p : Record) → known ≡ some p → p.id ≡ rec.id)
      → (update_or_add o₂ now rec known q).1 ≡ true
      → lookup rec.id (update_or_add o₂ now rec known q).0.peers ≡ some (admitted now rec known)
  unfolding update_or_add add_peer updated
  admitted_at none q k h = ground (
    arith,
    lookup-store rec.id rec.id (admitted now rec none) q,
    lookup-store rec.id rec.id (admitted now rec none)
        (remove (id_of (find_first is_left (o₂.visit q.peers))) q),
  )
  admitted_at (some p) q k h =
      ground (arith, k p refl, lookup-store rec.id rec.id (updated rec p) q)

  -- On a valid registry, an accepted call leaves at the ID of `rec` the record that `admitted` makes of
  -- it and of what was known of the peer.
  pub upsert_stores :
      (upsert o₁ o₂ now (some rec) r).1 ≡ true
      → lookup rec.id (upsert o₁ o₂ now (some rec) r).0.peers
        ≡ some (admitted now rec (lookup rec.id r.peers))
  unfolding upsert prune_stale
  upsert_stores h = elim (Bool-cases (rec.id == [])) [
    | inl e ↦ absurd (ground arith)
    | inr e ↦
        let hit = find_first (is_stale rec) (o₁.visit r.peers) in
        rw (e, prune_keeps_own hit refl)
          (admitted_at (lookup rec.id r.peers) (remove_found hit r) (v.keyed rec.id)
            (rw (e, prune_keeps_own hit refl) at h))
  ]
