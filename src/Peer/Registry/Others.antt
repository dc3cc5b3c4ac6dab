-- ===== src/Peer/Registry/Others.antt =====
-- `Upsert`: what becomes of the other peers.
use p2p_distributed_system_m.Base.{
  ℕ, ◌≡◌, ◌≢◌, refl, sym, dec_text, ◌||◌, Bool, Bytes, [], Option, none, some, true, false, inl,
  inr, arith, length, ◌==◌, Option-cases, Bool-cases, leb, ◌⊎◌,
}
use p2p_distributed_system_m.Base.GoMap.{lookup, length-delete-lt}
use p2p_distributed_system_m.Base.Order.{RangeOrder, find_first}
use p2p_distributed_system_m.Peer.Record.{Record}
use p2p_distributed_system_m.Peer.Registry.{
  Registry, Entry, send, store, remove, is_stale, is_left, id_of, remove_found, prune_stale,
  updated, add_peer, update_or_add, upsert,
}
use p2p_distributed_system_m.Peer.Registry.Validity.{IsValid, find_peer-lookup}
use p2p_distributed_system_m.Peer.Registry.Effects.{lookup-store, lookup-remove}

-- Another peer keeps its record, or is dropped because it passes the test `p`.
abbrev pub KeptUnless : (Entry → Bool) → Bytes → Option Record → Option Record → Type 0
KeptUnless p j before after =
    (after ≡ before) ⊎ ((after ≡ none) × ((q : Record) × (before ≡ some q) × (p (j, q) ≡ true)))

abbrev pub stale_or_left : Record → Entry → Bool
stale_or_left rec e = is_stale rec e || is_left e

module _ (p : Entry → Bool) (o : RangeOrder Entry) (r : Registry) (v : IsValid r) (j : Bytes) where
  remove_hit :
      (id : Bytes) (q : Record)
      → find_first p (o.visit r.peers) ≡ some (id, q)
      → KeptUnless p j (lookup j r.peers) (lookup j (remove id r).peers)
  remove_hit id q h = elim (dec_text id j) [
    | yes same ↦
        let (known, hit) = find_peer-lookup o p r id q v h in
        inr (ground (arith, lookup-remove id j r), (q, ground arith, rw (sym same) hit))
    | no other ↦ inl (ground (arith, lookup-remove id j r))
  ]

module _ (o₁ o₂ : RangeOrder Entry) (now : ℕ) (rec : Record) (r : Registry) (v : IsValid r)
    (j : Bytes) (other : j ≢ rec.id) where
  room_after :
      (id : Bytes) (q : Record)
      → find_first (is_stale rec) (o₁.visit r.peers) ≡ some (id, q)
      → leb (remove id r).max (length (remove id r).peers) ≡ false
  unfolding remove send
  room_after id q h = ground (
    arith,
    length-delete-lt id r.peers (find_peer-lookup o₁ (is_stale rec) r id q v h).0,
    v.bounded,
  )

  -- A removed peer, and then another one stored.
  kept_after :
      (t : Entry → Bool) (hit : Option Entry) (p : Record)
      → ((e : Entry) → t e ≡ true → stale_or_left rec e ≡ true)
      → KeptUnless t j (lookup j r.peers) (lookup j (remove_found hit r).peers)
      → KeptUnless
          (stale_or_left rec)
          j
          (lookup j r.peers)
          (lookup j (store rec.id p (remove_found hit r)).peers)
  kept_after t hit p weaker (inl same) =
      inl (ground (arith, lookup-store rec.id j p (remove_found hit r)))
  kept_after t hit p weaker (inr (gone, (q, known, passes))) = inr (
    ground (arith, lookup-store rec.id j p (remove_found hit r)),
    (q, known, weaker (j, q) passes),
  )

  kept_by_store :
      (p : Record)
      → KeptUnless (stale_or_left rec) j (lookup j r.peers) (lookup j (store rec.id p r).peers)
  kept_by_store p = inl (ground (arith, lookup-store rec.id j p r))

  kept_by_evict :
      (hit : Option Entry)
      → find_first is_left (o₂.visit r.peers) ≡ hit
      → (id_of hit == []) ≡ false
      → (p : Record)
      → KeptUnless
          (stale_or_left rec)
          j
          (lookup j r.peers)
          (lookup j (store rec.id p (remove (id_of hit) r)).peers)
  unfolding id_of remove_found
  kept_by_evict none h n p = absurd (ground arith)
  kept_by_evict (some (id, q)) h n p =
      kept_after is_left (some (id, q)) p (λ e t. ground arith) (remove_hit is_left o₂ r v j id q h)

  kept_by_add :
      KeptUnless (stale_or_left rec) j (lookup j r.peers) (lookup j (add_peer o₂ now rec r).0.peers)
  unfolding add_peer
  kept_by_add = elim (Bool-cases (leb r.max (length r.peers))) [
    | inl full ↦ elim (Bool-cases (id_of (find_first is_left (o₂.visit r.peers)) == [])) [
      | inl nobody ↦ rw (full, nobody) (inl refl)
      | inr someone ↦
          rw (full, someone) (kept_by_evict (find_first is_left (o₂.visit r.peers)) refl someone _)
    ]
    | inr room ↦ rw room (kept_by_store _)
  ]

  kept_by_update :
      (known : Option Record)
      → KeptUnless
          (stale_or_left rec)
          j
          (lookup j r.peers)
          (lookup j (update_or_add o₂ now rec known r).0.peers)
  unfolding update_or_add
  kept_by_update none = kept_by_add
  kept_by_update (some p) = kept_by_store (updated rec p)

  -- With room, `add_peer` only stores.
  kept_with_room :
      (id : Bytes) (q : Record) (known : Option Record)
      → find_first (is_stale rec) (o₁.visit r.peers) ≡ some (id, q)
      → KeptUnless
          (stale_or_left rec)
          j
          (lookup j r.peers)
          (lookup j (update_or_add o₂ now rec known (remove_found (some (id, q)) r)).0.peers)
  unfolding update_or_add add_peer remove_found
  kept_with_room id q (some p) h =
      kept_after (is_stale rec) (some (id, q)) (updated rec p) (λ e t. ground arith)
        (remove_hit (is_stale rec) o₁ r v j id q h)
  kept_with_room id q none h = rw (room_after id q h) (
      kept_after (is_stale rec) (some (id, q)) _ (λ e t. ground arith)
        (remove_hit (is_stale rec) o₁ r v j id q h))

  -- On a valid registry, `Upsert` leaves the record of another peer as it is, or drops it where it is
  -- stale or has left.
  pub upsert_others :
      KeptUnless
        (stale_or_left rec)
        j
        (lookup j r.peers)
        (lookup j (upsert o₁ o₂ now (some rec) r).0.peers)
  unfolding upsert prune_stale
  upsert_others = elim (Bool-cases (rec.id == [])) [
    | inl e ↦ rw e (inl refl)
    | inr e ↦ elim (Option-cases (find_first (is_stale rec) (o₁.visit r.peers))) [
      | inl n ↦ rw (e, n, remove_found) (kept_by_update _)
      | inr ((id, q), n) ↦ rw (e, n) (kept_with_room id q _ n)
    ]
  ]
