-- ===== src/Peer/Registry/Validity.antt =====
-- The registry's invariant, method by method.
use p2p_distributed_system_m.Base.{
  Bool, ℕ, ◌≤◌, ◌<◌, ◌≡◌, refl, Bytes, List, [], ◌∷◌, Option, none, some, true, false, inl, inr,
  arith, length, ◌==◌, Bool-cases, leb, ltb,
}
use p2p_distributed_system_m.Base.GoMap.{
  GoMap, lookup, insert, Distinct, lookup-insert, lookup-delete, length-insert, length-insert_known,
  length-delete-le, length-delete-lt, insert-Distinct, delete-Distinct,
}
use p2p_distributed_system_m.Base.Order.{RangeOrder, find_first, find_visit-mem, mem-lookup}
use p2p_distributed_system_m.Peer.Record.{Record, State}
use p2p_distributed_system_m.Peer.Registry.{
  Registry, RedisCommand, Entry, Call, upserts, marks, touches, removes, syncs, new_registry, send,
  store, remove, is_stale, is_left, id_of, remove_found, prune_stale, updated, add_peer,
  update_or_add, upsert, mark_found, mark_state, touched, touch_found, touch, merged, sync_found,
  sync_records, redis_sync, step, run,
}

-- Not more peers than the network holds, each once and under its own ID.
pub record IsValid (r : Registry) : Type 0 where
  pub bounded : length r.peers ≤ r.max
  pub distinct : Distinct r.peers
  pub keyed : (id : Bytes) (p : Record) → lookup id r.peers ≡ some p → p.id ≡ id

pub new_registry-IsValid :
    (self : Bytes) (rdb : Option (List RedisCommand)) → IsValid (new_registry self rdb)
unfolding new_registry lookup
new_registry-IsValid self rdb = record {
  bounded = omega arith;
  distinct = tt;
  keyed = λ id p h. cc;
}

-- Commands to Redis do not touch the map.
send-IsValid : (c : RedisCommand) {r : Registry} → IsValid r → IsValid (send c r)
unfolding send
send-IsValid c v = record { bounded = v.bounded; distinct = v.distinct; keyed = v.keyed }

insert_keyed :
    (id : Bytes) (p : Record) (m : GoMap Record)
    → p.id ≡ id
    → ((j : Bytes) (q : Record) → lookup j m ≡ some q → q.id ≡ j)
    → (j : Bytes) (q : Record) → lookup j (insert id p m) ≡ some q
    → q.id ≡ j
insert_keyed id p m e k j q h = ground (arith, lookup-insert id j p m, k j q)

-- A known peer is changed in place.
replace-IsValid :
    (id : Bytes) (p q : Record) {r : Registry}
    → lookup id r.peers ≡ some q
    → p.id ≡ id
    → IsValid r
    → IsValid (record r { peers = insert id p r.peers })
replace-IsValid id p q {r} h e v = record {
  bounded = omega (arith, length-insert_known id p r.peers h, v.bounded);
  distinct = insert-Distinct id p r.peers v.distinct;
  keyed = insert_keyed id p r.peers e v.keyed;
}

-- A new peer needs a free place.
insert-IsValid :
    (p : Record) {r : Registry}
    → length r.peers < r.max
    → IsValid r
    → IsValid (record r { peers = insert p.id p r.peers })
insert-IsValid p {r} h v = record {
  bounded = omega (arith, length-insert p.id p r.peers);
  distinct = insert-Distinct p.id p r.peers v.distinct;
  keyed = insert_keyed p.id p r.peers refl v.keyed;
}

pub remove-IsValid : (id : Bytes) {r : Registry} → IsValid r → IsValid (remove id r)
unfolding remove send
remove-IsValid id {r} v = record {
  bounded = omega (arith, length-delete-le id r.peers, v.bounded);
  distinct = delete-Distinct id r.peers v.distinct;
  keyed = λ j q h. ground (arith, lookup-delete id j r.peers, v.keyed j q);
}

pub remove_found-IsValid :
    (e : Option Entry) {r : Registry} → IsValid r → IsValid (remove_found e r)
unfolding remove_found
remove_found-IsValid none v = v
remove_found-IsValid (some (id, _)) v = remove-IsValid id v

-- The first hit of a loop over the peers is the entry of its key.
pub find_peer-lookup :
    (o : RangeOrder Entry) (p : Entry → Bool) (r : Registry) (id : Bytes) (q : Record)
    → IsValid r
    → find_first p (o.visit r.peers) ≡ some (id, q)
    → (lookup id r.peers ≡ some q) × (p (id, q) ≡ true)
find_peer-lookup o p r id q v h =
    let (m, t) = find_visit-mem o p r.peers h in (mem-lookup id q r.peers v.distinct m, t)

store_known-IsValid :
    (id : Bytes) (p q : Record) {r : Registry}
    → lookup id r.peers ≡ some q
    → p.id ≡ id
    → IsValid r
    → IsValid (store id p r)
unfolding store
store_known-IsValid id p q h e v = send-IsValid _ (replace-IsValid id p q h e v)

store_new-IsValid :
    (p : Record) {r : Registry} → length r.peers < r.max → IsValid r → IsValid (store p.id p r)
unfolding store
store_new-IsValid p h v = send-IsValid _ (insert-IsValid p h v)

max-remove : (id : Bytes) (r : Registry) → (remove id r).max ≡ r.max
unfolding remove send
max-remove id r = refl

-- An entry that the loop found frees a place.
remove_hit_frees :
    (o : RangeOrder Entry) (p : Entry → Bool) (r : Registry) (id : Bytes) (q : Record)
    → IsValid r
    → find_first p (o.visit r.peers) ≡ some (id, q)
    → length (remove id r).peers < length r.peers
unfolding remove send
remove_hit_frees o p r id q v h = length-delete-lt id r.peers ((find_peer-lookup o p r id q v h).0)

evict-IsValid :
    (o : RangeOrder Entry) (now : ℕ) (rec : Record) (r : Registry) (hit : Option Entry)
    → find_first is_left (o.visit r.peers) ≡ hit
    → IsValid r
    → (id_of hit == []) ≡ false
    → IsValid (store rec.id (record rec { joined_at = now }) (remove (id_of hit) r))
unfolding id_of
evict-IsValid o now rec r none h v n = absurd (ground arith)
evict-IsValid o now rec r (some (id, q)) h v n =
    store_new-IsValid (record rec { joined_at = now })
      (omega (arith, max-remove id r, remove_hit_frees o is_left r id q v h, v.bounded))
      (remove-IsValid id v)

add_peer-IsValid :
    (o : RangeOrder Entry) (now : ℕ) (rec : Record) (r : Registry)
    → IsValid r
    → IsValid (add_peer o now rec r).0
unfolding add_peer
add_peer-IsValid o now rec r v = elim (Bool-cases (leb r.max (length r.peers))) [
  | inl full ↦ elim (Bool-cases (id_of (find_first is_left (o.visit r.peers)) == [])) [
    | inl nobody ↦ rw (full, nobody) v
    | inr someone ↦ rw (full, someone) (evict-IsValid o now rec r _ refl v someone)
  ]
  | inr room ↦ rw room (store_new-IsValid (record rec { joined_at = now }) (ground arith) v)
]

update_or_add-IsValid :
    (o : RangeOrder Entry) (now : ℕ) (rec : Record) (r : Registry) (known : Option Record)
    → lookup rec.id r.peers ≡ known
    → IsValid r
    → IsValid (update_or_add o now rec known r).0
unfolding update_or_add updated
update_or_add-IsValid o now rec r none h v = add_peer-IsValid o now rec r v
update_or_add-IsValid o now rec r (some existing) h v =
    store_known-IsValid rec.id (updated rec existing) existing h (v.keyed rec.id existing h) v

pub upsert-IsValid :
    (o₁ o₂ : RangeOrder Entry) (now : ℕ) (rec : Option Record) (r : Registry)
    → IsValid r
    → IsValid (upsert o₁ o₂ now rec r).0
unfolding upsert prune_stale
upsert-IsValid o₁ o₂ now none r v = v
upsert-IsValid o₁ o₂ now (some rec) r v = elim (Bool-cases (rec.id == [])) [
  | inl anonymous ↦ rw anonymous v
  | inr named ↦ rw named (
      update_or_add-IsValid o₂ now rec _ _ refl
        (remove_found-IsValid (find_first (is_stale rec) (o₁.visit r.peers)) v))
]

mark_found-IsValid :
    (id : Bytes) (s : State) (found : Option Record) (r : Registry)
    → lookup id r.peers ≡ found
    → IsValid r
    → IsValid (mark_found id s found r)
unfolding mark_found
mark_found-IsValid id s none r h v = v
mark_found-IsValid id s (some p) r h v = ground (
  arith,
  store_known-IsValid id (record p { state = s }) p h (v.keyed id p h) v,
  send-IsValid _ (store_known-IsValid id (record p { state = s }) p h (v.keyed id p h) v),
)

touch_found-IsValid :
    (now : ℕ) (id : Bytes) (found : Option Record) (r : Registry)
    → lookup id r.peers ≡ found
    → IsValid r
    → IsValid (touch_found now id found r)
unfolding touch_found touched
touch_found-IsValid now id none r h v = v
touch_found-IsValid now id (some p) r h v =
    store_known-IsValid id (touched now p) p h (v.keyed id p h) v

sync_found-IsValid :
    (rec : Record) (found : Option Record) (r : Registry)
    → lookup rec.id r.peers ≡ found
    → IsValid r
    → IsValid (sync_found rec found r)
unfolding sync_found merged
sync_found-IsValid rec none r h v = elim (Bool-cases (ltb (length r.peers) r.max)) [
  | inl room ↦ rw room (insert-IsValid rec (ground arith) v)
  | inr full ↦ rw full v
]
sync_found-IsValid rec (some existing) r h v =
    replace-IsValid rec.id (merged rec existing) existing h
      (ground (arith, v.keyed rec.id existing h)) v

sync_records-IsValid :
    (values : List (Option Record)) (r : Registry) → IsValid r → IsValid (sync_records values r)
unfolding sync_records
sync_records-IsValid [] r v = v
sync_records-IsValid (none ∷ rest) r v = sync_records-IsValid rest r v
sync_records-IsValid (some rec ∷ rest) r v =
    sync_records-IsValid rest _ (sync_found-IsValid rec _ r refl v)

pub mark_state-IsValid :
    (id : Bytes) (s : State) (r : Registry) → IsValid r → IsValid (mark_state id s r)
unfolding mark_state
mark_state-IsValid id s r v = mark_found-IsValid id s _ r refl v

pub touch-IsValid : (now : ℕ) (id : Bytes) (r : Registry) → IsValid r → IsValid (touch now id r)
unfolding touch
touch-IsValid now id r v = touch_found-IsValid now id _ r refl v

pub step-IsValid : (c : Call) (r : Registry) → IsValid r → IsValid (step c r)
unfolding step redis_sync
step-IsValid (upserts o₁ o₂ now rec) r v = upsert-IsValid o₁ o₂ now rec r v
step-IsValid (marks id s) r v = mark_state-IsValid id s r v
step-IsValid (touches now id) r v = touch-IsValid now id r v
step-IsValid (removes id) r v = remove-IsValid id v
step-IsValid (syncs none) r v = v
step-IsValid (syncs (some values)) r v = sync_records-IsValid values r v

run-IsValid : (cs : List Call) (r : Registry) → IsValid r → IsValid (run cs r)
unfolding run
run-IsValid [] r v = v
run-IsValid (c ∷ cs) r v = run-IsValid cs (step c r) (step-IsValid c r v)

-- Whatever calls a new registry receives, in any order and with any order of the loops over its map,
-- it never holds more peers than its maximum, holds no peer twice, and holds each under its own ID.
pub run-new_registry-IsValid :
    (self : Bytes) (rdb : Option (List RedisCommand)) (cs : List Call)
    → IsValid (run cs (new_registry self rdb))
run-new_registry-IsValid self rdb cs = run-IsValid cs _ (new_registry-IsValid self rdb)
