-- ===== src/Peer/Registry/Redis.antt =====
-- What Redis holds after the commands of one registry, and how that compares with its map.
use mathlib.Core.Option
use p2p_distributed_system_m.Base.{
  ℕ, ◌≡◌, refl, ap, subst, ◌∙◌, ◌*◌, Bytes, List, [], ◌∷◌, Option, none, some, true, false, inl,
  inr, arith, ◌==◌, Bool-cases, ◌⊎◌, ◌&&◌, if◌then◌else◌, Bool,
}
use p2p_distributed_system_m.Base.GoMap.{
  GoMap, insert, delete, lookup, lookup-insert, lookup-delete,
}
use p2p_distributed_system_m.Base.Order.{RangeOrder, find_first}
use p2p_distributed_system_m.Utils.{second}
use p2p_distributed_system_m.Peer.Record.{Record, State, left}
use p2p_distributed_system_m.Peer.Registry.{
  Registry, RedisCommand, set, del, Entry, Call, upserts, marks, touches, removes, syncs, peer_key,
  new_registry, ◌is◌, publish_redis, send, store, remove, is_stale, is_left, id_of, remove_found,
  prune_stale, updated, add_peer, update_or_add, upsert, mark_found, mark_state, touched,
  touch_found, touch, step, run,
}
use p2p_distributed_system_m.Peer.Registry.Validity.{IsValid, step-IsValid, new_registry-IsValid}
use p2p_distributed_system_m.Peer.Registry.Upsert.{prune_keeps_own}

-- The value of a key after commands, the newest first, with the time after which Redis forgets it. No
-- command fails here, and nothing is forgotten yet.
pub redis_value : Bytes → List RedisCommand → Option (Record × ℕ)
redis_value k [] = none
redis_value k (set j rec ttl ∷ cs) = if j == k then some (rec, ttl) else redis_value k cs
redis_value k (del j ∷ cs) = if j == k then none else redis_value k cs

-- The record of a peer is published for a minute.
abbrev published : Option Record → Option (Record × ℕ)
published known = Option.map (λ p. (p, 60 * second)) known

abbrev HasLeft : Option Record → Type 0
HasLeft known = (p : Record) × (known ≡ some p) × (p.state ≡ left)

-- Redis holds exactly what is in the map, but it may lack a peer that has left.
abbrev pub Agrees : Option (Record × ℕ) → Option Record → Type 0
Agrees in_redis in_map = (in_redis ≡ published in_map) ⊎ ((in_redis ≡ none) × HasLeft in_map)

abbrev Mirror : GoMap Record → Option (List RedisCommand) → Type 0
Mirror peers none = Unit
Mirror peers (some sent) = (id : Bytes) → Agrees (redis_value (peer_key id) sent) (lookup id peers)

pub record IsMirrored (r : Registry) : Type 0 where
  pub agrees : Mirror r.peers r.rdb

peer_key-injective : (i j : Bytes) → (peer_key i == peer_key j) ≡ (i == j)
unfolding peer_key
peer_key-injective i j = ground arith

new_registry-IsMirrored : (self : Bytes) → IsMirrored (new_registry self (some []))
unfolding new_registry redis_value lookup
new_registry-IsMirrored self = record { agrees = λ id. inl refl }

-- One key of Redis and of the map, by whether it is the one that a command is about.
at_key :
    (test : Bool) (u v : Option (Record × ℕ)) (m n : Option Record)
    → Agrees u m
    → Agrees v n
    → Agrees (if test then u else v) (if test then m else n)
at_key true u v m n p q = p
at_key false u v m n p q = q

insert-Mirror :
    (id : Bytes) (p : Record) (m : GoMap Record) (rdb : Option (List RedisCommand))
    → p.id ≡ id
    → Mirror m rdb
    → Mirror (insert id p m) (Option.map (λ sent. set (peer_key p.id) p (60 * second) ∷ sent) rdb)
unfolding redis_value
insert-Mirror id p m none e h = tt
insert-Mirror id p m (some sent) e h = λ j.
    let same : (peer_key p.id == peer_key j) ≡ (id == j) =
      peer_key-injective p.id j ∙ ap (λ i. i == j) e in
    rw (same, lookup-insert id j p m)
      (at_key (id == j) (some (p, 60 * second)) (redis_value (peer_key j) sent) (some p)
        (lookup j m) (inl refl) (h j))

delete-Mirror :
    (id : Bytes) (m : GoMap Record) (rdb : Option (List RedisCommand))
    → Mirror m rdb
    → Mirror (delete id m) (Option.map (λ sent. del (peer_key id) ∷ sent) rdb)
unfolding redis_value
delete-Mirror id m none h = tt
delete-Mirror id m (some sent) h = λ j.
    rw (peer_key-injective id j, lookup-delete id j m)
      (at_key (id == j) none (redis_value (peer_key j) sent) none (lookup j m) (inl refl) (h j))

-- The key of a peer that has left is deleted, and the map keeps the peer.
left-Mirror :
    (id : Bytes) (m : GoMap Record) (rdb : Option (List RedisCommand))
    → HasLeft (lookup id m)
    → Mirror m rdb
    → Mirror m (Option.map (λ sent. del (peer_key id) ∷ sent) rdb)
unfolding redis_value
left-Mirror id m none gone h = tt
left-Mirror id m (some sent) gone h = λ j. elim (Bool-cases (id == j)) [
  | inl e ↦
      let same : id ≡ j = ground arith in
      rw (peer_key-injective id j, e) (inr (refl, subst (λ k. HasLeft (lookup k m)) same gone))
  | inr e ↦ rw (peer_key-injective id j, e) (h j)
]

store-IsMirrored :
    (id : Bytes) (p : Record) (r : Registry) → p.id ≡ id → IsMirrored r → IsMirrored (store id p r)
unfolding store publish_redis send
store-IsMirrored id p r e m = record { agrees = insert-Mirror id p r.peers r.rdb e m.agrees }

remove-IsMirrored : (id : Bytes) (r : Registry) → IsMirrored r → IsMirrored (remove id r)
unfolding remove send
remove-IsMirrored id r m = record { agrees = delete-Mirror id r.peers r.rdb m.agrees }

remove_found-IsMirrored :
    (e : Option Entry) (r : Registry) → IsMirrored r → IsMirrored (remove_found e r)
unfolding remove_found
remove_found-IsMirrored none r m = m
remove_found-IsMirrored (some (id, _)) r m = remove-IsMirrored id r m

add_peer-IsMirrored :
    (o : RangeOrder Entry) (now : ℕ) (rec : Record) (r : Registry)
    → IsMirrored r
    → IsMirrored (add_peer o now rec r).0
unfolding add_peer
add_peer-IsMirrored o now rec r m =
    let joined = record rec { joined_at = now } in
    let evict_id = id_of (find_first is_left (o.visit r.peers)) in
    ground (
      arith,
      store-IsMirrored rec.id joined r refl m,
      store-IsMirrored rec.id joined (remove evict_id r) refl (remove-IsMirrored evict_id r m),
    )

upsert-IsMirrored :
    (o₁ o₂ : RangeOrder Entry) (now : ℕ) (rec : Option Record) (r : Registry)
    → IsValid r
    → IsMirrored r
    → IsMirrored (upsert o₁ o₂ now rec r).0
unfolding upsert prune_stale
upsert-IsMirrored o₁ o₂ now none r v m = m
upsert-IsMirrored o₁ o₂ now (some rec) r v m = elim (Bool-cases (rec.id == [])) [
  | inl e ↦ rw e m
  | inr e ↦
      let hit = find_first (is_stale rec) (o₁.visit r.peers) in
      rw (e, prune_keeps_own o₁ o₂ now rec r v hit refl)
        (at (lookup rec.id r.peers) (v.keyed rec.id) (remove_found hit r)
          (remove_found-IsMirrored hit r m))
]
  where
    at :
        (known : Option Record)
        → ((p : Record) → known ≡ some p → p.id ≡ rec.id)
        → (q : Registry) → IsMirrored q
        → IsMirrored (update_or_add o₂ now rec known q).0
    at none k q h = unfold update_or_add in add_peer-IsMirrored o₂ now rec q h
    at (some p) k q h =
        unfold update_or_add updated in store-IsMirrored rec.id (updated rec p) q (k p refl) h

is_left-eq : (s : State) → (s is left) ≡ true → s ≡ left
is_left-eq s h = ground arith

left-IsMirrored :
    (id : Bytes) (p : Record) (r : Registry)
    → p.state ≡ left
    → IsMirrored (store id p r)
    → IsMirrored (send (del (peer_key id)) (store id p r))
unfolding send store publish_redis
left-IsMirrored id p r gone m =
    let found : lookup id (insert id p r.peers) ≡ some p =
      ground (arith, lookup-insert id id p r.peers) in
    record { agrees = left-Mirror id (insert id p r.peers) _ (p, found, gone) m.agrees }

mark_state-IsMirrored :
    (id : Bytes) (s : State) (r : Registry) (found : Option Record)
    → lookup id r.peers ≡ found
    → IsValid r
    → IsMirrored r
    → IsMirrored (mark_found id s found r)
unfolding mark_found
mark_state-IsMirrored id s r none h v m = m
mark_state-IsMirrored id s r (some p) h v m =
    let marked = record p { state = s } in
    let kept = store-IsMirrored id marked r (v.keyed id p h) m in
    elim (Bool-cases (s is left)) [
      | inl e ↦ rw e (left-IsMirrored id marked r (is_left-eq s e) kept)
      | inr e ↦ rw e kept
    ]

touch-IsMirrored :
    (now : ℕ) (id : Bytes) (r : Registry) (found : Option Record)
    → lookup id r.peers ≡ found
    → IsValid r
    → IsMirrored r
    → IsMirrored (touch_found now id found r)
unfolding touch_found touched
touch-IsMirrored now id r none h v m = m
touch-IsMirrored now id r (some p) h v m = store-IsMirrored id (touched now p) r (v.keyed id p h) m

-- A call that this node makes; `syncs` reads what other nodes wrote.
abbrev pub is_own : Call → Bool
is_own (syncs _) = false
is_own _ = true

-- Every call but the merge of what other nodes wrote keeps Redis in agreement with the map.
pub step-IsMirrored :
    (c : Call) (r : Registry) → is_own c ≡ true → IsValid r → IsMirrored r → IsMirrored (step c r)
unfolding step mark_state touch
step-IsMirrored (upserts o₁ o₂ now rec) r own v m = upsert-IsMirrored o₁ o₂ now rec r v m
step-IsMirrored (marks id s) r own v m = mark_state-IsMirrored id s r _ refl v m
step-IsMirrored (touches now id) r own v m = touch-IsMirrored now id r _ refl v m
step-IsMirrored (removes id) r own v m = remove-IsMirrored id r m
step-IsMirrored (syncs values) r own v m = absurd (ground arith)

abbrev pub all_own : List Call → Bool
all_own [] = true
all_own (c ∷ cs) = is_own c && all_own cs

run-IsMirrored :
    (cs : List Call) (r : Registry)
    → all_own cs ≡ true
    → IsValid r
    → IsMirrored r
    → IsMirrored (run cs r)
unfolding run
run-IsMirrored [] r own v m = m
run-IsMirrored (c ∷ cs) r own v m =
    run-IsMirrored cs (step c r) (ground arith) (step-IsValid c r v)
      (step-IsMirrored c r (ground arith) v m)

-- After any calls of its own, without the merges of what other nodes wrote, the map of a new registry
-- and the Redis that its commands have written agree in both directions: Redis holds the record of every
-- peer of the map, published for a minute, but that of a peer that has left may be missing, and it holds
-- nothing of a peer that is not in the map. No command has failed, no value has been forgotten, and no
-- one else writes these keys.
pub run-new_registry-IsMirrored :
    (self : Bytes) (cs : List Call)
    → all_own cs ≡ true
    → IsMirrored (run cs (new_registry self (some [])))
run-new_registry-IsMirrored self cs own =
    run-IsMirrored cs _ own (new_registry-IsValid self (some [])) (new_registry-IsMirrored self)
