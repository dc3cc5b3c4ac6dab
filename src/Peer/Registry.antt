-- ===== src/Peer/Registry.antt =====
-- internal/peer/peer_registry.go. A method takes the registry and returns it with its result; the
-- mutex makes each method one step. Redis is a service outside the program: what the registry sends
-- there is kept as the list of its commands, the newest first.
pub mod Validity
pub mod Effects
pub mod Upsert
pub mod Others
pub mod Redis
pub mod Snapshot
use mathlib.Core.Option
use p2p_distributed_system_m.Base.{
  ℕ, ◌*◌, suc, Bytes, codes, List, [], ◌∷◌, ◌++◌, map, Bool, true, false, ◌&&◌, ◌||◌, not, Option,
  none, some, if◌then◌else◌, ltb, leb, length, ◌==◌,
}
use p2p_distributed_system_m.Base.GoMap.{GoMap, lookup, insert, delete}
use p2p_distributed_system_m.Base.Order.{RangeOrder, find_first}
use p2p_distributed_system_m.Utils.{max_network_peers, second}
use p2p_distributed_system_m.Peer.Record.{
  Record, State, State-discrete, unset, active, inactive, left,
}

-- `set` holds the record whose JSON is sent, and the time after which Redis drops it.
pub data RedisCommand : Type 0 where
  set : Bytes → Record → ℕ → RedisCommand
  del : Bytes → RedisCommand

-- `rdb` is `none` where no Redis is configured.
pub record Registry : Type 0 where
  pub self : Bytes
  pub peers : GoMap Record
  pub max : ℕ
  pub rdb : Option (List RedisCommand)

abbrev pub Entry : Type 0
Entry = Bytes × Record

unfoldable pub new_registry : Bytes → Option (List RedisCommand) → Registry
new_registry self_id rdb = record { self = self_id; peers = []; max = max_network_peers; rdb = rdb }

infix 50 ◌is◌
abbrev pub ◌is◌ : State → State → Bool
s is t = elim (State-discrete s t) [ yes _ ↦ true | no _ ↦ false ]

unfoldable pub peer_key : Bytes → Bytes
peer_key id = codes "peers:" ++ id

unfoldable pub send : RedisCommand → Registry → Registry
send c r = record r { rdb = Option.map (λ sent. c ∷ sent) r.rdb }

unfoldable pub publish_redis : Record → Registry → Registry
unfolding send
publish_redis rec r = send (set (peer_key rec.id) rec (60 * second)) r

-- `delete(r.peers, id)` and the command that deletes it in Redis.
unfoldable pub remove : Bytes → Registry → Registry
unfolding send
remove id r = send (del (peer_key id)) (record r { peers = delete id r.peers })

-- Another ID under the address of `rec`: what a restarted node left behind.
unfoldable pub is_stale : Record → Entry → Bool
is_stale rec (id, existing) =
    not (id == rec.id)
    && (existing.grpc_addr == rec.grpc_addr
        || (not (existing.http_addr == []) && existing.http_addr == rec.http_addr))

unfoldable pub is_left : Entry → Bool
is_left (id, p) = p.state is left

unfoldable pub remove_found : Option Entry → Registry → Registry
unfolding remove
remove_found none r = r
remove_found (some (id, _)) r = remove id r

unfoldable pub prune_stale : RangeOrder Entry → Record → Registry → Registry
unfolding remove_found
prune_stale o rec r = remove_found (find_first (is_stale rec) (o.visit r.peers)) r

unfoldable pub updated : Record → Record → Record
updated rec existing = record existing {
  grpc_addr = rec.grpc_addr;
  http_addr = rec.http_addr;
  state = if not (rec.state is unset) then rec.state else existing.state;
  last_seen = rec.last_seen;
}

-- `r.peers[id] = p` and its publication.
unfoldable pub store : Bytes → Record → Registry → Registry
unfolding publish_redis
store id p r = publish_redis p (record r { peers = insert id p r.peers })

unfoldable pub id_of : Option Entry → Bytes
id_of none = []
id_of (some (id, _)) = id

unfoldable pub add_peer : RangeOrder Entry → ℕ → Record → Registry → Registry × Bool
unfolding store remove id_of
add_peer o now rec r =
    let joined = record rec { joined_at = now } in
    let evict_id = id_of (find_first is_left (o.visit r.peers)) in
    if leb r.max (length r.peers)
    then (if evict_id == [] then (r, false) else (store rec.id joined (remove evict_id r), true))
    else (store rec.id joined r, true)

unfoldable pub update_or_add :
    RangeOrder Entry → ℕ → Record → Option Record → Registry → Registry × Bool
unfolding store updated add_peer
update_or_add o now rec (some existing) r = (store rec.id (updated rec existing) r, true)
update_or_add o now rec none r = add_peer o now rec r

-- The orders are those of its two loops, and `now` is the time at which a new peer joins.
unfoldable pub upsert :
    RangeOrder Entry → RangeOrder Entry → ℕ → Option Record → Registry → Registry × Bool
unfolding prune_stale update_or_add
upsert o₁ o₂ now none r = (r, false)
upsert o₁ o₂ now (some rec) r =
    let pruned = prune_stale o₁ rec r in
    if rec.id == []
    then (r, false)
    else update_or_add o₂ now rec (lookup rec.id pruned.peers) pruned

unfoldable pub get : Bytes → Registry → Option Record
get id r = lookup id r.peers

unfoldable pub mark_found : Bytes → State → Option Record → Registry → Registry
unfolding store send
mark_found id s none r = r
mark_found id s (some p) r =
    let marked = store id (record p { state = s }) r in
    if s is left then send (del (peer_key id)) marked else marked

unfoldable pub mark_state : Bytes → State → Registry → Registry
unfolding mark_found
mark_state id s r = mark_found id s (lookup id r.peers) r

unfoldable pub touched : ℕ → Record → Record
touched now p = record p {
  last_seen = now;
  state = if p.state is inactive then active else p.state;
}

unfoldable pub touch_found : ℕ → Bytes → Option Record → Registry → Registry
unfolding store touched
touch_found now id none r = r
touch_found now id (some p) r = store id (touched now p) r

unfoldable pub touch : ℕ → Bytes → Registry → Registry
unfolding touch_found
touch now id r = touch_found now id (lookup id r.peers) r

-- The copies of the records, in the order of the loop.
unfoldable pub snapshot : RangeOrder Entry → Registry → List Record
snapshot o r = map (λ e. e.1) (o.visit r.peers)

unfoldable pub count_active : List Entry → ℕ
count_active [] = 0
count_active ((id, p) ∷ es) = if p.state is active then suc (count_active es) else count_active es

unfoldable pub active_count : RangeOrder Entry → Registry → ℕ
unfolding count_active
active_count o r = count_active (o.visit r.peers)

unfoldable pub merged : Record → Record → Record
merged rec existing =
    if ltb existing.last_seen rec.last_seen
    then record existing {
      grpc_addr = rec.grpc_addr;
      http_addr = rec.http_addr;
      state = rec.state;
      last_seen = rec.last_seen;
    }
    else existing

unfoldable pub sync_found : Record → Option Record → Registry → Registry
unfolding merged
sync_found rec (some existing) r = record r { peers = insert rec.id (merged rec existing) r.peers }
sync_found rec none r =
    if ltb (length r.peers) r.max then record r { peers = insert rec.id rec r.peers } else r

-- One tick of `startRedisSync`: `none` for a key whose value is gone or is no JSON of a record, and no
-- list where the query for the keys fails.
unfoldable pub sync_records : List (Option Record) → Registry → Registry
unfolding sync_found
sync_records [] r = r
sync_records (none ∷ rest) r = sync_records rest r
sync_records (some rec ∷ rest) r = sync_records rest (sync_found rec (lookup rec.id r.peers) r)

unfoldable pub redis_sync : Option (List (Option Record)) → Registry → Registry
unfolding sync_records
redis_sync none r = r
redis_sync (some values) r = sync_records values r

-- The methods that change the registry, with the arguments of a call.
pub data Call : Type 0 where
  upserts : RangeOrder Entry → RangeOrder Entry → ℕ → Option Record → Call
  marks : Bytes → State → Call
  touches : ℕ → Bytes → Call
  removes : Bytes → Call
  syncs : Option (List (Option Record)) → Call

unfoldable pub step : Call → Registry → Registry
unfolding upsert mark_state touch remove redis_sync
step (upserts o₁ o₂ now rec) r = (upsert o₁ o₂ now rec r).0
step (marks id s) r = mark_state id s r
step (touches now id) r = touch now id r
step (removes id) r = remove id r
step (syncs values) r = redis_sync values r

-- Any callers, one call after the other.
unfoldable pub run : List Call → Registry → Registry
unfolding step
run [] r = r
run (c ∷ cs) r = run cs (step c r)
