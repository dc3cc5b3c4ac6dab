-- ===== src/Coordinator/Catalog.antt =====
-- `UpdateGlobalCatalog` and `LocalCatalogCid` of internal/coordinator/node.go: a text file of all uploads,
-- kept in the overlay, whose CID stands in Redis, or in the node where no Redis is configured.
pub mod Lock
pub mod Local
pub mod Keeps
use p2p_distributed_system_m.Base.{
  ℕ, zero, suc, ◌*◌, Bytes, codes, List, [], ◌∷◌, ◌++◌, Bool, true, false, Option, none, some,
  Result, ok, err, if◌then◌else◌, ◌==◌,
}
use p2p_distributed_system_m.Base.Decimal.{decimal}
use p2p_distributed_system_m.Utils.{second}
use p2p_distributed_system_m.Os.{buffer}
use p2p_distributed_system_m.Peer.Registry.{RedisCommand}
use p2p_distributed_system_m.Coordinator.Host.{Env, Orders, Host}
use p2p_distributed_system_m.Coordinator.Files.{add_file, get_file}

abbrev pub lock_key : Bytes
lock_key = codes "chunkster:catalog_lock"

abbrev pub catalog_key : Bytes
catalog_key = codes "chunkster:catalog_cid"

-- A line of the catalog. The size of an upload is not negative.
unfoldable pub catalog_entry : Bytes → Bytes → ℕ → Bytes → Bytes
unfolding decimal
catalog_entry name cid size ext =
    codes "Name: "
    ++ (name
        ++ (codes " | CID: "
            ++ (cid
                ++ (codes " | Size: "
                    ++ (decimal size ++ (codes " bytes | Type: " ++ (ext ++ 10 ∷ [])))))))

abbrev pub is_locked : Result Bool → Bool
is_locked (ok b) = b
is_locked (err e) = false

abbrev pub or_empty : Result Bytes → Bytes
or_empty (ok b) = b
or_empty (err e) = []

module _ (E : Env) where
  -- The loop that waits for the lock: the context ends after this number of waits.
  unfoldable pub acquire : Bytes → ℕ → E.redis.Db → Bool × E.redis.Db
  acquire self zero db =
      let (r, db') = E.redis.set_nx lock_key self (10 * second) db in (is_locked r, db')
  acquire self (suc waits) db =
      let (r, db') = E.redis.set_nx lock_key self (10 * second) db in
      let rest = acquire self waits (E.redis.wait db') in if is_locked r then (true, db') else rest

  abbrev pub or_new : Option Bytes × Host E × Bytes → Bytes × Host E
  or_new (none, h, text) = (text, h)
  or_new (some e, h, text) = ([], h)

  -- The text of the catalog: a new one where there is none, or where it cannot be fetched.
  unfoldable pub read_catalog : Orders → Bytes → Host E → Bytes × Host E
  read_catalog o cid h = if cid == [] then ([], h) else or_new (get_file E buffer o cid h [])

  -- The temporary file is removed when the function returns.
  unfoldable pub removed : Bytes → Result Bytes × Host E → Result Bytes × Host E
  removed tmp (r, h) = (r, record h { files = (E.disk.remove tmp h.files).1 })

  -- A write that fails, or a file that is closed and then added.
  unfoldable pub add_written :
      Orders → Bytes → Host E → Option Bytes × E.disk.Files → Result Bytes × Host E
  add_written o tmp h (some e, files) = (err e, record h { files = (E.disk.close tmp files).1 })
  add_written o tmp h (none, files) =
      add_file E o tmp (record h { files = (E.disk.close tmp files).1 })

  unfoldable pub add_temp :
      Orders → Bytes → Host E → Result Bytes × E.disk.Files → Result Bytes × Host E
  unfolding add_written removed
  add_temp o text h (err e, files) = (err e, record h { files = files })
  add_temp o text h (ok tmp, files) =
      removed tmp (add_written o tmp h (E.disk.append tmp text files))

  -- The new text goes to a temporary file, and the file to the overlay.
  unfoldable pub add_text : Orders → Bytes → Host E → Result Bytes × Host E
  unfolding add_temp
  add_text o text h = add_temp o text h (E.disk.create_temp [] (codes "catalog-*") h.files)

  unfoldable pub new_catalog : Orders → Bytes → Bytes → Host E → Result Bytes × Host E
  unfolding read_catalog add_text
  new_catalog o cid entry h = let (text, h') = read_catalog o cid h in add_text o (text ++ entry) h'

  unfoldable pub set_local : Result Bytes × Host E → Result Bytes × Host E
  set_local (err e, h) = (err e, h)
  set_local (ok c, h) = (ok c, record h { local_catalog_cid = c })

  -- An error of this write is only logged.
  unfoldable pub set_shared : Result Bytes × Host E → Result Bytes × Host E
  set_shared (err e, h) = (err e, h)
  set_shared (ok c, h) = (ok c, record h { db = (E.redis.set catalog_key c h.db).1 })

  -- The lock is given back when the function returns.
  unfoldable pub released : Result Bytes × Host E → Result Bytes × Host E
  released (r, h) = (r, record h { db = E.redis.del lock_key h.db })

  unfoldable pub update_shared : Orders → ℕ → Bytes → Bytes → Host E → Result Bytes × Host E
  unfolding acquire new_catalog set_shared released
  update_shared o waits ctx_error entry h =
      let (locked, db) = acquire h.self_id waits h.db in
      let (got, db') = E.redis.get catalog_key db in
      if locked
      then released (set_shared (new_catalog o (or_empty got) entry (record h { db = db' })))
      else (err ctx_error, record h { db = db })

  unfoldable pub update_local : Orders → Bytes → Host E → Result Bytes × Host E
  unfolding new_catalog set_local
  update_local o entry h = set_local (new_catalog o h.local_catalog_cid entry h)

  abbrev pub pick :
      Option (List RedisCommand)
      → Result Bytes × Host E
      → Result Bytes × Host E
      → Result Bytes × Host E
  pick none own shared = own
  pick (some sent) own shared = shared

  -- `waits` is how often the node waits for the lock before its context ends, and `ctx_error` the error
  -- of the context.
  unfoldable pub update_global_catalog :
      Orders → ℕ → Bytes → Bytes → Bytes → ℕ → Bytes → Host E → Result Bytes × Host E
  unfolding update_local update_shared catalog_entry
  update_global_catalog o waits ctx_error name cid size ext h =
      pick h.reg.rdb (update_local o (catalog_entry name cid size ext) h)
        (update_shared o waits ctx_error (catalog_entry name cid size ext) h)

  -- `LocalCatalogCid`.
  unfoldable pub local_catalog : Host E → Bytes
  local_catalog h = h.local_catalog_cid
