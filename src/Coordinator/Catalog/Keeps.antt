-- ===== src/Coordinator/Catalog/Keeps.antt =====
-- The block store during `UpdateGlobalCatalog`.
use p2p_distributed_system_m.Base.{
  ℕ, Bytes, codes, List, [], ◌++◌, Bool, true, false, Option, none, some, Result, ok, err,
  if◌then◌else◌, ◌==◌,
}
use p2p_distributed_system_m.Os.{buffer}
use p2p_distributed_system_m.Storage.{StorageLaws}
use p2p_distributed_system_m.Peer.Registry.{RedisCommand}
use p2p_distributed_system_m.Coordinator.Host.{Env, Orders, Host}
use p2p_distributed_system_m.Coordinator.Files.{get_file}
use p2p_distributed_system_m.Coordinator.Files.Roundtrip.{Keeps, add_file-Keeps}
use p2p_distributed_system_m.Coordinator.Files.Reading.{get_file-Keeps}
use p2p_distributed_system_m.Coordinator.Catalog.{
  acquire, or_new, or_empty, read_catalog, removed, add_written, add_temp, add_text, new_catalog,
  set_local, set_shared, released, update_local, update_shared, pick, update_global_catalog,
  catalog_entry, catalog_key,
}

module _ (E : Env) (laws : StorageLaws E.storage) (o : Orders) where
  abbrev KeepsIn : E.storage.Store → Result Bytes × Host E → Type 0
  KeepsIn s r = Keeps E s r.1.store

  read-Keeps :
      (s : E.storage.Store) (got : Option Bytes × Host E × Bytes)
      → Keeps E s got.1.store
      → Keeps E s (or_new E got).1.store
  read-Keeps s (none, h, text) k = k
  read-Keeps s (some e, h, text) k = k

  choice-Keeps :
      (b : Bool) (h : Host E) (got : Bytes × Host E)
      → Keeps E h.store got.1.store
      → Keeps E h.store (if b then ([], h) else got).1.store
  choice-Keeps true h got k = λ c d g. g
  choice-Keeps false h got k = k

  read_catalog-Keeps : (cid : Bytes) (h : Host E) → Keeps E h.store (read_catalog E o cid h).1.store
  unfolding read_catalog
  read_catalog-Keeps cid h =
      choice-Keeps (cid == []) h (or_new E (get_file E buffer o cid h [])) (
        read-Keeps h.store (get_file E buffer o cid h []) (get_file-Keeps E buffer laws o cid h []))

  add_written-Keeps :
      (tmp : Bytes) (h : Host E) (w : Option Bytes × E.disk.Files)
      → KeepsIn h.store (add_written E o tmp h w)
  unfolding add_written
  add_written-Keeps tmp h (some e, files) = λ c d g. g
  add_written-Keeps tmp h (none, files) =
      add_file-Keeps E laws o tmp (record h { files = (E.disk.close tmp files).1 })

  add_temp-Keeps :
      (text : Bytes) (h : Host E) (t : Result Bytes × E.disk.Files)
      → KeepsIn h.store (add_temp E o text h t)
  unfolding add_temp removed
  add_temp-Keeps text h (err e, files) = λ c d g. g
  add_temp-Keeps text h (ok tmp, files) = add_written-Keeps tmp h (E.disk.append tmp text files)

  new_catalog-Keeps :
      (cid entry : Bytes) (h : Host E) → KeepsIn h.store (new_catalog E o cid entry h)
  unfolding new_catalog add_text
  new_catalog-Keeps cid entry h c d g =
      let got = read_catalog E o cid h in
      add_temp-Keeps (got.0 ++ entry) got.1 (E.disk.create_temp [] (codes "catalog-*") got.1.files)
        c d (read_catalog-Keeps cid h c d g)

  set_local-Keeps :
      (s : E.storage.Store) (r : Result Bytes × Host E) → KeepsIn s r → KeepsIn s (set_local E r)
  unfolding set_local
  set_local-Keeps s (err e, h) k = k
  set_local-Keeps s (ok c, h) k = k

  set_shared-Keeps :
      (s : E.storage.Store) (r : Result Bytes × Host E) → KeepsIn s r → KeepsIn s (set_shared E r)
  unfolding set_shared
  set_shared-Keeps s (err e, h) k = k
  set_shared-Keeps s (ok c, h) k = k

  locked-Keeps :
      (b : Bool) (h h' : Host E) (ctx_error : Bytes) (r : Result Bytes × Host E)
      → Keeps E h.store h'.store
      → KeepsIn h.store r
      → KeepsIn h.store (if b then r else (err ctx_error, h'))
  locked-Keeps true h h' ctx_error r k kr = kr
  locked-Keeps false h h' ctx_error r k kr = k

  update_shared-Keeps :
      (waits : ℕ) (ctx_error entry : Bytes) (h : Host E)
      → KeepsIn h.store (update_shared E o waits ctx_error entry h)
  unfolding update_shared released
  update_shared-Keeps waits ctx_error entry h =
      let tried = acquire E h.self_id waits h.db in
      let got = E.redis.get catalog_key tried.1 in
      let held = record h { db = got.1 } in
      let made = new_catalog E o (or_empty got.0) entry held in
      locked-Keeps tried.0 h (record h { db = tried.1 }) ctx_error (released E (set_shared E made))
        (λ c d g. g) (set_shared-Keeps h.store made (new_catalog-Keeps (or_empty got.0) entry held))

  pick-Keeps :
      (rdb : Option (List RedisCommand)) (s : E.storage.Store) (own shared : Result Bytes × Host E)
      → KeepsIn s own
      → KeepsIn s shared
      → KeepsIn s (pick E rdb own shared)
  pick-Keeps none s own shared k l = k
  pick-Keeps (some sent) s own shared k l = l

  -- No block is lost, with Redis or without.
  pub update_global_catalog-Keeps :
      (waits : ℕ) (ctx_error name cid : Bytes) (size : ℕ) (ext : Bytes) (h : Host E)
      → KeepsIn h.store (update_global_catalog E o waits ctx_error name cid size ext h)
  unfolding update_global_catalog update_local
  update_global_catalog-Keeps waits ctx_error name cid size ext h =
      let entry = catalog_entry name cid size ext in
      pick-Keeps h.reg.rdb h.store (update_local E o entry h)
        (update_shared E o waits ctx_error entry h)
        (set_local-Keeps h.store (new_catalog E o h.local_catalog_cid entry h)
          (new_catalog-Keeps h.local_catalog_cid entry h))
        (update_shared-Keeps waits ctx_error entry h)
