-- ===== src/Coordinator/Catalog/Local.antt =====
-- The catalog of a node without Redis.
use p2p_distributed_system_m.Base.{
  ℕ, ◌≡◌, ◌⊎◌, refl, sym, ap, ◌∙◌, subst, Bytes, codes, List, [], ◌∷◌, ◌++◌, true, false, Option,
  none, some, Result, ok, err, arith, ◌==◌, inl, inr,
}
use p2p_distributed_system_m.Os.{DiskLaws}
use p2p_distributed_system_m.Storage.{StorageLaws}
use p2p_distributed_system_m.Merkle.{JsonLaws}
use p2p_distributed_system_m.Coordinator.Host.{Env, Orders, Host}
use p2p_distributed_system_m.Coordinator.Files.{add_file}
use p2p_distributed_system_m.Coordinator.Files.Keeps.{add_file_keeps}
use p2p_distributed_system_m.Coordinator.Files.Roundtrip.{
  Stored, Keeps, Stored-Keeps, get_file-Stored, add_file-Keeps, add_file-Stored,
}
use p2p_distributed_system_m.Coordinator.Catalog.{
  read_catalog, or_new, removed, add_written, add_temp, add_text, new_catalog, set_local,
  update_local, update_shared, pick, update_global_catalog, catalog_entry, local_catalog,
}

-- What an upload hands to the catalog.
pub record Upload : Type 0 where
  pub name : Bytes
  pub cid : Bytes
  pub size : ℕ
  pub ext : Bytes

-- The line of an upload.
abbrev pub line : Upload → Bytes
line u = catalog_entry u.name u.cid u.size u.ext

-- The text of the catalog after an update.
abbrev pub next : Result Bytes → Bytes → Bytes → Bytes
next (ok c) text entry = text ++ entry
next (err e) text entry = text

module _ (E : Env) (o : Orders) (waits : ℕ) (ctx_error : Bytes) where
  abbrev pub update : Upload → Host E → Result Bytes × Host E
  update u h = update_global_catalog E o waits ctx_error u.name u.cid u.size u.ext h

  -- The node after its uploads, and the lines of those whose update succeeded, one after the other.
  abbrev pub update_all : List Upload → Host E → Host E
  update_all [] h = h
  update_all (u ∷ us) h = update_all us (update u h).1

  abbrev pub lines : List Upload → Host E → Bytes → Bytes
  lines [] h text = text
  lines (u ∷ us) h text = lines us (update u h).1 (next (update u h).0 text (line u))

module _ (E : Env) where
  -- The node's catalog has this text: it is a file of the store, or there is no catalog and no text.
  abbrev pub CatalogHolds : Bytes → Host E → Type 0
  CatalogHolds text h =
      ((h.local_catalog_cid ≡ []) × (text ≡ [])) ⊎ Stored E h.local_catalog_cid text h.store

  read_catalog_held :
      (o : Orders) (text : Bytes) (h : Host E)
      → CatalogHolds text h
      → read_catalog E o h.local_catalog_cid h ≡ (text, h)
  unfolding read_catalog
  read_catalog_held o text h (inl (none_yet, empty)) =
      let missing : (h.local_catalog_cid == []) ≡ true = ground arith in
      rw missing (λ i. (sym empty i, h))
  read_catalog_held o text h (inr stored) =
      let there : (h.local_catalog_cid == []) ≡ false = ground (arith, stored.named) in
      rw there (ap (or_new E) (get_file-Stored E o h.local_catalog_cid text [] h stored))

  module _ (disk : DiskLaws E.disk) (laws : StorageLaws E.storage) (json : JsonLaws E.json)
      (o : Orders) where
    -- What adding a text does to a node: a new file of the store or an error, no block lost, and the
    -- catalog's CID and the registry as they were.
    abbrev Adds : Bytes → Host E → Result Bytes × Host E → Type 0
    Adds text h (r, h') =
        Keeps E h.store h'.store
        × (h'.local_catalog_cid ≡ h.local_catalog_cid)
        × (h'.reg ≡ h.reg)
        × ((c : Bytes) → r ≡ ok c → Stored E c text h'.store)

    added :
        (text tmp : Bytes) (h : Host E)
        → E.disk.read_file tmp h.files ≡ ok text
        → Adds text h (add_file E o tmp h)
    added text tmp h read = (
      add_file-Keeps E laws o tmp h,
      add_file_keeps E (λ (k : Host E). k.local_catalog_cid) (λ k n f p. refl) o tmp h
          (λ s k. refl),
      add_file_keeps E (λ (k : Host E). k.reg) (λ k n f p. refl) o tmp h (λ s k. refl),
      λ c e. add_file-Stored E laws json o tmp text h c read e,
    )

    refused :
        (text e : Bytes) (h : Host E) (files : E.disk.Files)
        → Adds text h (err e, record h { files = files })
    refused text e h files = (λ c d g. g, refl, refl, λ c q. absurd (ground arith))

    written_adds :
        (text tmp : Bytes) (h : Host E) (files : E.disk.Files) (w : Option Bytes × E.disk.Files)
        → E.disk.read_file tmp files ≡ ok []
        → E.disk.append tmp text files ≡ w
        → Adds text h (add_written E o tmp h w)
    unfolding add_written
    written_adds text tmp h files (some e, f) empty w = refused text e h (E.disk.close tmp f).1
    written_adds text tmp h files (none, f) empty w =
        let closed = E.disk.close tmp f in
        added text tmp (record h { files = closed.1 })
          (disk.read-close tmp text closed.0 f closed.1
            (disk.read-append tmp [] text files f empty w) refl)

    temp_adds :
        (text : Bytes) (h : Host E) (t : Result Bytes × E.disk.Files)
        → E.disk.create_temp [] (codes "catalog-*") h.files ≡ t
        → Adds text h (add_temp E o text h t)
    unfolding add_temp removed
    temp_adds text h (err e, files) q = refused text e h files
    temp_adds text h (ok tmp, files) q =
        written_adds text tmp h files (E.disk.append tmp text files)
          (disk.read-create_temp [] (codes "catalog-*") tmp h.files files q) refl

    text_adds : (text : Bytes) (h : Host E) → Adds text h (add_text E o text h)
    unfolding add_text
    text_adds text h = temp_adds text h (E.disk.create_temp [] (codes "catalog-*") h.files) refl

    -- The state after an update that was given `next`.
    abbrev Updated : Bytes → Bytes → Host E → Result Bytes × Host E → Type 0
    Updated text entry h r = CatalogHolds (next r.0 text entry) r.1 × (r.1.reg ≡ h.reg)

    still_holds :
        (text : Bytes) (h h' : Host E)
        → Keeps E h.store h'.store
        → h'.local_catalog_cid ≡ h.local_catalog_cid
        → CatalogHolds text h
        → CatalogHolds text h'
    still_holds text h h' k same (inl (none_yet, empty)) = inl (same ∙ none_yet, empty)
    still_holds text h h' k same (inr stored) = inr (
        subst (λ c. Stored E c text h'.store) (sym same)
          (Stored-Keeps E h.local_catalog_cid text h.store h'.store k stored))

    set_local_updates :
        (text entry : Bytes) (h : Host E) (r : Result Bytes × Host E)
        → CatalogHolds text h
        → Adds (text ++ entry) h r
        → Updated text entry h (set_local E r)
    unfolding set_local
    set_local_updates text entry h (err e, h') held (k, same, reg, stored) =
        (still_holds text h h' k same held, reg)
    set_local_updates text entry h (ok c, h') held (k, same, reg, stored) =
        (inr (stored c refl), reg)

    local_updates :
        (text entry : Bytes) (h : Host E)
        → CatalogHolds text h
        → Updated text entry h (update_local E o entry h)
    unfolding update_local new_catalog
    local_updates text entry h held =
        subst (λ p. Updated text entry h (set_local E (add_text E o (p.0 ++ entry) p.1)))
          (sym (read_catalog_held o text h held))
          (set_local_updates text entry h (add_text E o (text ++ entry) h) held
            (text_adds (text ++ entry) h))

    module _ (waits : ℕ) (ctx_error : Bytes) where
      update_updates :
          (u : Upload) (text : Bytes) (h : Host E)
          → h.reg.rdb ≡ none
          → CatalogHolds text h
          → Updated text (line u) h (update E o waits ctx_error u h)
      unfolding update_global_catalog
      update_updates u text h alone held =
          subst
            (λ rdb. Updated text (line u) h (
              pick E rdb (update_local E o (line u) h)
                (update_shared E o waits ctx_error (line u) h)))
            (sym alone) (local_updates text (line u) h held)

      updates_hold :
          (us : List Upload) (text : Bytes) (h : Host E)
          → h.reg.rdb ≡ none
          → CatalogHolds text h
          → CatalogHolds (lines E o waits ctx_error us h text) (update_all E o waits ctx_error us h)
      updates_hold [] text h alone held = held
      updates_hold (u ∷ us) text h alone held =
          let (after, reg) = update_updates u text h alone held in
          updates_hold us (next (update E o waits ctx_error u h).0 text (line u))
            (update E o waits ctx_error u h).1 (ap (λ r. r.rdb) reg ∙ alone) after

      -- On a node without Redis whose catalog has a text, the catalog after any uploads is that text
      -- and the lines of the uploads whose update succeeded, in their order; reading it changes nothing.
      -- The disk, the block store and JSON satisfy their laws.
      pub read_catalog-update_all :
          (us : List Upload) (text : Bytes) (h : Host E)
          → h.reg.rdb ≡ none
          → CatalogHolds text h
          → let h' = update_all E o waits ctx_error us h in
            read_catalog E o (local_catalog E h') h' ≡ (lines E o waits ctx_error us h text, h')
      unfolding local_catalog
      read_catalog-update_all us text h alone held =
          read_catalog_held o (lines E o waits ctx_error us h text)
            (update_all E o waits ctx_error us h) (updates_hold us text h alone held)
