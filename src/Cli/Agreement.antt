-- ===== src/Cli/Agreement.antt =====
-- The commands `add` and `inspect` beside the node's `AddFile` and `InspectCID`.
use p2p_distributed_system_m.Base.{
  ◌≡◌, refl, sym, ◌∙◌, subst, Bytes, codes, List, [], ◌∷◌, Option, none, some, Result, ok, err,
  arith,
}
use p2p_distributed_system_m.Network.Pool.{Net}
use p2p_distributed_system_m.Dht.Providers.{ProviderRecords}
use p2p_distributed_system_m.Storage.{Holds, StorageLaws}
use p2p_distributed_system_m.Merkle.{Json, encode_canonical_json, new_file_node}
use p2p_distributed_system_m.Coordinator.Host.{Env, Orders, Host}
use p2p_distributed_system_m.Coordinator.Files.{
  provide_all, write_file_bundle, replicate_block, replicate_all, after_replication, after_put,
  after_encode, after_chunks, add_file,
}
use p2p_distributed_system_m.Coordinator.Files.Roundtrip.{Keeps, put-Keeps}
use p2p_distributed_system_m.Coordinator.Files.Keeps.{
  provide_all_keeps, replicate_block_keeps, write_file_bundle_keeps, after_put_keeps,
}
use p2p_distributed_system_m.Coordinator.Inspect.{inspect_block, inspect_cid}
use p2p_distributed_system_m.Cli.{normalize_interspersed_flags}
use p2p_distributed_system_m.Cli.Add.{add_put, add_encoded, add_chunks, add_local}
use p2p_distributed_system_m.Cli.Commands.{
  FlagParser, Parsed, storage_flag, inspect_message, run_inspect,
}

module _ (E : Env) where
  open E.storage use {Store}

  abbrev store_of : Host E → Store
  store_of h = h.store

  abbrev store_kept :
      (h : Host E) (net : Net E.grpc) (files : E.disk.Files) (provs : ProviderRecords)
      → store_of (record h { net = net; files = files; providers = provs }) ≡ store_of h
  store_kept h net files provs = refl

  abbrev store_kept_local :
      (h : Host E) (files : E.disk.Files) (provs : ProviderRecords)
      → store_of (record h { files = files; providers = provs }) ≡ store_of h
  store_kept_local h files provs = refl

  -- Every block of a list is in the store.
  abbrev AreHeld : Store → List Bytes → Type 0
  AreHeld s [] = Unit
  AreHeld s (c ∷ cs) = ((b : Bytes) × (E.storage.get c s ≡ ok b)) × AreHeld s cs

  Holds→AreHeld :
      (s : Store) (cs : List Bytes) (content : Bytes) → Holds E.storage s cs content → AreHeld s cs
  Holds→AreHeld s [] content h = tt
  Holds→AreHeld s (c ∷ cs) content (b, rest, got, e, held) =
      ((b, got), Holds→AreHeld s cs rest held)

  AreHeld-Keeps : (s s' : Store) (cs : List Bytes) → Keeps E s s' → AreHeld s cs → AreHeld s' cs
  AreHeld-Keeps s s' [] k h = tt
  AreHeld-Keeps s s' (c ∷ cs) k ((b, got), rest) = ((b, k c b got), AreHeld-Keeps s s' cs k rest)

  -- Blocks that are in the store are replicated without an error.
  replicate_all_held :
      (o : Orders) (cs : List Bytes) (h : Host E)
      → AreHeld h.store cs
      → (replicate_all E o cs h).0 ≡ none
  unfolding replicate_all
  replicate_all_held o [] h held = refl
  replicate_all_held o (c ∷ cs) h ((b, got), rest) =
      rw (got, replicate_all)
        (replicate_all_held o cs (replicate_block E o c b h) (
          subst (λ s. AreHeld s cs) (sym (replicate_block_keeps E store_of store_kept o c b h))
            rest))

  after_replication_ok :
      (root : Bytes) (r : Option Bytes × Host E)
      → r.0 ≡ none
      → (after_replication E root r).0 ≡ ok root
  unfolding after_replication
  after_replication_ok root (none, k) h = refl
  after_replication_ok root (some e, k) h = absurd (ground arith)

  module _ (laws : StorageLaws E.storage) (o : Orders) where
    -- The result and the store of the two.
    abbrev Agree : Result Bytes × E.disk.Files × Store → Result Bytes × Host E → Type 0
    Agree (r, files, s) (r', h) = (r ≡ r') × (s ≡ h.store)

    put-Agree :
        (cs : List Bytes) (b : Bytes) (h : Host E) (p : Result Bytes × Store)
        → E.storage.put b h.store ≡ p
        → AreHeld h.store cs
        → Agree (add_put E.storage cs b h.files p) (after_put E o cs b h p)
    put-Agree cs b h (err e, s) q held = unfold add_put after_put in (refl, refl)
    put-Agree cs b h (ok c, s) q held =
        let root = E.storage.new_cid b in
        let provided = provide_all E (root ∷ cs) (record h { store = s }) in
        let bundled = (write_file_bundle E root cs b provided).1 in
        let same : bundled.store ≡ s =
          write_file_bundle_keeps E store_of store_kept_local root cs b provided
          ∙ provide_all_keeps E store_of store_kept_local (root ∷ cs) (record h { store = s }) in
        let stored : AreHeld s (root ∷ cs) = (
          (b, laws.put-get b c h.store s q),
          AreHeld-Keeps h.store s cs (put-Keeps E laws b (ok c) h.store s q) held,
        ) in
        let replicated =
          replicate_all_held o (root ∷ cs) bundled
            (subst (λ t. AreHeld t (root ∷ cs)) (sym same) stored) in
        (
          unfold add_put after_put in
              sym (after_replication_ok root (replicate_all E o (root ∷ cs) bundled) replicated),
          unfold add_put in sym (after_put_keeps E store_of store_kept o cs b h c s),
        )

    encoded-Agree :
        (cs : List Bytes) (h : Host E) (node : Result Bytes)
        → AreHeld h.store cs
        → Agree (add_encoded E.storage cs h.files h.store node) (after_encode E o cs h node)
    unfolding add_encoded after_encode
    encoded-Agree cs h (err e) held = (refl, refl)
    encoded-Agree cs h (ok b) held = put-Agree cs b h (E.storage.put b h.store) refl held

    chunks-Agree :
        (path : Bytes) (h : Host E) (r : Result (List Bytes) × Store)
        → E.storage.put_file path h.files h.store ≡ r
        → Agree (add_chunks E.storage E.json h.files r) (after_chunks E o h r)
    chunks-Agree path h (err e, s) q = unfold add_chunks after_chunks in (refl, refl)
    chunks-Agree path h (ok cs, s) q =
        let (content, read) = laws.put_file-reads path h.files cs h.store s q in
        let held =
          Holds→AreHeld s cs content
            (laws.put_file-holds path content h.files cs h.store s read q) in
        unfold add_chunks after_chunks in
        encoded-Agree cs (record h { store = s }) (encode_canonical_json E.json (new_file_node cs))
          held

    -- On one disk and one store, the command `add` and the node's `AddFile` return the same root or the
    -- same error, and leave the same store: replication makes no difference to either. The block store
    -- satisfies its laws.
    pub add_local-add_file :
        (path : Bytes) (h : Host E)
        → ((add_local E.storage E.json path h.files h.store).0 ≡ (add_file E o path h).0)
          × ((add_local E.storage E.json path h.files h.store).2 ≡ (add_file E o path h).1.store)
    unfolding add_local add_file
    add_local-add_file path h = chunks-Agree path h (E.storage.put_file path h.files h.store) refl

  inspect_message-inspect_block :
      (J : Json) (c b : Bytes) → inspect_message J c b ≡ inspect_block J c b
  unfolding inspect_message inspect_block
  inspect_message-inspect_block J c b = ground arith

  -- The command `inspect`, given one CID whose block is in the store that it opens, prints what
  -- `InspectCID` returns on a node with that store, and neither fails or changes the node.
  pub run_inspect-inspect_cid :
      (parse : FlagParser) (args : List Bytes) (fs : Parsed) (o : Orders) (c b : Bytes) (h : Host E)
      (files files' : E.disk.Files)
      → parse (storage_flag ∷ []) (normalize_interspersed_flags args) ≡ ok fs
      → fs.args ≡ c ∷ []
      → E.storage.new_store (fs.value (codes "storage")) files ≡ (ok h.store, files')
      → E.storage.get c h.store ≡ ok b
      → ((run_inspect E.storage E.json parse args files).error ≡ none)
        × (inspect_cid E o c h ≡ (ok (run_inspect E.storage E.json parse args files).out, h))
  unfolding run_inspect inspect_cid
  run_inspect-inspect_cid parse args fs o c b h files files' p one opened got =
      ground (arith, p, one, opened, got, inspect_message-inspect_block E.json c b)
