-- ===== src/Coordinator/Files.antt =====
-- `AddFile` and `GetFile` of internal/coordinator/node.go. Logging is left out.
pub mod Keeps
pub mod Roundtrip
pub mod Reading
use p2p_distributed_system_m.Base.{
  ℕ, Bytes, codes, List, [], ◌∷◌, ◌++◌, Bool, not, Option, none, some, Result, ok, err,
  if◌then◌else◌, length, ◌==◌,
}
use p2p_distributed_system_m.Os.{Writer, join}
use p2p_distributed_system_m.Merkle.{
  FileNode, new_file_node, encode_canonical_json, detect_type, node_type_file,
}
use p2p_distributed_system_m.Peer.Record.{Record}
use p2p_distributed_system_m.Peer.Registry.{Registry, snapshot}
use p2p_distributed_system_m.Peer.Registry
use p2p_distributed_system_m.Dht.Providers
use p2p_distributed_system_m.Dht.Lookup.{lookup_providers}
use p2p_distributed_system_m.Replication.{select_replica_peer_ids, replicate_to_addrs, fetch_block}
use p2p_distributed_system_m.Coordinator.Host.{Env, Orders, Host, self_endpoint}

unfoldable pub addr_of : Option Record → List Bytes → List Bytes
addr_of none addrs = addrs
addr_of (some rec) addrs = if rec.grpc_addr == [] then addrs else rec.grpc_addr ∷ addrs

unfoldable pub addrs_of : Registry → List Bytes → List Bytes
unfolding addr_of
addrs_of r [] = []
addrs_of r (id ∷ ids) = addr_of (Registry.get id r) (addrs_of r ids)

module _ (E : Env) where
  unfoldable pub provide_all : List Bytes → Host E → Host E
  provide_all [] h = h
  provide_all (c ∷ cs) h =
      provide_all cs
        (record h { providers = Providers.add c (some (self_endpoint E h)) h.providers })

  unfoldable pub write_block : Bytes → Bytes → Bytes → Host E → Option Bytes × Host E
  write_block dir cid block h =
      let (e, files) = E.disk.write_file (join dir (cid ++ codes ".block")) block h.files in
      (e, record h { files = files })

  unfoldable pub write_chunks : Bytes → List Bytes → Host E → Option Bytes × Host E
  write_chunks dir [] h = (none, h)
  write_chunks dir (c ∷ cs) h = elim (E.storage.get c h.store) [
    | err e ↦ (some e, h)
    | ok b ↦
        let (e, h') = write_block dir c b h in
        let rest = write_chunks dir cs h' in elim e [ some x ↦ (some x, h') | none ↦ rest ]
  ]

  abbrev bundle_dir : Bytes → Host E → Bytes
  bundle_dir root h = join (join (E.storage.root_dir h.store) (codes "files")) root

  -- The copy of the blocks in a directory of the file.
  unfoldable pub write_file_bundle : Bytes → List Bytes → Bytes → Host E → Option Bytes × Host E
  write_file_bundle root chunks node_bytes h =
      let dir = bundle_dir root h in
      let (e, files) = E.disk.mkdir_all dir h.files in
      let made = record h { files = files } in
      let (x, h') = write_block dir root node_bytes made in
      let rest = write_chunks dir chunks h' in
      elim e [ some y ↦ (some y, made) | none ↦ elim x [ some y ↦ (some y, h') | none ↦ rest ] ]

  unfoldable pub replicate_to : List Bytes → Bytes → Bytes → Host E → Host E
  replicate_to [] cid block h = h
  replicate_to (a ∷ addrs) cid block h = record h {
    net = (replicate_to_addrs E.grpc (a ∷ addrs) cid block h.net).1;
  }

  unfoldable pub replicate_to_ids : Option (List Bytes) → Bytes → Bytes → Host E → Host E
  unfolding addrs_of replicate_to
  replicate_to_ids none cid block h = h
  replicate_to_ids (some ids) cid block h = replicate_to (addrs_of h.reg ids) cid block h

  -- One block to the peers that are closest to it. A CID that is no key is passed over.
  unfoldable pub replicate_block : Orders → Bytes → Bytes → Host E → Host E
  unfolding replicate_to_ids
  replicate_block o cid block h =
      replicate_to_ids (select_replica_peer_ids o.entries h.reg cid h.repl_factor h.self_id) cid
        block h

  unfoldable pub replicate_all : Orders → List Bytes → Host E → Option Bytes × Host E
  replicate_all o [] h = (none, h)
  replicate_all o (c ∷ cs) h = elim (E.storage.get c h.store) [
    | err e ↦ (some e, h)
    | ok block ↦ replicate_all o cs (replicate_block o c block h)
  ]

  unfoldable pub after_replication : Bytes → Option Bytes × Host E → Result Bytes × Host E
  after_replication root (none, h) = (ok root, h)
  after_replication root (some e, h) = (err e, h)

  unfoldable pub after_put :
      Orders → List Bytes → Bytes → Host E → Result Bytes × E.storage.Store → Result Bytes × Host E
  unfolding after_replication
  after_put o chunks node_bytes h (err e, s) = (err e, record h { store = s })
  after_put o chunks node_bytes h (ok c, s) =
      let root = E.storage.new_cid node_bytes in
      let provided = provide_all (root ∷ chunks) (record h { store = s }) in
      let (ignored, h') = write_file_bundle root chunks node_bytes provided in
      after_replication root (replicate_all o (root ∷ chunks) h')

  unfoldable pub after_encode : Orders → List Bytes → Host E → Result Bytes → Result Bytes × Host E
  unfolding after_put
  after_encode o chunks h (err e) = (err e, h)
  after_encode o chunks h (ok node_bytes) =
      after_put o chunks node_bytes h (E.storage.put node_bytes h.store)

  unfoldable pub after_chunks :
      Orders → Host E → Result (List Bytes) × E.storage.Store → Result Bytes × Host E
  unfolding after_encode
  after_chunks o h (err e, s) = (err e, record h { store = s })
  after_chunks o h (ok chunks, s) =
      after_encode o chunks (record h { store = s })
        (encode_canonical_json E.json (new_file_node chunks))

  unfoldable pub add_file : Orders → Bytes → Host E → Result Bytes × Host E
  unfolding after_chunks
  add_file o path h = after_chunks o h (E.storage.put_file path h.files h.store)

  -- The providers of a block are asked for it.
  unfoldable pub fetch : Orders → Bytes → Host E → Result Bytes × Host E
  fetch o cid h =
      let (provs, n) =
        lookup_providers E.grpc o.endpoints o.schedule h.providers h.grpc_addr
          (snapshot o.entries h.reg) cid h.net in
      let (got, n') = fetch_block E.grpc E.storage cid provs n in (got, record h { net = n' })

  -- A fetched block is verified once more, and kept; that it cannot be kept is no error.
  unfoldable pub keep_fetched :
      (Bytes → Bytes) → Bytes → Result Bytes × Host E → Result Bytes × Host E
  keep_fetched wrap cid (err e, h) = (err (wrap e), h)
  keep_fetched wrap cid (ok block, h) = elim (E.storage.verify_cid cid block) [
    | some e ↦ (err e, h)
    | none ↦ (ok block, record h { store = (E.storage.put block h.store).1 })
  ]

  -- A block from the store, or else from its providers.
  unfoldable pub obtain : Orders → (Bytes → Bytes → Bytes) → Bytes → Host E → Result Bytes × Host E
  unfolding fetch keep_fetched
  obtain o wrap cid h = elim (E.storage.get cid h.store) [
    | ok block ↦ (ok block, h)
    | err e ↦ keep_fetched (wrap e) cid (fetch o cid h)
  ]

  abbrev pub root_error : Bytes → Bytes → Bytes
  root_error e e2 = codes "root block: " ++ (e ++ (codes ": " ++ e2))

  abbrev pub chunk_error : Bytes → Bytes → Bytes → Bytes
  chunk_error ch _ e = codes "chunk " ++ (ch ++ (codes ": " ++ e))

  module _ (W : Writer) where
    unfoldable pub get_chunks : Orders → List Bytes → Host E → W.Out → Option Bytes × Host E × W.Out
    get_chunks o [] h out = (none, h, out)
    get_chunks o (ch ∷ chs) h out =
        let (got, h') = obtain o (chunk_error ch) ch h in
        elim got [
          | err e ↦ (some e, h', out)
          | ok block ↦
              let (e, out') = W.write block out in
              let rest = get_chunks o chs h' out' in
              elim e [ some x ↦ (some x, h', out') | none ↦ rest ]
        ]

    unfoldable pub after_node :
        Orders → Host E → W.Out → Result FileNode → Option Bytes × Host E × W.Out
    after_node o h out (err e) = (some (codes "invalid file node: " ++ e), h, out)
    after_node o h out (ok node) = get_chunks o node.chunks h out

    unfoldable pub after_root :
        Orders → W.Out → Result Bytes × Host E → Option Bytes × Host E × W.Out
    unfolding after_node
    after_root o out (err e, h) = (some e, h, out)
    after_root o out (ok block, h) = after_node o h out (E.json.unmarshal_file block)

    -- The error or none, the node, and what was written.
    unfoldable pub get_file : Orders → Bytes → Host E → W.Out → Option Bytes × Host E × W.Out
    unfolding after_root
    get_file o root h out = after_root o out (obtain o root_error root h)
