-- ===== src/Cli/Add.antt =====
-- What the command `add` of internal/cli/cli.go does to a store that it has opened: `writeFileBundle`, and
-- `runAdd` from the chunking on.
use p2p_distributed_system_m.Base.{
  Bytes, codes, List, [], ◌∷◌, ◌++◌, Option, none, some, Result, ok, err,
}
use p2p_distributed_system_m.Os.{Disk, join}
use p2p_distributed_system_m.Storage.{Storage}
use p2p_distributed_system_m.Merkle.{Json, new_file_node, encode_canonical_json}

module _ {D : Disk} (S : Storage D) where
  open S use {Store}

  -- The loop of `writeFileBundle`.
  unfoldable pub write_blocks : Bytes → List Bytes → Store → D.Files → Option Bytes × D.Files
  write_blocks dir [] s files = (none, files)
  write_blocks dir (ch ∷ chs) s files = elim (S.get ch s) [
    | err e ↦ (some e, files)
    | ok b ↦
        let (e, files') = D.write_file (join dir (ch ++ codes ".block")) b files in
        let rest = write_blocks dir chs s files' in
        elim e [ some x ↦ (some x, files') | none ↦ rest ]
  ]

  unfoldable pub write_bundle :
      Bytes → List Bytes → Bytes → Store → D.Files → Option Bytes × D.Files
  unfolding write_blocks
  write_bundle root chunks node_bytes s files =
      let dir = join (join (S.root_dir s) (codes "files")) root in
      let (e, made) = D.mkdir_all dir files in
      let (x, files') = D.write_file (join dir (root ++ codes ".block")) node_bytes made in
      let rest = write_blocks dir chunks s files' in
      elim e [ some y ↦ (some y, made) | none ↦ elim x [ some y ↦ (some y, files') | none ↦ rest ] ]

  -- The part of `runAdd` from the chunking on.
  unfoldable pub add_put :
      List Bytes → Bytes → D.Files → Result Bytes × Store → Result Bytes × D.Files × Store
  add_put chunks node_bytes files (err e, s) = (err e, files, s)
  add_put chunks node_bytes files (ok c, s) =
      let root = S.new_cid node_bytes in
      (ok root, (write_bundle root chunks node_bytes s files).1, s)

  unfoldable pub add_encoded :
      List Bytes → D.Files → Store → Result Bytes → Result Bytes × D.Files × Store
  unfolding add_put
  add_encoded chunks files s (err e) = (err e, files, s)
  add_encoded chunks files s (ok node_bytes) = add_put chunks node_bytes files (S.put node_bytes s)

  module _ (J : Json) where
    unfoldable pub add_chunks :
        D.Files → Result (List Bytes) × Store → Result Bytes × D.Files × Store
    unfolding add_encoded
    add_chunks files (err e, s) = (err e, files, s)
    add_chunks files (ok chunks, s) =
        add_encoded chunks files s (encode_canonical_json J (new_file_node chunks))

    unfoldable pub add_local : Bytes → D.Files → Store → Result Bytes × D.Files × Store
    unfolding add_chunks
    add_local path files s = add_chunks files (S.put_file path files s)
