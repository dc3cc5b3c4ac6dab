-- ===== src/Coordinator/Inspect.antt =====
-- `InspectCID` of internal/coordinator/node.go: what a block is, in words.
use p2p_distributed_system_m.Base.{
  ℕ, Bytes, codes, [], ◌∷◌, ◌++◌, Result, ok, err, length, if◌then◌else◌, ◌==◌,
}
use p2p_distributed_system_m.Base.Decimal.{decimal}
use p2p_distributed_system_m.Merkle.{Json, detect_type, node_type_file, node_type_directory}
use p2p_distributed_system_m.Coordinator.Host.{Env, Orders, Host}
use p2p_distributed_system_m.Coordinator.Files.{fetch}

abbrev new_line : Bytes
new_line = 10 ∷ []

unfoldable pub raw_text : Bytes → Bytes → Bytes
unfolding decimal
raw_text c b =
    codes "CID: "
    ++ (c
        ++ (new_line
            ++ (codes "Type: raw block"
                ++ (new_line
                    ++ (codes "Size: " ++ (decimal (length b) ++ (codes " bytes" ++ new_line)))))))

unfoldable pub file_text : Bytes → ℕ → Bytes
unfolding decimal
file_text c n =
    codes "CID: "
    ++ (c
        ++ (new_line
            ++ (codes "Type: file" ++ (new_line ++ (codes "Chunks: " ++ (decimal n ++ new_line))))))

unfoldable pub directory_text : Bytes → ℕ → Bytes
unfolding decimal
directory_text c n =
    codes "CID: "
    ++ (c
        ++ (new_line
            ++ (codes "Type: directory"
                ++ (new_line ++ (codes "Entries: " ++ (decimal n ++ new_line))))))

-- The answer for a block.
unfoldable pub inspect_block : Json → Bytes → Bytes → Bytes
unfolding raw_text file_text directory_text
inspect_block J c b = elim (detect_type J b) [
  | err e ↦ raw_text c b
  | ok t ↦
      if t == node_type_file
      then file_text c (length (J.left_in_file b).chunks)
      else if t == node_type_directory
      then directory_text c (length (J.left_in_directory b).entries)
      else raw_text c b
]

module _ (E : Env) where
  inspected : Bytes → Result Bytes × Host E → Result Bytes × Host E
  inspected c (err e, h) = (err e, h)
  inspected c (ok b, h) = (ok (inspect_block E.json c b), h)

  -- A fetched block is not kept.
  unfoldable pub inspect_cid : Orders → Bytes → Host E → Result Bytes × Host E
  unfolding inspected fetch inspect_block
  inspect_cid o c h = elim (E.storage.get c h.store) [
    | ok b ↦ (ok (inspect_block E.json c b), h)
    | err e ↦ inspected c (fetch E o c h)
  ]
