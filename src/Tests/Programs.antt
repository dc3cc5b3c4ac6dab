-- ===== src/Tests/Programs.antt =====
-- The programs around the node, and what the node keeps on its disk, run in the small world.
use p2p_distributed_system_m.Base.{
  ℕ, ℕ_discrete, dec_text, ◌≡◌, ◌↔◌, ◌≤◌, zero, suc, refl, subst, Bytes, codes, [], ◌∷◌, ◌++◌, true,
  some, Result, ok, err, arith, inl, length,
}
use p2p_distributed_system_m.Base.Hex.{AreBytes, encode_to_string, hex_digit}
use p2p_distributed_system_m.Base.GoMap.{lookup, insert}
use p2p_distributed_system_m.Base.Order.{find_first}
use p2p_distributed_system_m.Coordinator.Host.{new_host}
use p2p_distributed_system_m.Coordinator.Files.{add_file}
use p2p_distributed_system_m.Coordinator.Identity.{
  load_or_create_peer_id, created_id, written_id, id_in,
}
use p2p_distributed_system_m.Coordinator.Identity.Reload.{load_or_create_peer_id_again}
use p2p_distributed_system_m.Coordinator.Catalog.{read_catalog, acquire, local_catalog}
use p2p_distributed_system_m.Coordinator.Catalog.Lock.{tried, after_tries, acquire_iff}
use p2p_distributed_system_m.Coordinator.Catalog.Local.{
  Upload, update_all, lines, read_catalog-update_all,
}
use p2p_distributed_system_m.Peer.Registry.{new_registry, upsert}
use p2p_distributed_system_m.Cli.Add.{add_local}
use p2p_distributed_system_m.Cli.Agreement.{add_local-add_file}
use p2p_distributed_system_m.Tests.Disk.{disk, disk-DiskLaws}
use p2p_distributed_system_m.Tests.World.{
  blocks, blocks-StorageLaws, texts, texts-JsonLaws, env, orders, files, host,
}

-- 32 bytes of a source that is not random.
abbrev pub zeros : ℕ → Bytes
zeros zero = []
zeros (suc n) = 0 ∷ zeros n

abbrev pub zero_digits : ℕ → Bytes
zero_digits zero = []
zero_digits (suc n) = b'0' ∷ zero_digits n

zeros-AreBytes : (n : ℕ) → AreBytes (zeros n)
zeros-AreBytes zero = tt
zeros-AreBytes (suc n) = (omega arith, zeros-AreBytes n)

abbrev Fits : Result Bytes → Type 0
Fits (err e) = Unit
Fits (ok b) = (length b ≡ 32) × AreBytes b

zeros_fit : Fits (ok (zeros 32))
zeros_fit = (refl, zeros-AreBytes 32)

abbrev id_path : Bytes
id_path = codes "data/peer.id"

load_or_create_peer_id_again_example :
    load_or_create_peer_id disk id_path
      (err (codes "no entropy"))
      (insert id_path (zero_digits 64 ++ 10 ∷ []) files)
    ≡ (ok (zero_digits 64), insert id_path (zero_digits 64 ++ 10 ∷ []) files)
unfolding load_or_create_peer_id created_id written_id encode_to_string hex_digit insert lookup
    dec_text ℕ_discrete id_in
load_or_create_peer_id_again_example =
    load_or_create_peer_id_again disk disk-DiskLaws id_path (ok (zeros 32))
      (err (codes "no entropy")) (λ buf e. subst Fits e zeros_fit) (zero_digits 64) files
      (insert id_path (zero_digits 64 ++ 10 ∷ []) files) refl

add_local-add_file_example :
    ((add_local blocks texts (codes "path") files []).0
      ≡ (add_file env orders (codes "path") host).0)
    × ((add_local blocks texts (codes "path") files []).2
        ≡ (add_file env orders (codes "path") host).1.store)
unfolding new_host
add_local-add_file_example = add_local-add_file env blocks-StorageLaws orders (codes "path") host

acquire_iff_example : ((acquire env (codes "a") 2 (some (codes "b"), [])).0 ≡ true) ↔ (
    (k : ℕ) × (k ≤ 2)
    × ((tried env (codes "a") (after_tries env (codes "a") k (some (codes "b"), []))).0 ≡ ok true))
acquire_iff_example = acquire_iff env (codes "a") 2 (some (codes "b"), [])

abbrev upload : Upload
upload = record { name = codes "a.txt"; cid = codes "##x"; size = 1; ext = codes ".txt" }

read_catalog-update_all_example :
    read_catalog env orders
      (local_catalog env (update_all env orders 2 (codes "late") (upload ∷ upload ∷ []) host))
      (update_all env orders 2 (codes "late") (upload ∷ upload ∷ []) host)
    ≡ (
      lines env orders 2 (codes "late") (upload ∷ upload ∷ []) host [],
      update_all env orders 2 (codes "late") (upload ∷ upload ∷ []) host,
    )
unfolding new_host new_registry upsert dec_text lookup find_first
read_catalog-update_all_example =
    read_catalog-update_all env disk-DiskLaws blocks-StorageLaws texts-JsonLaws orders 2
      (codes "late") (upload ∷ upload ∷ []) [] host refl (inl (refl, refl))
