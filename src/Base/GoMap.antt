-- ===== src/Base/GoMap.antt =====
-- Go's `map[string]V` as an association list. The order of the entries is the order in which they
-- came; what the program ranges over is put in an unspecified order by `RangeOrder`.
use Prim.Native.Nat.{◌+◌, ◌≤◌, ◌<◌}
use mathlib.Core.Path.{◌≡◌, refl}
use mathlib.Core.Option.{Option, none, some}
use mathlib.Core.List.{List, [], ◌∷◌}
use native.Mathlib.Omega.{arith}
use p2p_distributed_system_m.Base.Tests.{if◌then◌else◌}
use p2p_distributed_system_m.Base.Lists.{length}
use p2p_distributed_system_m.Base.Text.{Bytes, ◌==◌}

abbrev pub GoMap : Type 0 → Type 0
GoMap V = List (Bytes × V)

module _ {V : Type 0} where
  -- `v, ok := m[key]`
  unfoldable pub lookup : Bytes → GoMap V → Option V
  lookup key [] = none
  lookup key ((j, v) ∷ rest) = if j == key then some v else lookup key rest

  -- `m[key] = v`
  unfoldable pub insert : Bytes → V → GoMap V → GoMap V
  insert key v [] = (key, v) ∷ []
  insert key v ((j, old) ∷ rest) = if j == key then (j, v) ∷ rest else (j, old) ∷ insert key v rest

  -- `delete(m, key)`
  unfoldable pub delete : Bytes → GoMap V → GoMap V
  delete key [] = []
  delete key ((j, v) ∷ rest) =
      let others = delete key rest in if j == key then others else (j, v) ∷ others

  pub lookup-insert :
      (key j : Bytes) (v : V) (rest : GoMap V)
      → lookup j (insert key v rest) ≡ (if key == j then some v else lookup j rest)
  unfolding lookup insert
  lookup-insert key j v [] = refl
  lookup-insert key j v ((i, old) ∷ rest) = ground (arith, lookup-insert key j v rest)

  pub lookup-delete :
      (key j : Bytes) (rest : GoMap V)
      → lookup j (delete key rest) ≡ (if key == j then none else lookup j rest)
  unfolding lookup delete
  lookup-delete key j [] = ground arith
  lookup-delete key j ((i, old) ∷ rest) = ground (arith, lookup-delete key j rest)

  pub length-insert :
      (key : Bytes) (v : V) (rest : GoMap V) → length (insert key v rest) ≤ length rest + 1
  unfolding insert
  length-insert key v [] = omega arith
  length-insert key v ((j, old) ∷ rest) = ground (arith, length-insert key v rest)

  pub length-insert_known :
      (key : Bytes) (v : V) (rest : GoMap V) {old : V}
      → lookup key rest ≡ some old
      → length (insert key v rest) ≡ length rest
  unfolding lookup insert
  length-insert_known key v [] e = cc
  length-insert_known key v ((j, u) ∷ rest) {old} e =
      ground (arith, length-insert_known key v rest {old = old})

  pub length-delete-le : (key : Bytes) (rest : GoMap V) → length (delete key rest) ≤ length rest
  unfolding delete
  length-delete-le key [] = omega arith
  length-delete-le key ((j, v) ∷ rest) = ground (arith, length-delete-le key rest)

  pub length-delete-lt :
      (key : Bytes) (rest : GoMap V) {v : V}
      → lookup key rest ≡ some v
      → length (delete key rest) < length rest
  unfolding lookup delete
  length-delete-lt key [] e = cc
  length-delete-lt key ((j, old) ∷ rest) {v} e =
      ground (arith, length-delete-le key rest, length-delete-lt key rest {v = v})

  -- A key occurs once, as in every Go map.
  abbrev pub Distinct : GoMap V → Type 0
  Distinct [] = Unit
  Distinct ((key, v) ∷ rest) = (lookup key rest ≡ none) × Distinct rest

  pub insert-Distinct :
      (key : Bytes) (v : V) (rest : GoMap V) → Distinct rest → Distinct (insert key v rest)
  unfolding lookup insert
  insert-Distinct key v [] d = (refl, tt)
  insert-Distinct key v ((j, old) ∷ rest) d =
      ground (arith, insert-Distinct key v rest d.1, lookup-insert key j v rest)

  pub delete-Distinct : (key : Bytes) (rest : GoMap V) → Distinct rest → Distinct (delete key rest)
  unfolding lookup delete
  delete-Distinct key [] d = tt
  delete-Distinct key ((j, old) ∷ rest) d =
      ground (arith, delete-Distinct key rest d.1, lookup-delete key j rest)
