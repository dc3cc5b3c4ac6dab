-- ===== src/Merkle.antt =====
-- internal/merkle: the nodes of the DAG that stands for a file. JSON texts are read and written by
-- `encoding/json`, which is an interface here: `any` holds a decoded value without a type, and
-- `left_in_file` and `left_in_directory` are what `Unmarshal` leaves in a variable, also where it fails.
pub mod Directory
pub mod Trimming
use p2p_distributed_system_m.Base.{
  ℕ, Bytes, codes, Bool, true, false, ◌||◌, ◌&&◌, not, List, [], ◌∷◌, ◌++◌, Option, none, some,
  Result, ok, err, ◌≡◌, ◌⊎◌, inl, inr, Result-cases, arith, if◌then◌else◌, ◌==◌, eqb, zero, suc,
  length, map, ◌≤◌, ◌<◌, Option-cases, Bool-cases,
}
use mathlib.Core.List.{reverse}

abbrev pub node_type_file : Bytes
node_type_file = codes "file"

abbrev pub node_type_directory : Bytes
node_type_directory = codes "directory"

pub record FileNode : Type 0 where
  pub node_type : Bytes
  pub chunks : List Bytes

pub record DirEntry : Type 0 where
  pub name : Bytes
  pub cid : Bytes

pub record DirectoryNode : Type 0 where
  pub node_type : Bytes
  pub entries : List DirEntry

unfoldable pub new_file_node : List Bytes → FileNode
new_file_node chunks = record { node_type = node_type_file; chunks = chunks }

pub record Json : Type 1 where
  pub Any : Type 0
  pub marshal_file : FileNode → Result Bytes
  pub unmarshal_any : Bytes → Result Any
  pub marshal_any : Any → Result Bytes
  pub unmarshal_file : Bytes → Result FileNode
  pub unmarshal_directory : Bytes → Result DirectoryNode
  pub unmarshal_type : Bytes → Result Bytes
  pub left_in_file : Bytes → FileNode
  pub left_in_directory : Bytes → DirectoryNode

infixl 5 ◌>>=◌
abbrev ◌>>=◌ : {A B : Type 0} → Result A → (A → Result B) → Result B
err e >>= f = err e
ok a >>= f = f a

-- The UTF-8 codes of the characters that `bytes.TrimSpace` drops: the ASCII blanks, U+0085, U+00A0,
-- U+1680, U+2000 to U+200A, U+2028, U+2029, U+202F, U+205F and U+3000.
abbrev pub spaces : List Bytes
spaces =
    (32 ∷ [])
    ∷ (9 ∷ [])
    ∷ (10 ∷ [])
    ∷ (11 ∷ [])
    ∷ (12 ∷ [])
    ∷ (13 ∷ [])
    ∷ (194 ∷ 133 ∷ [])
    ∷ (194 ∷ 160 ∷ [])
    ∷ (225 ∷ 154 ∷ 128 ∷ [])
    ∷ (226 ∷ 128 ∷ 128 ∷ [])
    ∷ (226 ∷ 128 ∷ 129 ∷ [])
    ∷ (226 ∷ 128 ∷ 130 ∷ [])
    ∷ (226 ∷ 128 ∷ 131 ∷ [])
    ∷ (226 ∷ 128 ∷ 132 ∷ [])
    ∷ (226 ∷ 128 ∷ 133 ∷ [])
    ∷ (226 ∷ 128 ∷ 134 ∷ [])
    ∷ (226 ∷ 128 ∷ 135 ∷ [])
    ∷ (226 ∷ 128 ∷ 136 ∷ [])
    ∷ (226 ∷ 128 ∷ 137 ∷ [])
    ∷ (226 ∷ 128 ∷ 138 ∷ [])
    ∷ (226 ∷ 128 ∷ 168 ∷ [])
    ∷ (226 ∷ 128 ∷ 169 ∷ [])
    ∷ (226 ∷ 128 ∷ 175 ∷ [])
    ∷ (226 ∷ 129 ∷ 159 ∷ [])
    ∷ (227 ∷ 128 ∷ 128 ∷ [])
    ∷ []

-- What follows a code, or the first of several codes that the text starts with.
unfoldable pub skip : Bytes → Bytes → Option Bytes
skip [] text = some text
skip (p ∷ ps) [] = none
skip (p ∷ ps) (c ∷ cs) = let rest = skip ps cs in if eqb p c then rest else none

unfoldable pub skip_one : List Bytes → Bytes → Option Bytes
unfolding skip
skip_one [] text = none
skip_one (p ∷ ps) text =
    let later = skip_one ps text in elim (skip p text) [ some rest ↦ some rest | none ↦ later ]

-- A code is not empty, so the length of the text is enough fuel.
unfoldable pub skip_all : ℕ → List Bytes → Bytes → Bytes
unfolding skip_one
skip_all zero ps text = text
skip_all (suc n) ps text = elim (skip_one ps text) [ some rest ↦ skip_all n ps rest | none ↦ text ]

unfoldable pub trim_space : Bytes → Bytes
unfolding skip_all
trim_space b =
    let left = skip_all (length b) spaces b in
    reverse (skip_all (length left) (map reverse spaces) (reverse left))

abbrev starts_object : Bytes → Bool
starts_object [] = false
starts_object (c ∷ cs) = eqb c b'{'

known_type : Bytes → Result Bytes
known_type t =
    if (t == node_type_file) || (t == node_type_directory)
    then ok t
    else err (codes "unknown dag node type")

module _ (J : Json) where
  open J use {marshal_file, unmarshal_any, marshal_any, unmarshal_type}

  unfoldable pub encode_canonical_json : FileNode → Result Bytes
  encode_canonical_json v = do b ← marshal_file v; tmp ← unmarshal_any b; marshal_any tmp

  unfoldable pub detect_type : Bytes → Result Bytes
  unfolding known_type trim_space
  detect_type block =
      let trimmed = trim_space block in
      if not (starts_object trimmed)
      then err (codes "not a JSON dag node")
      else do t ← unmarshal_type trimmed; known_type t

  -- The canonical text of a file node is read back as the node: what JSON promises of texts and lists
  -- of texts.
  pub record JsonLaws : Type 0 where
    pub canonical :
        (v : FileNode) (b : Bytes) → encode_canonical_json v ≡ ok b → J.unmarshal_file b ≡ ok v

  -- What is detected is one of the two known types.
  pub detect_type_known :
      (block t : Bytes)
      → detect_type block ≡ ok t
      → (t ≡ node_type_file) ⊎ (t ≡ node_type_directory)
  unfolding detect_type
  detect_type_known block t h = go (Result-cases (J.unmarshal_type (trim_space block)))
    where
      go :
          ((u : Bytes) × (J.unmarshal_type (trim_space block) ≡ ok u))
            ⊎ ((e : Bytes) × (J.unmarshal_type (trim_space block) ≡ err e))
          → (t ≡ node_type_file) ⊎ (t ≡ node_type_directory)
      go (inl (u, e)) = ground arith
      go (inr (u, e)) = absurd (ground arith)
