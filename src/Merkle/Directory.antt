-- ===== src/Merkle/Directory.antt =====
-- internal/merkle/directory_node.go. Go compares strings byte by byte; where two entries have one name,
-- `sort.Slice` leaves their order open, and here it is that of the input.
use mathlib.Core.List.{Permᴰ}
use p2p_distributed_system_m.Base.{
  ◌≡◌, refl, Bytes, Bool, true, false, List, [], ◌∷◌, ltb, arith, ◌||◌, eqb, ◌&&◌,
}
use p2p_distributed_system_m.Base.Sort.{insert_by, sort_stable, sort_stable-perm}
use p2p_distributed_system_m.Merkle.{DirEntry, DirectoryNode, node_type_directory}

-- `s < t` on strings.
unfoldable pub text_lt : Bytes → Bytes → Bool
text_lt s [] = false
text_lt [] (d ∷ t) = true
text_lt (c ∷ s) (d ∷ t) = ltb c d || (eqb c d && text_lt s t)

unfoldable pub by_name : DirEntry → DirEntry → Bool
unfolding text_lt
by_name a b = text_lt a.name b.name

unfoldable pub new_directory_node : List DirEntry → DirectoryNode
unfolding sort_stable by_name
new_directory_node entries = record {
  node_type = node_type_directory;
  entries = sort_stable by_name entries;
}

-- No entry stands before one with a smaller name.
abbrev pub AreSorted : List DirEntry → Type 0
AreSorted [] = Unit
AreSorted (a ∷ []) = Unit
AreSorted (a ∷ b ∷ rest) = (text_lt b.name a.name ≡ false) × AreSorted (b ∷ rest)

text_lt-asym : (s t : Bytes) → text_lt s t ≡ true → text_lt t s ≡ false
unfolding text_lt
text_lt-asym [] [] h = refl
text_lt-asym (c ∷ s) [] h = cc
text_lt-asym [] (d ∷ t) h = refl
text_lt-asym (c ∷ s) (d ∷ t) h = ground (arith, text_lt-asym s t)

insert_by-AreSorted :
    (a : DirEntry) (l : List DirEntry) → AreSorted l → AreSorted (insert_by by_name a l)
unfolding insert_by by_name
insert_by-AreSorted a [] s = tt
insert_by-AreSorted a (b ∷ []) s = ground (arith, text_lt-asym b.name a.name)
insert_by-AreSorted a (b ∷ c ∷ rest) s =
    ground (arith, insert_by-AreSorted a (c ∷ rest) s.1, text_lt-asym b.name a.name)

sort_stable-AreSorted : (l : List DirEntry) → AreSorted (sort_stable by_name l)
unfolding sort_stable
sort_stable-AreSorted [] = tt
sort_stable-AreSorted (a ∷ l) =
    insert_by-AreSorted a (sort_stable by_name l) (sort_stable-AreSorted l)

-- A directory node has the entries that it is given, and has them in the order of their names.
pub new_directory_node-AreSorted :
    (entries : List DirEntry)
    → Permᴰ (new_directory_node entries).entries entries
      × AreSorted (new_directory_node entries).entries
unfolding new_directory_node
new_directory_node-AreSorted entries =
    (sort_stable-perm by_name entries, sort_stable-AreSorted entries)
