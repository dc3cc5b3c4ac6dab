-- ===== src/Cli.antt =====
-- internal/cli/cli.go: `normalizeInterspersedFlags`, which puts the flags of a command line before its
-- other arguments. The commands are in the children.
pub mod Add
pub mod Commands
pub mod Agreement
use mathlib.Core.List.{Permᴰ}
use mathlib.Core.List.Permᴰ
use p2p_distributed_system_m.Base.{
  refl, Bytes, List, [], ◌∷◌, ◌++◌, Bool, false, ◌||◌, eqb, if◌then◌else◌, Bool-cases, inl, inr,
}

-- `strings.HasPrefix(a, "-")`.
unfoldable pub is_flag : Bytes → Bool
is_flag [] = false
is_flag (c ∷ cs) = eqb c b'-'

-- `strings.Contains(a, "=")`.
unfoldable pub has_value : Bytes → Bool
has_value [] = false
has_value (c ∷ cs) = eqb c b'=' || has_value cs

-- The variables `flags` and `positionals`.
pub record Sorted : Type 0 where
  pub flags : List Bytes
  pub positionals : List Bytes

unfoldable pub sort_args : List Bytes → Sorted
unfolding is_flag has_value
sort_args [] = record { flags = []; positionals = [] }
sort_args (a ∷ []) =
    if is_flag a
    then record { flags = a ∷ []; positionals = [] }
    else record { flags = []; positionals = a ∷ [] }
sort_args (a ∷ b ∷ rest) =
    let next = sort_args (b ∷ rest) in
    let later = sort_args rest in
    if is_flag a
    then (if has_value a || is_flag b
        then record { flags = a ∷ next.flags; positionals = next.positionals }
        else record { flags = a ∷ b ∷ later.flags; positionals = later.positionals })
    else record { flags = next.flags; positionals = a ∷ next.positionals }

unfoldable pub normalize_interspersed_flags : List Bytes → List Bytes
unfolding sort_args
normalize_interspersed_flags args =
    let sorted = sort_args args in sorted.flags ++ sorted.positionals

abbrev joined : Sorted → List Bytes
joined s = s.flags ++ s.positionals

middle : (a : Bytes) (xs ys : List Bytes) → Permᴰ (xs ++ a ∷ ys) (a ∷ xs ++ ys)
middle a [] ys = Permᴰ.refl (a ∷ ys)
middle a (x ∷ xs) ys = Permᴰ.trans (Permᴰ.cons refl (middle a xs ys)) (Permᴰ.swap refl refl)

sort_args-perm : (args : List Bytes) → Permᴰ (joined (sort_args args)) args
unfolding sort_args
sort_args-perm [] = Permᴰ.nil
sort_args-perm (a ∷ []) = elim (Bool-cases (is_flag a)) [
  | inl e ↦ rw e (Permᴰ.refl (a ∷ []))
  | inr e ↦ rw e (Permᴰ.refl (a ∷ []))
]
sort_args-perm (a ∷ b ∷ rest) = elim (Bool-cases (is_flag a)) [
  | inl e ↦ elim (Bool-cases (has_value a || is_flag b)) [
    | inl v ↦ rw (e, v) (Permᴰ.cons refl (sort_args-perm (b ∷ rest)))
    | inr v ↦ rw (e, v) (Permᴰ.cons refl (Permᴰ.cons refl (sort_args-perm rest)))
  ]
  | inr e ↦ rw e (
      Permᴰ.trans (middle a (sort_args (b ∷ rest)).flags (sort_args (b ∷ rest)).positionals)
        (Permᴰ.cons refl (sort_args-perm (b ∷ rest))))
]

-- No argument of a command line is lost or doubled when the flags are put first.
pub normalize_interspersed_flags-perm :
    (args : List Bytes) → Permᴰ (normalize_interspersed_flags args) args
unfolding normalize_interspersed_flags
normalize_interspersed_flags-perm args = sort_args-perm args
