-- ===== src/Api/Extension.antt =====
-- What `handleUpload` takes for the type of a file.
use p2p_distributed_system_m.Base.{
  ℕ, ◌≡◌, ◌≢◌, ◌⊎◌, refl, sym, ap, ◌∙◌, subst, Bytes, codes, [], ◌∷◌, ◌++◌, arith, eqb, inl, inr,
  Bool-cases, true, false, true, false, ◌==◌,
}
use mathlib.Core.List.{reverse, reverse-cons, reverse-reverse, append_assoc, append-nil}
use p2p_distributed_system_m.Api.{from_last_dot, extension}

abbrev Dotless : Bytes → Type 0
Dotless [] = Unit
Dotless (c ∷ cs) = (c ≢ b'.') × Dotless cs

-- The type of a name: unknown without a dot, and else the text from the last dot on.
abbrev pub IsTypeOf : Bytes → Bytes → Type 0
IsTypeOf name ext =
    (Dotless name × (ext ≡ codes "unknown"))
    ⊎ ((stem : Bytes) × (rest : Bytes) × (name ≡ stem ++ b'.' ∷ rest)
        × Dotless rest
        × (ext ≡ b'.' ∷ rest))

reverse_step : (c : ℕ) (cs tail : Bytes) → reverse (c ∷ cs) ++ tail ≡ reverse cs ++ c ∷ tail
reverse_step c cs tail =
    ap (λ r. r ++ tail) (reverse-cons c cs) ∙ append_assoc (reverse cs) (c ∷ []) tail

from_last_dot-IsTypeOf :
    (cs tail : Bytes) → Dotless tail → IsTypeOf (reverse cs ++ tail) (from_last_dot cs tail)
unfolding from_last_dot
from_last_dot-IsTypeOf [] tail none_left = inl (none_left, refl)
from_last_dot-IsTypeOf (c ∷ cs) tail none_left = elim (Bool-cases (eqb c b'.')) [
  | inl e ↦
      let dot : c ≡ b'.' = ground arith in
      rw e (
        inr (
          reverse cs,
          tail,
          reverse_step c cs tail ∙ ap (λ d. reverse cs ++ d ∷ tail) dot,
          none_left,
          ap (λ d. d ∷ tail) dot,
        ))
  | inr e ↦ rw e (
      subst (λ n. IsTypeOf n (from_last_dot cs (c ∷ tail))) (sym (reverse_step c cs tail))
        (from_last_dot-IsTypeOf cs (c ∷ tail) ((λ dot. absurd (ground arith)), none_left)))
]

equal_nil : (name : Bytes) → (name == []) ≡ true → name ≡ []
equal_nil name h = ground arith

not_nil : (name : Bytes) → (name == []) ≡ false → name ≢ []
not_nil name h e = absurd (ground arith)

-- The type of an uploaded file whose name is not empty is the end of its name from the last dot on, with
-- the dot, and `unknown` exactly for a name without a dot; a name that is empty has the empty type.
pub extension-IsTypeOf :
    (name : Bytes)
    → ((name ≡ []) × (extension name ≡ [])) ⊎ ((name ≢ []) × IsTypeOf name (extension name))
unfolding extension
extension-IsTypeOf name = elim (Bool-cases (name == [])) [
  | inl empty ↦ rw empty (inl (equal_nil name empty, refl))
  | inr some_name ↦ rw some_name (
      inr (
        not_nil name some_name,
        subst (λ m. IsTypeOf m (from_last_dot (reverse name) []))
            (append-nil (reverse (reverse name)) ∙ reverse-reverse name)
            (from_last_dot-IsTypeOf (reverse name) [] tt),
      ))
]
