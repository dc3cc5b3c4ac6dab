-- ===== src/Merkle/Trimming.antt =====
-- The fuel of `skip_all` is enough: where it is the length of the text, nothing is left to skip.
use p2p_distributed_system_m.Base.{
  ℕ, zero, suc, ◌≤◌, ◌<◌, Bytes, List, [], ◌∷◌, none, some, ◌≡◌, ap, ◌∙◌, arith, Bool-cases,
  Option-cases, inl, inr, length, eqb, ◌+◌,
}
use p2p_distributed_system_m.Merkle.{skip, skip_one, skip_all}

length-skip : (p text rest : Bytes) → skip p text ≡ some rest → length text ≡ length p + length rest
unfolding skip
length-skip [] text rest h = ground arith
length-skip (p ∷ ps) [] rest h = absurd (ground arith)
length-skip (p ∷ ps) (c ∷ cs) rest h = elim (Bool-cases (eqb p c)) [
  | inl e ↦ let shorter = length-skip ps cs rest (rw e at h) in omega arith
  | inr e ↦ absurd (ground arith)
]

-- None of the codes is empty.
abbrev pub AreCodes : List Bytes → Type 0
AreCodes [] = Unit
AreCodes (p ∷ ps) = (1 ≤ length p) × AreCodes ps

skipped : {x rest : Bytes} → some x ≡ some rest → x ≡ rest
skipped h = ground arith

length-skip_one-lt :
    (ps : List Bytes) (text rest : Bytes)
    → AreCodes ps
    → skip_one ps text ≡ some rest
    → length rest < length text
unfolding skip_one
length-skip_one-lt [] text rest codes h = absurd (ground arith)
length-skip_one-lt (p ∷ ps) text rest (long, codes) h = elim (Option-cases (skip p text)) [
  | inl e ↦ length-skip_one-lt ps text rest codes (rw (e, skip_one) at h)
  | inr (x, e) ↦
      let same : x ≡ rest = skipped (rw (e, skip_one) at h) in
      let longer = length-skip p text rest (e ∙ ap some same) in omega arith
]

-- With the length of the text as its fuel, `skip_all` stops only where no code is left at the start.
pub skip_all_done :
    (n : ℕ) (ps : List Bytes) (text : Bytes)
    → AreCodes ps
    → length text ≤ n
    → skip_one ps (skip_all n ps text) ≡ none
unfolding skip_all
skip_all_done zero ps text codes h = elim (Option-cases (skip_one ps text)) [
  | inl e ↦ e
  | inr (rest, e) ↦ let shorter = length-skip_one-lt ps text rest codes e in absurd (omega arith)
]
skip_all_done (suc n) ps text codes h = elim (Option-cases (skip_one ps text)) [
  | inl e ↦ rw (e, skip_all) e
  | inr (rest, e) ↦
      let shorter = length-skip_one-lt ps text rest codes e in
      rw (e, skip_all) (skip_all_done n ps rest codes (omega arith))
]
