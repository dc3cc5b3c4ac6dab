-- ===== src/Base/Text.antt =====
-- Go strings: sequences of bytes, as lists of numbers. A test on two of them runs a decision, so that
-- `ground` and `grind` learn an equation from each test that they split on.
use Prim.Native.Nat.{ℕ}
use Prim.Native.Char.{code}
use Prim.Native.String.{String}
use mathlib.Core.Bool.{Bool, true, false}
use mathlib.Core.List.{List, [], ◌∷◌}
use native.Mathlib.Decide.{ℕ_discrete}

abbrev pub Bytes : Type 0
Bytes = List ℕ

-- The bytes of an ASCII literal.
abbrev pub codes : String → Bytes
codes String.[] = []
codes (String.◌∷◌ c s) = code c ∷ codes s

unfoldable pub dec_text : Discrete Bytes
unfolding ℕ_discrete
dec_text = hlevel ℕ_discrete

infix 50 ◌==◌
abbrev pub ◌==◌ : Bytes → Bytes → Bool
a == b = elim (dec_text a b) [ yes _ ↦ true | no _ ↦ false ]
