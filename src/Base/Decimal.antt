-- ===== src/Base/Decimal.antt =====
-- `%d` of Go's package `fmt` on a number that is not negative.
use Prim.Native.Nat.{ℕ, zero, suc, ◌+◌, ◌*◌, ◌/◌, ◌%◌, ◌-◌, ◌<◌}
use mathlib.Core.Path.{◌≡◌, refl, ◌∙◌}
use mathlib.Core.List.{[], ◌∷◌, ◌++◌}
use native.Mathlib.Omega.{arith}
use p2p_distributed_system_m.Base.Tests.{if◌then◌else◌, ltb, Bool-cases}
use mathlib.Core.Logic.{inl, inr}
use p2p_distributed_system_m.Base.Text.{Bytes}

-- The digits of `n`; a number has fewer digits than the fuel, which is greater than the number.
unfoldable pub digits : ℕ → ℕ → Bytes
digits zero n = []
digits (suc fuel) n =
    let above = digits fuel (n / 10) in
    if ltb n 10 then (b'0' + n) ∷ [] else above ++ (b'0' + n % 10) ∷ []

unfoldable pub decimal : ℕ → Bytes
unfolding digits
decimal n = digits (suc n) n

-- The number that a text of digits stands for.
abbrev pub number : ℕ → Bytes → ℕ
number acc [] = acc
number acc (c ∷ cs) = number (acc * 10 + (c - b'0')) cs

number-append :
    (acc : ℕ) (xs : Bytes) (c : ℕ) → number acc (xs ++ c ∷ []) ≡ number acc xs * 10 + (c - b'0')
number-append acc [] c = refl
number-append acc (x ∷ xs) c = number-append (acc * 10 + (x - b'0')) xs c

number-digits : (fuel n : ℕ) → n < fuel → number 0 (digits fuel n) ≡ n
unfolding digits
number-digits zero n h = absurd (omega arith)
number-digits (suc fuel) n h = elim (Bool-cases (ltb n 10)) [
  | inl small ↦ rw small (omega arith)
  | inr large ↦
      let tenth : n / 10 < fuel = ground arith in
      rw large (
        number-append 0 (digits fuel (n / 10)) (b'0' + n % 10)
        ∙ rw (number-digits fuel (n / 10) tenth) (omega arith))
]

-- The text of a number is read back as the number, so that the fuel is enough.
pub number-decimal : (n : ℕ) → number 0 (decimal n) ≡ n
unfolding decimal
number-decimal n = number-digits (suc n) n (omega arith)
