-- ===== src/Base/Bits.antt =====
-- Laws of `^` on bytes, from its meaning on binary digits.
use Prim.Native.Nat.{
  ℕ, zero, suc, ◌+◌, ◌*◌, ◌/◌, ◌%◌, ◌^◌, ◌≤◌, ◌<◌, differ, digits, bitwise, bit_xor,
  bit_xor-bitwise,
}
use mathlib.Core.Path.{◌≡◌, refl, sym, ap, ◌∙◌}
use native.Mathlib.Nat.{le_refl}
use native.Mathlib.Omega.{arith}

digits_fuel_irrel :
    (n m a b : ℕ) → a ≤ n → a ≤ m → digits (λ y. y) differ n a b ≡ digits (λ y. y) differ m a b
digits_fuel_irrel zero zero a b p q = refl
digits_fuel_irrel zero (suc m) zero b p q = refl
digits_fuel_irrel zero (suc m) (suc a) b p q = absurd (omega arith)
digits_fuel_irrel (suc n) zero zero b p q = refl
digits_fuel_irrel (suc n) zero (suc a) b p q = absurd (omega arith)
digits_fuel_irrel (suc n) (suc m) zero b p q = refl
digits_fuel_irrel (suc n) (suc m) (suc a) b p q =
    rw (digits_fuel_irrel n m (suc a / 2) (b / 2) (omega arith) (omega arith))

differ_bits : (x y : ℕ) → x < 2 → y < 2 → differ x y ≡ (x + y) % 2
differ_bits zero y p q = omega arith
differ_bits (suc zero) zero p q = omega arith
differ_bits (suc zero) (suc zero) p q = omega arith
differ_bits (suc zero) (suc (suc y)) p q = absurd (omega arith)
differ_bits (suc (suc x)) y p q = absurd (omega arith)

bitwise-suc :
    (a b : ℕ)
    → bitwise (λ y. y) differ (suc a) b
      ≡ bitwise (λ y. y) differ (suc a / 2) (b / 2) * 2 + differ (suc a % 2) (b % 2)
bitwise-suc a b =
    omega (arith, digits_fuel_irrel a (suc a / 2) (suc a / 2) (b / 2) (omega arith) (le_refl _))

-- The lowest digit of the result.
pub bit_xor_step : (a b : ℕ) → bit_xor a b ≡ bit_xor (a / 2) (b / 2) * 2 + (a % 2 + b % 2) % 2
bit_xor_step zero b = simp bit_xor-bitwise (omega arith)
bit_xor_step (suc a) b =
    simp bit_xor-bitwise
      (omega (arith, bitwise-suc a b, differ_bits (suc a % 2) (b % 2) (omega arith) (omega arith)))

xor_comm_to : (n a b : ℕ) → a ≤ n → b ≤ n → bit_xor a b ≡ bit_xor b a
xor_comm_to zero zero zero p q = refl
xor_comm_to zero (suc a) b p q = absurd (omega arith)
xor_comm_to zero a (suc b) p q = absurd (omega arith)
xor_comm_to (suc n) a b p q = omega (
  arith,
  bit_xor_step a b,
  bit_xor_step b a,
  xor_comm_to n (a / 2) (b / 2) (omega arith) (omega arith),
)

pub xor_comm : (a b : ℕ) → bit_xor a b ≡ bit_xor b a
xor_comm a b = xor_comm_to (a + b) a b (omega arith) (omega arith)

xor_self_to : (n a : ℕ) → a ≤ n → bit_xor a a ≡ 0
xor_self_to zero zero p = refl
xor_self_to zero (suc a) p = absurd (omega arith)
xor_self_to (suc n) a p = omega (arith, bit_xor_step a a, xor_self_to n (a / 2) (omega arith))

pub xor_self : (a : ℕ) → bit_xor a a ≡ 0
xor_self a = xor_self_to a a (omega arith)

xor_div : (a b : ℕ) → bit_xor a b / 2 ≡ bit_xor (a / 2) (b / 2)
xor_div a b = omega (arith, bit_xor_step a b)

xor_mod : (a b : ℕ) → bit_xor a b % 2 ≡ (a % 2 + b % 2) % 2
xor_mod a b = omega (arith, bit_xor_step a b)

zero-xor : (b : ℕ) → bit_xor 0 b ≡ b
zero-xor b = bit_xor-bitwise 0 b

xor_assoc_to :
    (n a b c : ℕ) → a ≤ n → b ≤ n → c ≤ n → bit_xor (bit_xor a b) c ≡ bit_xor a (bit_xor b c)
xor_assoc_to zero zero b c p q r = ap (λ x. bit_xor x c) (zero-xor b) ∙ sym (zero-xor (bit_xor b c))
xor_assoc_to zero (suc a) b c p q r = absurd (omega arith)
xor_assoc_to (suc n) a b c p q r = omega (
  arith,
  bit_xor_step (bit_xor a b) c,
  bit_xor_step a (bit_xor b c),
  xor_mod a b,
  xor_mod b c,
  ap (λ x. bit_xor x (c / 2)) (xor_div a b),
  ap (λ x. bit_xor (a / 2) x) (xor_div b c),
  xor_assoc_to n (a / 2) (b / 2) (c / 2) (omega arith) (omega arith) (omega arith),
)

pub xor_assoc : (a b c : ℕ) → bit_xor (bit_xor a b) c ≡ bit_xor a (bit_xor b c)
xor_assoc a b c = xor_assoc_to (a + b + c) a b c (omega arith) (omega arith) (omega arith)

-- Applied twice, the first operand cancels.
pub xor_cancel : (a b : ℕ) → bit_xor a (bit_xor a b) ≡ b
xor_cancel a b = sym (xor_assoc a a b) ∙ ap (λ x. bit_xor x b) (xor_self a) ∙ zero-xor b

xor-le-add_to : (n a b : ℕ) → a ≤ n → b ≤ n → bit_xor a b ≤ a + b
xor-le-add_to zero zero b p q = omega (arith, zero-xor b)
xor-le-add_to zero (suc a) b p q = absurd (omega arith)
xor-le-add_to (suc n) a b p q =
    omega (arith, bit_xor_step a b, xor-le-add_to n (a / 2) (b / 2) (omega arith) (omega arith))

pub xor-le-add : (a b : ℕ) → bit_xor a b ≤ a + b
xor-le-add a b = xor-le-add_to (a + b) a b (omega arith) (omega arith)

xor-lt-pow : (k a b : ℕ) → a < 2 ^ k → b < 2 ^ k → bit_xor a b < 2 ^ k
xor-lt-pow zero zero zero p q = omega arith
xor-lt-pow zero (suc a) b p q = absurd (omega arith)
xor-lt-pow zero a (suc b) p q = absurd (omega arith)
xor-lt-pow (suc k) a b p q =
    omega (arith, bit_xor_step a b, xor-lt-pow k (a / 2) (b / 2) (omega arith) (omega arith))

pub xor-lt-byte : (a b : ℕ) → a < 256 → b < 256 → bit_xor a b < 256
xor-lt-byte a b p q = xor-lt-pow 8 a b p q

-- The triangle inequality, digit by digit.
pub xor_triangle : (a b c : ℕ) → bit_xor a c ≤ bit_xor a b + bit_xor b c
xor_triangle a b c = omega (arith, through, xor-le-add (bit_xor a b) (bit_xor b c))
  where
    through : bit_xor a c ≡ bit_xor (bit_xor a b) (bit_xor b c)
    through = sym (xor_assoc a b (bit_xor b c) ∙ ap (bit_xor a) (xor_cancel b c))
