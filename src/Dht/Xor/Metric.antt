-- ===== src/Dht/Xor/Metric.antt =====
-- The XOR distance as a metric.
use Prim.Native.Nat.{bit_xor, ◌^◌}
use native.Mathlib.Decide.{dec_lt}
use p2p_distributed_system_m.Base.{
  ℕ, ◌+◌, ◌*◌, ◌≤◌, ◌<◌, suc, ◌≡◌, refl, sym, ◌∙◌, ap, Bytes, [], ◌∷◌, some, arith, length,
}
use p2p_distributed_system_m.Base.Bits.{xor_comm, xor_self, xor_cancel, xor_triangle, xor-lt-byte}
use p2p_distributed_system_m.Base.Hex.{AreBytes}
use p2p_distributed_system_m.Dht.Xor.{xor_bytes, xor, set_bytes, distance}

-- The number that a key writes in base 256.
unfoldable pub value : Bytes → ℕ
value [] = 0
value (b ∷ bs) = b * 256 ^ length bs + value bs

pow_step : (n : ℕ) → 256 ^ suc n ≡ 256 * 256 ^ n
pow_step n = omega arith

set_bytes-eq : (n : ℕ) (bs : Bytes) → set_bytes n bs ≡ n * 256 ^ length bs + value bs
unfolding set_bytes value
set_bytes-eq n [] = omega arith
set_bytes-eq n (b ∷ bs) =
    omega (arith, set_bytes-eq (n * 256 + b) bs, ap (λ t. n * t) (pow_step (length bs)))

pub distance-eq : (a b : Bytes) → length a ≡ length b → distance a b ≡ some (value (xor_bytes a b))
unfolding distance xor
distance-eq a b h = ground (arith, set_bytes-eq 0 (xor_bytes a b))

pub length-xor_bytes : (a b : Bytes) → length a ≡ length b → length (xor_bytes a b) ≡ length a
unfolding xor_bytes
length-xor_bytes [] [] h = refl
length-xor_bytes [] (y ∷ b) h = absurd (omega arith)
length-xor_bytes (x ∷ a) [] h = absurd (omega arith)
length-xor_bytes (x ∷ a) (y ∷ b) h = omega (arith, length-xor_bytes a b (omega arith))

xor_bytes_comm : (a b : Bytes) → xor_bytes a b ≡ xor_bytes b a
unfolding xor_bytes
xor_bytes_comm [] [] = refl
xor_bytes_comm [] (y ∷ b) = refl
xor_bytes_comm (x ∷ a) [] = refl
xor_bytes_comm (x ∷ a) (y ∷ b) = cc (xor_comm x y, xor_bytes_comm a b)

pub xor_bytes-AreBytes : (a b : Bytes) → AreBytes a → AreBytes b → AreBytes (xor_bytes a b)
unfolding xor_bytes
xor_bytes-AreBytes [] b p q = tt
xor_bytes-AreBytes (x ∷ a) [] p q = tt
xor_bytes-AreBytes (x ∷ a) (y ∷ b) p q = (xor-lt-byte x y p.0 q.0, xor_bytes-AreBytes a b p.1 q.1)

value-xor_self : (a : Bytes) → value (xor_bytes a a) ≡ 0
unfolding xor_bytes value
value-xor_self [] = refl
value-xor_self (x ∷ a) = rw (xor_self x) (omega (arith, value-xor_self a))

pub value-lt : (bs : Bytes) → AreBytes bs → value bs < 256 ^ length bs
unfolding value
value-lt [] h = omega arith
value-lt (b ∷ bs) h = grind (arith, value-lt bs h.1, pow_step (length bs))

-- A leading digit and a rest below the base are determined by their number.
digit_le : (n a b u v : ℕ) → u < n → v < n → a * n + u ≡ b * n + v → a ≤ b
digit_le n a b u v p q e = elim (dec_lt b a) [
  | yes h ↦ absurd (grind (arith, more_digits b a n h))
  | no h ↦ omega arith
]
  where
    more_digits : (b a n : ℕ) → b < a → b * n + n ≤ a * n
    more_digits b a n h = grind arith

value-injective :
    (xs ys : Bytes)
    → length xs ≡ length ys
    → AreBytes xs
    → AreBytes ys
    → value xs ≡ value ys
    → xs ≡ ys
unfolding value
value-injective [] [] l p q e = refl
value-injective [] (b ∷ ys) l p q e = absurd (omega arith)
value-injective (a ∷ xs) [] l p q e = absurd (omega arith)
value-injective (a ∷ xs) (b ∷ ys) l p q e = cc (leading, value-injective xs ys tails p.1 q.1 rest)
  where
    tails : length xs ≡ length ys
    tails = omega arith

    powers : 256 ^ length xs ≡ 256 ^ length ys
    powers = ap (λ n. 256 ^ n) tails

    sums : a * 256 ^ length xs + value xs ≡ b * 256 ^ length xs + value ys
    sums = e ∙ ap (λ n. b * n + value ys) (sym powers)

    below : value ys < 256 ^ length xs
    below = omega (arith, value-lt ys q.1, powers)

    leading : a ≡ b
    leading = omega (
      arith,
      digit_le (256 ^ length xs) a b (value xs) (value ys) (value-lt xs p.1) below sums,
      digit_le (256 ^ length xs) b a (value ys) (value xs) below (value-lt xs p.1) (sym sums),
    )

    rest : value xs ≡ value ys
    rest = omega (arith, sums, ap (λ n. n * 256 ^ length xs) leading)

xor_bytes-injective :
    (t a b : Bytes)
    → length t ≡ length a
    → length t ≡ length b
    → xor_bytes t a ≡ xor_bytes t b
    → a ≡ b
unfolding xor_bytes
xor_bytes-injective [] [] [] p q e = refl
xor_bytes-injective [] (x ∷ a) b p q e = absurd (omega arith)
xor_bytes-injective [] [] (y ∷ b) p q e = absurd (omega arith)
xor_bytes-injective (z ∷ t) [] b p q e = absurd (omega arith)
xor_bytes-injective (z ∷ t) (x ∷ a) [] p q e = absurd (omega arith)
xor_bytes-injective (z ∷ t) (x ∷ a) (y ∷ b) p q e = cc (
  xor_cancel z x,
  xor_cancel z y,
  xor_bytes-injective t a b (omega arith) (omega arith) (ground arith),
)

mul_mono : (n r k : ℕ) → r ≤ k → r * n ≤ k * n
mul_mono n r k h = grind arith

value-triangle :
    (a b c : Bytes)
    → length a ≡ length b
    → length b ≡ length c
    → value (xor_bytes a c) ≤ value (xor_bytes a b) + value (xor_bytes b c)
unfolding xor_bytes value
value-triangle [] [] [] p q = omega arith
value-triangle [] (y ∷ b) c p q = absurd (omega arith)
value-triangle [] [] (z ∷ c) p q = absurd (omega arith)
value-triangle (x ∷ a) [] c p q = absurd (omega arith)
value-triangle (x ∷ a) (y ∷ b) [] p q = absurd (omega arith)
value-triangle (x ∷ a) (y ∷ b) (z ∷ c) p q = omega (
  arith,
  value-triangle a b c (omega arith) (omega arith),
  mul_triangle (256 ^ length a) (bit_xor x z) (bit_xor x y) (bit_xor y z) (xor_triangle x y z),
  ap (λ n. bit_xor x z * 256 ^ n) (length-xor_bytes a c (omega arith)),
  ap (λ n. bit_xor x y * 256 ^ n) (length-xor_bytes a b (omega arith)),
  ap (λ n. bit_xor y z * 256 ^ n) (length-xor_bytes b c (omega arith) ∙ sameb),
)
  where
    sameb : length b ≡ length a
    sameb = omega arith

    mul_triangle : (n r s t : ℕ) → r ≤ s + t → r * n ≤ s * n + t * n
    mul_triangle n r s t h = omega (arith, mul_mono n r (s + t) h)

-- The distance does not depend on the direction.
pub distance_comm : (a b : Bytes) → length a ≡ length b → distance a b ≡ distance b a
distance_comm a b same =
    distance-eq a b same
    ∙ ap (λ x. some (value x)) (xor_bytes_comm a b)
    ∙ sym (distance-eq b a (sym same))

-- Equal keys are at distance 0.
pub distance_self : (a : Bytes) → distance a a ≡ some 0
distance_self a = distance-eq a a refl ∙ ap some (value-xor_self a)

-- No two keys are equally far from a target, where all three are bytes and of one length.
pub distance-injective :
    (t a b : Bytes)
    → length t ≡ length a
    → length t ≡ length b
    → AreBytes t
    → AreBytes a
    → AreBytes b
    → distance t a ≡ distance t b
    → a ≡ b
distance-injective t a b la lb bt ba bb h = xor_bytes-injective t a b la lb (
    value-injective (xor_bytes t a) (xor_bytes t b)
      (length-xor_bytes t a la ∙ sym (length-xor_bytes t b lb)) (xor_bytes-AreBytes t a bt ba)
      (xor_bytes-AreBytes t b bt bb) (cc (distance-eq t a la, distance-eq t b lb)))

-- The distances between three keys of one length are defined, and satisfy the triangle inequality.
pub distance_triangle :
    (a b c : Bytes)
    → length a ≡ length b
    → length b ≡ length c
    → (x : ℕ) × (y : ℕ) × (z : ℕ) × (distance a c ≡ some x)
      × (distance a b ≡ some y)
      × (distance b c ≡ some z)
      × (x ≤ y + z)
distance_triangle a b c p q = (
  value (xor_bytes a c),
  value (xor_bytes a b),
  value (xor_bytes b c),
  distance-eq a c (p ∙ q),
  distance-eq a b p,
  distance-eq b c q,
  value-triangle a b c p q,
)
