-- ===== src/Base/Hex.antt =====
-- `encoding/hex` of Go's standard library, on byte lists. `none` is an error.
use Prim.Native.Nat.{ℕ, ◌+◌, ◌-◌, ◌*◌, ◌/◌, ◌%◌, ◌<◌}
use mathlib.Core.Path.{◌≡◌, refl}
use mathlib.Core.Bool.{◌&&◌}
use mathlib.Core.Option.{Option, none, some}
use mathlib.Core.List.{[], ◌∷◌}
use native.Mathlib.Omega.{arith}
use p2p_distributed_system_m.Base.Tests.{if◌then◌else◌, ltb, leb}
use p2p_distributed_system_m.Base.Lists.{length}
use p2p_distributed_system_m.Base.Text.{Bytes}

infixl 5 ◌>>=◌
abbrev pub ◌>>=◌ : {A B : Type 0} → Option A → (A → Option B) → Option B
none >>= f = none
some a >>= f = f a

unfoldable pub hex_value : ℕ → Option ℕ
hex_value c =
    if leb b'0' c && leb c b'9'
    then some (c - b'0')
    else if leb b'a' c && leb c b'f'
    then some (c - b'a' + 10)
    else if leb b'A' c && leb c b'F'
    then some (c - b'A' + 10)
    else none

unfoldable pub hex_digit : ℕ → ℕ
hex_digit d = if ltb d 10 then b'0' + d else b'a' + (d - 10)

unfoldable pub encode_to_string : Bytes → Bytes
unfolding hex_digit
encode_to_string [] = []
encode_to_string (b ∷ bs) = hex_digit (b / 16) ∷ hex_digit (b % 16) ∷ encode_to_string bs

unfoldable pub decode_string : Bytes → Option Bytes
unfolding hex_value
decode_string [] = some []
decode_string (c ∷ []) = none
decode_string (c ∷ d ∷ rest) = do
  hi ← hex_value c
  lo ← hex_value d
  bs ← decode_string rest
  some ((hi * 16 + lo) ∷ bs)

abbrev pub AreBytes : Bytes → Type 0
AreBytes [] = Unit
AreBytes (b ∷ bs) = (b < 256) × AreBytes bs

hex_value-hex_digit : (d : ℕ) → d < 16 → hex_value (hex_digit d) ≡ some d
unfolding hex_value hex_digit
hex_value-hex_digit d h = ground arith

pub decode_string-encode_to_string :
    (bs : Bytes) → AreBytes bs → decode_string (encode_to_string bs) ≡ some bs
unfolding decode_string encode_to_string
decode_string-encode_to_string [] h = refl
decode_string-encode_to_string (b ∷ bs) h =
    rw
      (
        hex_value-hex_digit (b / 16) (omega arith),
        hex_value-hex_digit (b % 16) (omega arith),
        decode_string-encode_to_string bs h.1,
      )
      (ground arith)

pub length-encode_to_string : (bs : Bytes) → length (encode_to_string bs) ≡ 2 * length bs
unfolding encode_to_string
length-encode_to_string [] = refl
length-encode_to_string (b ∷ bs) = omega (arith, length-encode_to_string bs)

hex_value-lt : (c : ℕ) {v : ℕ} → hex_value c ≡ some v → v < 16
unfolding hex_value
hex_value-lt c h = ground arith

-- What decodes is half as long, and consists of bytes.
abbrev pub Decodes : Bytes → Option Bytes → Type 0
Decodes s none = Unit
Decodes s (some bs) = (length s ≡ 2 * length bs) × AreBytes bs

pair_shape :
    (c d : ℕ) (rest : Bytes) (hi lo : Option ℕ) (more : Option Bytes)
    → hex_value c ≡ hi
    → hex_value d ≡ lo
    → Decodes rest more
    → Decodes (c ∷ d ∷ rest) (do x ← hi; y ← lo; bs ← more; some ((x * 16 + y) ∷ bs))
pair_shape c d rest none lo more p q r = tt
pair_shape c d rest (some x) none more p q r = tt
pair_shape c d rest (some x) (some y) none p q r = tt
pair_shape c d rest (some x) (some y) (some bs) p q r =
    let hi : x < 16 = hex_value-lt c p in
    let lo : y < 16 = hex_value-lt d q in (omega (arith, r.0), (omega arith, r.1))

pub decode_string_shape : (s : Bytes) → Decodes s (decode_string s)
unfolding decode_string
decode_string_shape [] = omega arith
decode_string_shape (c ∷ []) = tt
decode_string_shape (c ∷ d ∷ rest) =
    pair_shape c d rest (hex_value c) (hex_value d) (decode_string rest) refl refl
      (decode_string_shape rest)
