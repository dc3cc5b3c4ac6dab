-- ===== src/Dht/Xor.antt =====
-- internal/dht/xor_distance.go. `none` is the panic of `XOR` on operands of unequal length, and an
-- error of `KeyFromHex`.
pub mod Metric
pub mod Bounds
use Prim.Native.Nat.{bit_xor}
use mathlib.Core.Option
use p2p_distributed_system_m.Base.{
  ℕ, ◌+◌, ◌*◌, Bytes, List, [], ◌∷◌, Bool, Option, none, some, if◌then◌else◌, eqb, ltb, length,
}
use p2p_distributed_system_m.Base.Hex.{decode_string, ◌>>=◌}

abbrev pub key_bytes : ℕ
key_bytes = 32

unfoldable pub key_from_hex : Bytes → Option Bytes
unfolding decode_string
key_from_hex s = if eqb (length s) (key_bytes * 2) then decode_string s else none

-- The loop of `XOR`, on operands of one length.
unfoldable pub xor_bytes : Bytes → Bytes → Bytes
xor_bytes (x ∷ a) (y ∷ b) = bit_xor x y ∷ xor_bytes a b
xor_bytes _ _ = []

unfoldable pub xor : Bytes → Bytes → Option Bytes
unfolding xor_bytes
xor a b = if eqb (length a) (length b) then some (xor_bytes a b) else none

-- `big.Int.SetBytes`, the most significant byte first.
unfoldable pub set_bytes : ℕ → Bytes → ℕ
set_bytes n [] = n
set_bytes n (b ∷ bs) = set_bytes (n * 256 + b) bs

unfoldable pub distance : Bytes → Bytes → Option ℕ
unfolding xor set_bytes
distance a b = Option.map (set_bytes 0) (xor a b)

unfoldable pub closer : Bytes → Bytes → Bytes → Option Bool
unfolding distance
closer target a b = do da ← distance target a; db ← distance target b; some (ltb da db)
