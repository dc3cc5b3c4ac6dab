-- ===== src/Dht/Xor/Bounds.antt =====
-- How far two keys can be from each other.
use Prim.Native.Nat.{◌^◌}
use p2p_distributed_system_m.Base.{
  ℕ, ◌<◌, ◌≡◌, sym, ◌∙◌, subst, Bytes, none, some, arith, length, eqb, Bool-cases, inl, inr, true,
}
use p2p_distributed_system_m.Base.Hex.{AreBytes, Decodes, decode_string_shape}
use p2p_distributed_system_m.Dht.Xor.{key_from_hex, xor_bytes, distance}
use p2p_distributed_system_m.Dht.Xor.Metric.{
  value, distance-eq, length-xor_bytes, xor_bytes-AreBytes, value-lt,
}

none-ne-some : (k : Bytes) → none ≡ some k → ⊥
none-ne-some k h = cc

eqb-eq : (m n : ℕ) → eqb m n ≡ true → m ≡ n
eqb-eq m n h = ground arith

-- The key of a text has 32 bytes.
pub key_from_hex_shape : (s k : Bytes) → key_from_hex s ≡ some k → (length k ≡ 32) × AreBytes k
unfolding key_from_hex
key_from_hex_shape s k h = elim (Bool-cases (eqb (length s) 64)) [
  | inl long ↦
      let (twice, bytes) = subst (Decodes s) (rw long at h) (decode_string_shape s) in
      let size : length s ≡ 64 = eqb-eq (length s) 64 long in (omega (arith, twice, size), bytes)
  | inr other ↦ absurd (none-ne-some k (rw other at h))
]

-- The distance between the keys of two texts is defined and less than 2 ^ 256.
pub distance_bound :
    (s t a b : Bytes)
    → key_from_hex s ≡ some a
    → key_from_hex t ≡ some b
    → (d : ℕ) × (distance a b ≡ some d) × (d < 2 ^ 256)
distance_bound s t a b p q =
    let (la, ba) = key_from_hex_shape s a p in
    let (lb, bb) = key_from_hex_shape t b q in
    let same = la ∙ sym lb in
    (
      value (xor_bytes a b),
      distance-eq a b same,
      subst (λ n. value (xor_bytes a b) < 256 ^ n) (length-xor_bytes a b same ∙ la)
          (value-lt (xor_bytes a b) (xor_bytes-AreBytes a b ba bb)),
    )
