-- ===== src/Base/Order.antt =====
-- The order in which `range` visits a Go map: unspecified, so a parameter of every loop over a map.
use mathlib.Core.Path.{◌≡◌, refl, ◌∙◌, sym}
use mathlib.Core.Logic.{inl, inr}
use mathlib.Core.Bool.{Bool, true, false, ◌||◌}
use mathlib.Core.Option.{Option, none, some}
use mathlib.Core.List.{List, [], ◌∷◌, Memᴰ, Permᴰ, reverse}
use mathlib.Core.List.Permᴰ
use native.Mathlib.Omega.{arith}
use p2p_distributed_system_m.Base.Tests.{if◌then◌else◌, Bool-cases, Option-cases}
use p2p_distributed_system_m.Base.Text.{Bytes}
use p2p_distributed_system_m.Base.GoMap.{GoMap, lookup, Distinct}

-- Every entry is visited once.
pub record RangeOrder (A : Type 0) : Type 0 where
  pub visit : List A → List A
  pub visit-perm : (l : List A) → Permᴰ (visit l) l

abbrev pub as_stored : {A : Type 0} → RangeOrder A
as_stored = record { visit = λ l. l; visit-perm = Permᴰ.refl }

abbrev pub backwards : {A : Type 0} → RangeOrder A
backwards = record { visit = reverse; visit-perm = Permᴰ.reverse }

module _ {A : Type 0} where
  -- A loop that looks for an element and stops at the first.
  unfoldable pub find_first : (A → Bool) → List A → Option A
  find_first p [] = none
  find_first p (x ∷ xs) = if p x then some x else find_first p xs

  unfoldable pub any : (A → Bool) → List A → Bool
  any p [] = false
  any p (x ∷ xs) = p x || any p xs

  pub find_first-mem :
      (p : A → Bool) (xs : List A) {x : A} → find_first p xs ≡ some x → Memᴰ x xs × (p x ≡ true)
  unfolding find_first
  find_first-mem p [] h = cc
  find_first-mem p (y ∷ ys) {x} h = elim (Bool-cases (p y)) [
    | inl e ↦ (Memᴰ.head (ground arith), ground arith)
    | inr e ↦ let (m, q) = find_first-mem p ys {x = x} (ground arith) in (Memᴰ.tail m, q)
  ]

  pub find_first-none : (p : A → Bool) (xs : List A) → find_first p xs ≡ none → any p xs ≡ false
  unfolding find_first any
  find_first-none p [] h = refl
  find_first-none p (y ∷ ys) h = ground (arith, find_first-none p ys)

  pub any-mem : (p : A → Bool) (xs : List A) {x : A} → Memᴰ x xs → p x ≡ true → any p xs ≡ true
  unfolding any
  any-mem p [] m h = elim m [ ]
  any-mem p (y ∷ ys) {x} (Memᴰ.head e) h = ground arith
  any-mem p (y ∷ ys) {x} (Memᴰ.tail m) h = ground (arith, any-mem p ys m h)

  pub perm-mem : {xs ys : List A} {x : A} → Permᴰ xs ys → Memᴰ x xs → Memᴰ x ys
  perm-mem Permᴰ.nil m = m
  perm-mem (Permᴰ.cons e p) (Memᴰ.head q) = Memᴰ.head (q ∙ e)
  perm-mem (Permᴰ.cons e p) (Memᴰ.tail m) = Memᴰ.tail (perm-mem p m)
  perm-mem (Permᴰ.swap e f) (Memᴰ.head q) = Memᴰ.tail (Memᴰ.head (q ∙ e))
  perm-mem (Permᴰ.swap e f) (Memᴰ.tail (Memᴰ.head q)) = Memᴰ.head (q ∙ f)
  perm-mem (Permᴰ.swap e f) (Memᴰ.tail (Memᴰ.tail m)) = Memᴰ.tail (Memᴰ.tail m)
  perm-mem (Permᴰ.trans p q) m = perm-mem q (perm-mem p m)

  any-perm : (p : A → Bool) {xs ys : List A} → Permᴰ xs ys → any p xs ≡ any p ys
  unfolding any
  any-perm p Permᴰ.nil = refl
  any-perm p (Permᴰ.cons {a = a} {b = b} {l₁ = l} {l₂ = k} e q) = ground (arith, any-perm p q, e)
  any-perm p (Permᴰ.swap e f) = ground (arith, e, f)
  any-perm p (Permᴰ.trans q r) = any-perm p q ∙ any-perm p r

  pub any-visit : (o : RangeOrder A) (p : A → Bool) (xs : List A) → any p (o.visit xs) ≡ any p xs
  any-visit o p xs = any-perm p (o.visit-perm xs)

  -- The first hit of a loop over a map is one of its entries.
  pub find_visit-mem :
      (o : RangeOrder A) (p : A → Bool) (xs : List A) {x : A}
      → find_first p (o.visit xs) ≡ some x
      → Memᴰ x xs × (p x ≡ true)
  find_visit-mem o p xs {x} h =
      let (m, q) = find_first-mem p (o.visit xs) {x = x} h in (perm-mem (o.visit-perm xs) m, q)

  pub find_visit-none :
      (o : RangeOrder A) (p : A → Bool) (xs : List A)
      → find_first p (o.visit xs) ≡ none
      → any p xs ≡ false
  find_visit-none o p xs h = sym (any-visit o p xs) ∙ find_first-none p (o.visit xs) h

  -- Where no entry passes the test, the loop finds none.
  pub find_visit_of_any-false :
      (o : RangeOrder A) (p : A → Bool) (xs : List A)
      → any p xs ≡ false
      → find_first p (o.visit xs) ≡ none
  find_visit_of_any-false o p xs h = elim (Option-cases (find_first p (o.visit xs))) [
    | inl e ↦ e
    | inr (x, e) ↦
        let (m, q) = find_visit-mem o p xs {x = x} e in absurd (ground (arith, any-mem p xs m q))
  ]

module _ {V : Type 0} where
  lookup-none-mem : (k : Bytes) (v : V) (m : GoMap V) → lookup k m ≡ none → Memᴰ (k, v) m → ⊥
  unfolding lookup
  lookup-none-mem k v [] h m = elim m [ ]
  lookup-none-mem k v ((j, w) ∷ m) h (Memᴰ.head e) = ground arith
  lookup-none-mem k v ((j, w) ∷ m) h (Memᴰ.tail e) =
      ground (arith, lookup-none-mem k v m (ground arith) e)

  -- An entry of a map is what its key leads to.
  pub mem-lookup :
      (k : Bytes) (v : V) (m : GoMap V) → Distinct m → Memᴰ (k, v) m → lookup k m ≡ some v
  unfolding lookup
  mem-lookup k v [] d m = elim m [ ]
  mem-lookup k v ((j, w) ∷ m) d (Memᴰ.head e) = ground arith
  mem-lookup k v ((j, w) ∷ m) d (Memᴰ.tail e) =
      ground (arith, mem-lookup k v m d.1 e, lookup-none-mem k v m)
