-- ===== src/Base/Sort.antt =====
-- `sort.SliceStable` and `sort.Slice` of Go's standard library, as an insertion sort: by a strict weak
-- order every stable sort has the same result. It permutes its input, and sorts it where the test
-- compares ranks.
use mathlib.Core.List.{Memᴰ, Permᴰ}
use mathlib.Core.List.Permᴰ
use Prim.Native.Nat.{ℕ, zero, suc, ◌≤◌, ◌<◌}
use mathlib.Core.Path.{◌≡◌, refl, sym, ◌∙◌}
use mathlib.Core.Logic.{inl, inr}
use mathlib.Core.Bool.{Bool, true, false}
use mathlib.Core.List.{List, [], ◌∷◌}
use native.Mathlib.Omega.{arith}
use p2p_distributed_system_m.Base.Tests.{if◌then◌else◌, ltb, Bool-cases}
use p2p_distributed_system_m.Base.Lists.{take}
use p2p_distributed_system_m.Base.Order.{perm-mem}

-- `a` goes before what it is closer than.
unfoldable pub insert_by : {A : Type 0} → (A → A → Bool) → A → List A → List A
insert_by less a [] = a ∷ []
insert_by less a (b ∷ bs) = if less b a then b ∷ insert_by less a bs else a ∷ b ∷ bs

unfoldable pub sort_stable : {A : Type 0} → (A → A → Bool) → List A → List A
unfolding insert_by
sort_stable less [] = []
sort_stable less (a ∷ rest) = insert_by less a (sort_stable less rest)

module _ {A : Type 0} (less : A → A → Bool) where
  insert_by-perm : (a : A) (l : List A) → Permᴰ (insert_by less a l) (a ∷ l)
  unfolding insert_by
  insert_by-perm a [] = Permᴰ.refl (a ∷ [])
  insert_by-perm a (b ∷ l) = elim (Bool-cases (less b a)) [
    | inl e ↦ rw e (Permᴰ.trans (Permᴰ.cons refl (insert_by-perm a l)) (Permᴰ.swap refl refl))
    | inr e ↦ rw e (Permᴰ.refl (a ∷ b ∷ l))
  ]

  pub sort_stable-perm : (l : List A) → Permᴰ (sort_stable less l) l
  unfolding sort_stable
  sort_stable-perm [] = Permᴰ.nil
  sort_stable-perm (a ∷ l) =
      Permᴰ.trans (insert_by-perm a (sort_stable less l)) (Permᴰ.cons refl (sort_stable-perm l))

  -- The elements have ranks, and the test compares them.
  module _ (rank : A → ℕ) where
    abbrev pub Below : A → List A → Type 0
    Below a l = (b : A) → Memᴰ b l → rank a ≤ rank b

    abbrev pub IsSorted : List A → Type 0
    IsSorted [] = Unit
    IsSorted (a ∷ l) = Below a l × IsSorted l

    abbrev pub Compares : A → List A → Type 0
    Compares a l = (b : A) → Memᴰ b l → less b a ≡ ltb (rank b) (rank a)

    insert_by-IsSorted :
        (a : A) (l : List A) → Compares a l → IsSorted l → IsSorted (insert_by less a l)
    unfolding insert_by
    insert_by-IsSorted a [] c s = ((λ b m. elim m [ ]), tt)
    insert_by-IsSorted a (b ∷ l) c s = elim (Bool-cases (less b a)) [
      | inl e ↦ rw e (
        below_insert (omega (arith, ltb→lt (rank b) (rank a) (sym (c b (Memᴰ.head refl)) ∙ e))) s.0,
        insert_by-IsSorted a l (λ x m. c x (Memᴰ.tail m)) s.1,
      )
      | inr e ↦
          rw e
            (below_cons (ltb→ge (rank b) (rank a) (sym (c b (Memᴰ.head refl)) ∙ e)) s.0, (s.0, s.1))
    ]
      where
        ltb→lt : (m n : ℕ) → ltb m n ≡ true → m < n
        ltb→lt m n h = ground arith

        ltb→ge : (m n : ℕ) → ltb m n ≡ false → n ≤ m
        ltb→ge m n h = ground arith

        below_insert : rank b ≤ rank a → Below b l → Below b (insert_by less a l)
        below_insert h s x m = go (perm-mem (insert_by-perm a l) m)
          where
            go : Memᴰ x (a ∷ l) → rank b ≤ rank x
            go (Memᴰ.head e) = rw e h
            go (Memᴰ.tail t) = s x t

        below_cons : rank a ≤ rank b → Below b l → Below a (b ∷ l)
        below_cons h s x (Memᴰ.head e) = rw e h
        below_cons h s x (Memᴰ.tail t) = omega (arith, s x t)

    -- Every two elements are compared by their ranks.
    pub sort_stable-IsSorted :
        (l : List A)
        → ((a b : A) → Memᴰ a l → Memᴰ b l → less a b ≡ ltb (rank a) (rank b))
        → IsSorted (sort_stable less l)
    unfolding sort_stable
    sort_stable-IsSorted [] c = tt
    sort_stable-IsSorted (a ∷ l) c =
        insert_by-IsSorted a (sort_stable less l)
          (λ b m. c b a (Memᴰ.tail (perm-mem (sort_stable-perm l) m)) (Memᴰ.head refl))
          (sort_stable-IsSorted l (λ x y m n. c x y (Memᴰ.tail m) (Memᴰ.tail n)))

    -- What a prefix leaves out is not below what it holds.
    pub take-least :
        (k : ℕ) (l : List A) {i j : A}
        → IsSorted l
        → Memᴰ i (take k l)
        → Memᴰ j l
        → (Memᴰ j (take k l) → ⊥)
        → rank i ≤ rank j
    take-least zero l s m n out = elim m [ ]
    take-least (suc k) [] s m n out = elim m [ ]
    take-least (suc k) (a ∷ l) s m (Memᴰ.head e) out = absurd (out (Memᴰ.head e))
    take-least (suc k) (a ∷ l) {j = j} s (Memᴰ.head e) (Memᴰ.tail n) out = rw e (s.0 j n)
    take-least (suc k) (a ∷ l) s (Memᴰ.tail m) (Memᴰ.tail n) out =
        take-least k l s.1 m n (λ t. out (Memᴰ.tail t))

module _ {A : Type 0} where
  pub take-mem : (k : ℕ) (l : List A) {i : A} → Memᴰ i (take k l) → Memᴰ i l
  take-mem zero l m = elim m [ ]
  take-mem (suc k) [] m = elim m [ ]
  take-mem (suc k) (a ∷ l) (Memᴰ.head e) = Memᴰ.head e
  take-mem (suc k) (a ∷ l) (Memᴰ.tail m) = Memᴰ.tail (take-mem k l m)
