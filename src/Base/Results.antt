-- ===== src/Base/Results.antt =====
-- Results of Go calls that return a value and an error. An error is its text.
use mathlib.Core.Path.{◌≡◌, refl}
use mathlib.Core.Logic.{◌⊎◌, inl, inr}
use p2p_distributed_system_m.Base.Text.{Bytes}

pub data Result (A : Type 0) : Type 0 where
  ok : A → Result A
  err : Bytes → Result A

pub Result-cases :
    {A : Type 0} (r : Result A) → ((a : A) × (r ≡ ok a)) ⊎ ((e : Bytes) × (r ≡ err e))
Result-cases (ok a) = inl (a, refl)
Result-cases (err e) = inr (e, refl)
