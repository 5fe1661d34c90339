-- ===== src/Base/Tables.antt =====
-- Facts over a small range of numbers, checked value by value.
use Prim.Native.Nat.{ℕ, zero, suc, ◌<◌}
use mathlib.Core.Path.{◌≡◌, refl}
use mathlib.Core.Bool.{Bool, true, false, ◌&&◌}
use native.Mathlib.Omega.{arith}

abbrev pub same_test : Bool → Bool → Bool
same_test true q = q
same_test false true = false
same_test false false = true

pub eq_of_same_test : (p q : Bool) → same_test p q ≡ true → p ≡ q
eq_of_same_test true true h = refl
eq_of_same_test true false h = cc
eq_of_same_test false true h = cc
eq_of_same_test false false h = refl

unfoldable pub holds_below : ℕ → (ℕ → Bool) → Bool
holds_below zero test = true
holds_below (suc n) test = test n && holds_below n test

pub holds_below_lem :
    (n : ℕ) (test : ℕ → Bool) (x : ℕ) → holds_below n test ≡ true → x < n → test x ≡ true
unfolding holds_below
holds_below_lem zero test x h lt = absurd (omega arith)
holds_below_lem (suc n) test x h lt = ground (arith, holds_below_lem n test x)
