-- ===== src/Base/Keys.antt =====
-- Byte strings as keys: `bytes.Compare`, and the equality that it decides.
use Prim.Native.Nat.{compare, Ordering, lt, eq, gt}
use Prim.Native.Nat.{ℕ}
use mathlib.Core.Path.{◌≡◌, refl, sym, ◌∙◌}
use mathlib.Core.Logic.{◌↔◌, ◌≢◌}
use mathlib.Core.Bool.{Bool, true, false}
use mathlib.Core.List.{List, [], ◌∷◌}
use native.Mathlib.Omega.{arith}

unfoldable pub compare_bytes : List ℕ → List ℕ → Ordering
compare_bytes [] [] = eq
compare_bytes [] (y ∷ ys) = lt
compare_bytes (x ∷ xs) [] = gt
compare_bytes (x ∷ xs) (y ∷ ys) = elim (compare x y) [
  | lt ↦ lt
  | gt ↦ gt
  | eq ↦ compare_bytes xs ys
]

pub compare_bytes-eq_self : (xs : List ℕ) → compare_bytes xs xs ≡ eq
unfolding compare_bytes
compare_bytes-eq_self [] = refl
compare_bytes-eq_self (x ∷ xs) = ground (arith, compare_bytes-eq_self xs)

pub eq_of_compare_bytes : (xs ys : List ℕ) → compare_bytes xs ys ≡ eq → xs ≡ ys
unfolding compare_bytes
eq_of_compare_bytes [] [] h = refl
eq_of_compare_bytes [] (y ∷ ys) h = ground arith
eq_of_compare_bytes (x ∷ xs) [] h = ground arith
eq_of_compare_bytes (x ∷ xs) (y ∷ ys) h = ground (arith, eq_of_compare_bytes xs ys)

unfoldable pub bytes_eq : List ℕ → List ℕ → Bool
bytes_eq xs ys = elim (compare_bytes xs ys) [ eq ↦ true | _ ↦ false ]

pub bytes_eq_iff : (xs ys : List ℕ) → (bytes_eq xs ys ≡ true) ↔ (xs ≡ ys)
unfolding bytes_eq
bytes_eq_iff xs ys = (forward, λ e. rw e (rw (compare_bytes-eq_self ys, bytes_eq)))
  where
    forward : bytes_eq xs ys ≡ true → xs ≡ ys
    forward h = ground (arith, eq_of_compare_bytes xs ys)

pub bytes_eq_refl : (xs : List ℕ) → bytes_eq xs xs ≡ true
bytes_eq_refl xs = (bytes_eq_iff xs xs).1 refl

-- To split on a comparison and keep the equation.
pub data Compared (o : Ordering) : Type 0 where
  less : o ≡ lt → Compared o
  same : o ≡ eq → Compared o
  more : o ≡ gt → Compared o

pub compared : (o : Ordering) → Compared o
compared lt = less refl
compared eq = same refl
compared gt = more refl

pub compare_bytes-ne_eq : (xs ys : List ℕ) → compare_bytes xs ys ≢ eq → bytes_eq xs ys ≡ false
unfolding bytes_eq
compare_bytes-ne_eq xs ys h = ground arith

-- The order of keys.
infix 50 ◌≺◌
abbrev pub ◌≺◌ : List ℕ → List ℕ → Type 0
xs ≺ ys = compare_bytes xs ys ≡ lt

pub ≺_trans : (xs ys zs : List ℕ) → xs ≺ ys → ys ≺ zs → xs ≺ zs
unfolding compare_bytes
≺_trans [] [] zs h k = ground arith
≺_trans [] (y ∷ ys) [] h k = ground arith
≺_trans [] (y ∷ ys) (z ∷ zs) h k = refl
≺_trans (x ∷ xs) [] zs h k = ground arith
≺_trans (x ∷ xs) (y ∷ ys) [] h k = ground arith
≺_trans (x ∷ xs) (y ∷ ys) (z ∷ zs) h k = ground (arith, ≺_trans xs ys zs)

pub ≺_of_gt : (xs ys : List ℕ) → compare_bytes xs ys ≡ gt → ys ≺ xs
unfolding compare_bytes
≺_of_gt [] [] h = ground arith
≺_of_gt [] (y ∷ ys) h = ground arith
≺_of_gt (x ∷ xs) [] h = refl
≺_of_gt (x ∷ xs) (y ∷ ys) h = ground (arith, ≺_of_gt xs ys)

pub ≺-ne : (xs ys : List ℕ) → xs ≺ ys → bytes_eq xs ys ≡ false
unfolding bytes_eq
≺-ne xs ys h = ground arith

pub bytes_eq_comm : (xs ys : List ℕ) → bytes_eq xs ys ≡ bytes_eq ys xs
bytes_eq_comm xs ys = go (bytes_eq xs ys) (bytes_eq ys xs) refl refl
  where
    go : (p q : Bool) → bytes_eq xs ys ≡ p → bytes_eq ys xs ≡ q → bytes_eq xs ys ≡ bytes_eq ys xs
    go true true a b = a ∙ sym b
    go false false a b = a ∙ sym b
    go true false a b = a ∙ sym ((bytes_eq_iff ys xs).1 (sym ((bytes_eq_iff xs ys).0 a)))
    go false true a b = (bytes_eq_iff xs ys).1 (sym ((bytes_eq_iff ys xs).0 b)) ∙ sym b

-- A common first byte is passed over.
pub bytes_eq-cons : (x : ℕ) (xs ys : List ℕ) → bytes_eq (x ∷ xs) (x ∷ ys) ≡ bytes_eq xs ys
unfolding bytes_eq compare_bytes
bytes_eq-cons x xs ys = ground arith

pub bytes_eq_ne : (xs ys : List ℕ) → xs ≢ ys → bytes_eq xs ys ≡ false
bytes_eq_ne xs ys h = go (bytes_eq xs ys) refl
  where
    go : (b : Bool) → bytes_eq xs ys ≡ b → bytes_eq xs ys ≡ false
    go true e = absurd (h ((bytes_eq_iff xs ys).0 e))
    go false e = e
