-- ===== src/Base/Indices.antt =====
-- Looking up an index in a list that grows at its end or is cut.
use web.Base.Lists.{length, get_elem?, set, take}
use Prim.Native.Nat.{ℕ, zero, suc, ◌≤◌, ◌<◌}
use mathlib.Core.Path.{◌≡◌, refl, ap}
use mathlib.Core.Logic.{◌≢◌, ◌⊎◌, inl, inr}
use mathlib.Core.Option.{some}
use mathlib.Core.List.{List, [], ◌∷◌, ◌++◌}
use native.Mathlib.Omega.{arith}

module _ {ℓ} {A : Type ℓ} where
  pub get_elem?-append_left :
      (xs ys : List A) (i : ℕ) (x : A) → get_elem? xs i ≡ some x → get_elem? (xs ++ ys) i ≡ some x
  get_elem?-append_left [] ys i x h = cc
  get_elem?-append_left (y ∷ xs) ys zero x h = h
  get_elem?-append_left (y ∷ xs) ys (suc i) x h = get_elem?-append_left xs ys i x h

  pub get_elem?-append_one :
      (xs : List A) (y : A) (i : ℕ) (x : A)
      → get_elem? (xs ++ y ∷ []) i ≡ some x
      → (get_elem? xs i ≡ some x) ⊎ (x ≡ y)
  get_elem?-append_one [] y zero x h = inr (cc)
  get_elem?-append_one [] y (suc i) x h = inr (cc)
  get_elem?-append_one (z ∷ xs) y zero x h = inl h
  get_elem?-append_one (z ∷ xs) y (suc i) x h = get_elem?-append_one xs y i x h

  pub get_elem?-append_length :
      (xs : List A) (y : A) (ys : List A) → get_elem? (xs ++ y ∷ ys) (length xs) ≡ some y
  get_elem?-append_length [] y ys = refl
  get_elem?-append_length (x ∷ xs) y ys = get_elem?-append_length xs y ys

  pub get_elem?-take_lt : (j i : ℕ) (xs : List A) → i < j → get_elem? (take j xs) i ≡ get_elem? xs i
  get_elem?-take_lt zero i xs h = absurd (omega arith)
  get_elem?-take_lt (suc j) i [] h = refl
  get_elem?-take_lt (suc j) zero (x ∷ xs) h = refl
  get_elem?-take_lt (suc j) (suc i) (x ∷ xs) h = get_elem?-take_lt j i xs (omega arith)

  pub get_elem?-take-some :
      (j i : ℕ) (xs : List A) (x : A) → get_elem? (take j xs) i ≡ some x → get_elem? xs i ≡ some x
  get_elem?-take-some zero i xs x h = cc
  get_elem?-take-some (suc j) i [] x h = cc
  get_elem?-take-some (suc j) zero (y ∷ xs) x h = h
  get_elem?-take-some (suc j) (suc i) (y ∷ xs) x h = get_elem?-take-some j i xs x h

  pub take-take : (a b : ℕ) (xs : List A) → a ≤ b → take a (take b xs) ≡ take a xs
  take-take zero b xs h = refl
  take-take (suc a) zero xs h = absurd (omega arith)
  take-take (suc a) (suc b) [] h = refl
  take-take (suc a) (suc b) (x ∷ xs) h = ap (◌∷◌ x) (take-take a b xs (omega arith))

  pub lt-length_of_get_elem? :
      (xs : List A) (i : ℕ) (x : A) → get_elem? xs i ≡ some x → i < length xs
  lt-length_of_get_elem? [] i x h = cc
  lt-length_of_get_elem? (y ∷ xs) zero x h = omega arith
  lt-length_of_get_elem? (y ∷ xs) (suc i) x h = omega (arith, lt-length_of_get_elem? xs i x h)

  pub get_elem?-set :
      (xs : List A) (i : ℕ) (b : A) → i < length xs → get_elem? (set xs i b) i ≡ some b
  get_elem?-set [] i b h = absurd (omega arith)
  get_elem?-set (x ∷ xs) zero b h = refl
  get_elem?-set (x ∷ xs) (suc i) b h = get_elem?-set xs i b (omega arith)

  pub get_elem?-set_ne :
      (xs : List A) (i j : ℕ) (b : A) → j ≢ i → get_elem? (set xs i b) j ≡ get_elem? xs j
  get_elem?-set_ne [] i j b h = refl
  get_elem?-set_ne (x ∷ xs) zero zero b h = absurd (h refl)
  get_elem?-set_ne (x ∷ xs) zero (suc j) b h = refl
  get_elem?-set_ne (x ∷ xs) (suc i) zero b h = refl
  get_elem?-set_ne (x ∷ xs) (suc i) (suc j) b h = get_elem?-set_ne xs i j b (λ e. h (ap suc e))

  pub get_elem?-lt : (xs : List A) (i : ℕ) → i < length xs → (x : A) × (get_elem? xs i ≡ some x)
  get_elem?-lt [] i h = absurd (omega arith)
  get_elem?-lt (x ∷ xs) zero h = (x, refl)
  get_elem?-lt (x ∷ xs) (suc i) h = get_elem?-lt xs i (omega arith)
