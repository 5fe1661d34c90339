-- ===== src/Base/Panics.antt =====
-- A Go call that may panic. An error that is returned as a value is part of `A`.
use mathlib.Core.Path.{◌≡◌, refl}

pub data Outcome {ℓ} (A : Type ℓ) : Type ℓ where
  ok : A → Outcome A
  panic : Outcome A

infixl 5 ◌>>=◌
abbrev pub ◌>>=◌ {ℓ κ} : {A : Type ℓ} {B : Type κ} → Outcome A → (A → Outcome B) → Outcome B
ok a >>= f = f a
panic >>= f = panic

pub >>=-eq-ok {ℓ κ} :
    {A : Type ℓ} {B : Type κ} (call : Outcome A) (rest : A → Outcome B) {result : B}
    → (call >>= rest) ≡ ok result
    → (value : A) × (call ≡ ok value) × (rest value ≡ ok result)
>>=-eq-ok (ok value) rest run = (value, refl, run)
>>=-eq-ok panic rest run = cc

pub ok_inj {ℓ} : {A : Type ℓ} {a b : A} → ok a ≡ ok b → a ≡ b
ok_inj h = cc

-- `P` holds of what a call returns, if it returns.
abbrev pub Post {ℓ κ} : {A : Type ℓ} → (A → Type κ) → Outcome A → Type κ
Post P (ok a) = P a
Post P panic = Unit

module _ {ℓ ℓ' κ κ'} {A : Type ℓ} {B : Type ℓ'} where
  pub Post-bind :
      (P : A → Type κ) (Q : B → Type κ') (r : Outcome A) (f : A → Outcome B)
      → Post P r
      → ((a : A) → P a → Post Q (f a))
      → Post Q (r >>= f)
  Post-bind P Q (ok a) f h k = k a h
  Post-bind P Q panic f h k = tt

pub Post-any {ℓ} : {A : Type ℓ} (r : Outcome A) → Post (λ _. Unit {0}) r
Post-any (ok a) = tt
Post-any panic = tt

pub Post-ok {ℓ κ} :
    {A : Type ℓ} (P : A → Type κ) (r : Outcome A) (a : A) → Post P r → r ≡ ok a → P a
Post-ok P r a h e = rw e at h

-- A call is taken apart with the equation that it returned.
pub Post-bind_eq {ℓ ℓ' κ} :
    {A : Type ℓ} {B : Type ℓ'} (Q : B → Type κ) (r : Outcome A) (f : A → Outcome B)
    → ((a : A) → r ≡ ok a → Post Q (f a))
    → Post Q (r >>= f)
Post-bind_eq Q (ok a) f k = k a refl
Post-bind_eq Q panic f k = tt

pub Post-imp {ℓ κ κ'} :
    {A : Type ℓ} (P : A → Type κ) (Q : A → Type κ') (r : Outcome A)
    → Post P r
    → ((a : A) → P a → Q a)
    → Post Q r
Post-imp P Q (ok a) h k = k a h
Post-imp P Q panic h k = tt
