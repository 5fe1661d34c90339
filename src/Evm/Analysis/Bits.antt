-- ===== src/Evm/Analysis/Bits.antt =====
-- evm/analysis.go: one byte of the bit vector.
use web.Base.{
  ℕ, ◌-◌, ◌/◌, ◌^◌, ◌<◌, ◌≡◌, refl, Bool, true, false, ◌&&◌, not, ltb, leb, ◌==◌, ltb→lt,
}
use web.Base.Tables.{same_test, eq_of_same_test, holds_below, holds_below_lem}
use Prim.Native.Nat.{bit_or, bit_and}

-- Whether the bit `j` from the left of a byte is not set.
abbrev pub is_clear : ℕ → ℕ → Bool
is_clear j b = bit_and b (0x80 / 2 ^ j) == 0

abbrev row : (ℕ → ℕ) → (ℕ → ℕ → Bool) → ℕ → ℕ → ℕ → Bool
row mask keeps b k j =
    same_test (is_clear j (bit_or b (mask k))) (is_clear j b && keeps k j)
    && ltb (bit_or b (mask k)) 256

abbrev table : (ℕ → ℕ) → (ℕ → ℕ → Bool) → Bool
table mask keeps =
    holds_below 256 (λ b. holds_below 8 (λ k. holds_below 8 (λ j. row mask keeps b k j)))

one_table : table (λ k. 0x80 / 2 ^ k) (λ k j. not (k == j)) ≡ true
unfolding holds_below
one_table = refl

low_table : table (λ k. 0xff / 2 ^ k) (λ k j. ltb j k) ≡ true
unfolding holds_below
low_table = refl

high_table : table (λ k. 0xff - 0xff / 2 ^ k) (λ k j. leb k j) ≡ true
unfolding holds_below
high_table = refl

and_parts : (p q : Bool) → (p && q) ≡ true → (p ≡ true) × (q ≡ true)
and_parts true true h = (refl, refl)
and_parts true false h = cc
and_parts false q h = cc

table_lem :
    (mask : ℕ → ℕ) (keeps : ℕ → ℕ → Bool) (b k j : ℕ)
    → table mask keeps ≡ true
    → b < 256
    → k < 8
    → j < 8
    → (is_clear j (bit_or b (mask k)) ≡ (is_clear j b && keeps k j)) × (bit_or b (mask k) < 256)
table_lem mask keeps b k j h hb hk hj =
    let hb' = holds_below_lem 256 _ b h hb in
    let hk' = holds_below_lem 8 _ k hb' hk in
    let (e, small) = and_parts _ _ (holds_below_lem 8 _ j hk' hj) in
    (eq_of_same_test _ _ e, ltb→lt _ _ small)

module _ (b k j : ℕ) (hb : b < 256) (hk : k < 8) (hj : j < 8) where
  pub is_clear-one :
      (is_clear j (bit_or b (0x80 / 2 ^ k)) ≡ (is_clear j b && not (k == j)))
      × (bit_or b (0x80 / 2 ^ k) < 256)
  is_clear-one = table_lem (λ k. 0x80 / 2 ^ k) (λ k j. not (k == j)) b k j one_table hb hk hj

  pub is_clear-low :
      (is_clear j (bit_or b (0xff / 2 ^ k)) ≡ (is_clear j b && ltb j k))
      × (bit_or b (0xff / 2 ^ k) < 256)
  is_clear-low = table_lem (λ k. 0xff / 2 ^ k) (λ k j. ltb j k) b k j low_table hb hk hj

  pub is_clear-high :
      (is_clear j (bit_or b (0xff - 0xff / 2 ^ k)) ≡ (is_clear j b && leb k j))
      × (bit_or b (0xff - 0xff / 2 ^ k) < 256)
  is_clear-high = table_lem (λ k. 0xff - 0xff / 2 ^ k) (λ k j. leb k j) b k j high_table hb hk hj

zero_table : holds_below 8 (λ j. is_clear j 0) ≡ true
unfolding holds_below
zero_table = refl

pub is_clear-zero : (j : ℕ) → j < 8 → is_clear j 0 ≡ true
is_clear-zero j h = holds_below_lem 8 (λ j. is_clear j 0) j zero_table h
