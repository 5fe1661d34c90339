-- ===== src/Evm/Gas/MemoryFee.antt =====
-- evm/gas_table.go: memoryGasCost charges the growth of one total fee.
use web.Base.{
  ℕ, ◌+◌, ◌-◌, ◌*◌, ◌/◌, ◌%◌, ◌≤◌, ◌<◌, ◌≡◌, refl, sym, ap, ◌∙◌, false, none, some, ltb, ◌==◌,
  arith, inl, inr, Bool-cases, ltb-false, lt→ltb, ltb→lt, ==_iff,
}
use native.Mathlib.Nat.{mul-le-mul}
use web.Base.Bytes.{u64_mod}
use web.Evm.Memory.{Memory, len}
use web.Evm.Memory.{resize}
use web.Evm.Memory.Regions.{len-resize, resize_cost}
use web.Evm.Sizes.{to_word_size}
use web.Evm.Sizes.Bounds.{to_word_size_lem}
use web.Evm.Gas.{memory_gas_cost, max_memory, Charge, gas_uint_overflow}

-- The fee of a memory of that many words.
abbrev pub fee : ℕ → ℕ
fee words = words * 3 + words * words / 512

-- The fee of the whole memory, which is a number of words, has been noted.
pub record Paid (m : Memory) : Type 0 where
  pub whole_words : len m ≡ len m / 32 * 32
  pub noted : m.last_gas_cost ≡ fee (len m / 32)

square_small : (n : ℕ) → n ≤ 0xFFFF_FFFF → n * n ≤ 0xFFFF_FFFF * 0xFFFF_FFFF
square_small n h = mul-le-mul h h

fee_small : (n : ℕ) → n ≤ 0xFFFF_FFFF → fee n < u64_mod
fee_small n h = omega (arith, square_small n h)

fee_le : (k n : ℕ) → k ≤ n → fee k ≤ fee n
fee_le k n h = omega (arith, mul-le-mul h h)

-- The three outcomes, where the size is within the limit.
cost_nothing : (m : Memory) → memory_gas_cost 0 m ≡ ((0, none), m)
unfolding memory_gas_cost
cost_nothing m = refl

module _ (n size : ℕ) (m : Memory) (words : to_word_size size ≡ n) (small : n ≤ 0xFFFF_FFFF)
    (limit : size ≤ max_memory) (some_bytes : (size == 0) ≡ false) where
  bytes : (n * 32) % u64_mod ≡ n * 32
  bytes = omega arith

  total : ((n * 3) % u64_mod + (n * n) % u64_mod / 512) % u64_mod ≡ fee n
  total = omega (arith, square_small n small, fee_small n small)

  cost_grown :
      len m < n * 32
      → memory_gas_cost size m ≡ (
        ((fee n + u64_mod - m.last_gas_cost) % u64_mod, none),
        record m { last_gas_cost = fee n },
      )
  unfolding memory_gas_cost
  cost_grown h =
      rw
        (
          words,
          some_bytes,
          ltb-false max_memory size limit,
          bytes,
          lt→ltb (len m) (n * 32) h,
          total,
        )
        refl

  cost_same : n * 32 ≤ len m → memory_gas_cost size m ≡ ((0, none), m)
  unfolding memory_gas_cost
  cost_same h =
      rw (words, some_bytes, ltb-false max_memory size limit, bytes, ltb-false (len m) (n * 32) h)
        refl

-- What an instruction that needs `size` bytes is charged, and the memory behind it.
pub record Charged (size : ℕ) (m m' : Memory) (c : Charge) : Type 0 where
  pub no_error : c.0.1 ≡ none
  pub growth : c.0.0 + fee (len m / 32) ≡ fee (len m' / 32)
  pub paid : Paid m'
  pub enough : size ≤ len m'

zero_add : (a : ℕ) → 0 + a ≡ a
zero_add a = omega arith

Charged-same :
    (extra n size : ℕ) (m : Memory)
    → Paid m
    → n * 32 ≤ len m
    → size ≤ n * 32
    → Charged size m (resize extra (n * 32) m) ((0, none), m)
Charged-same extra n size m p h k = record {
  no_error = refl;
  growth = zero_add (fee (len m / 32)) ∙ ap (λ x. fee (x / 32)) (sym same);
  paid = record {
    whole_words = ap (λ x. x) same ∙ p.whole_words ∙ ap (λ x. x / 32 * 32) (sym same);
    noted = resize_cost extra (n * 32) m ∙ p.noted ∙ ap (λ x. fee (x / 32)) (sym same);
  };
  enough = omega (arith, same);
}
  where
    same : len (resize extra (n * 32) m) ≡ len m
    same = len-resize extra (n * 32) m ∙ omega arith

Charged-grown :
    (extra n size : ℕ) (m : Memory)
    → Paid m
    → n ≤ 0xFFFF_FFFF
    → len m < n * 32
    → size ≤ n * 32
    → Charged size m
        (resize extra (n * 32) (record m { last_gas_cost = fee n }))
        (((fee n + u64_mod - m.last_gas_cost) % u64_mod, none), record m { last_gas_cost = fee n })
Charged-grown extra n size m p small h k = record {
  no_error = refl;
  growth = added ∙ sym at_end;
  paid = record {
    whole_words = omega (arith, long);
    noted = resize_cost extra (n * 32) noted ∙ sym at_end;
  };
  enough = omega (arith, long);
}
  where
    noted : Memory
    noted = record m { last_gas_cost = fee n }

    long : len (resize extra (n * 32) noted) ≡ n * 32
    long = len-resize extra (n * 32) noted ∙ omega arith

    at_end : fee (len (resize extra (n * 32) noted) / 32) ≡ fee n
    at_end = ap fee (omega (arith, long))

    added : (fee n + u64_mod - m.last_gas_cost) % u64_mod + fee (len m / 32) ≡ fee n
    added = rw p.noted (
        difference (fee n) (fee (len m / 32)) (fee_small n small)
          (fee_le (len m / 32) n (omega arith)))
      where
        difference : (a b : ℕ) → a < u64_mod → b ≤ a → (a + u64_mod - b) % u64_mod + b ≡ a
        difference a b lt le = omega arith

-- Where the fee of the whole memory, a number of words, has been noted, and up to the highest
-- size allowed, memoryGasCost returns no error and charges exactly the difference between the
-- total fee of the memory after it is resized to whole words and the total fee before, so that
-- growth in any steps costs the same; the new fee is noted, and the size fits.
pub memory_gas_cost_lem :
    (extra size : ℕ) (m : Memory)
    → Paid m
    → size ≤ max_memory
    → Charged size m
        (resize extra ((size + 31) / 32 * 32) (memory_gas_cost size m).1)
        (memory_gas_cost size m)
memory_gas_cost_lem extra size m p limit = elim (Bool-cases (size == 0)) [
  | inl e ↦
      let none_asked : size ≡ 0 = (==_iff size 0).0 e in
      rw (none_asked, cost_nothing m) (Charged-same extra 0 0 m p (omega arith) (omega arith))
  | inr e ↦
      let n = (size + 31) / 32 in
      let words : to_word_size size ≡ n = to_word_size_lem size (omega arith) in
      let small : n ≤ 0xFFFF_FFFF = omega arith in
      elim (Bool-cases (ltb (len m) (n * 32))) [
        | inl g ↦
            let grows = ltb→lt _ _ g in
            rw (cost_grown n size m words small limit e grows)
              (Charged-grown extra n size m p small grows (omega arith))
        | inr g ↦
            let fits : n * 32 ≤ len m = ground arith in
            rw (cost_same n size m words small limit e fits)
              (Charged-same extra n size m p fits (omega arith))
      ]
]

-- A larger size is refused, and the memory is left as it was.
pub memory_gas_cost_overflow :
    (size : ℕ) (m : Memory)
    → max_memory < size
    → memory_gas_cost size m ≡ ((0, some gas_uint_overflow), m)
unfolding memory_gas_cost
memory_gas_cost_overflow size m h = rw (not_zero, lt→ltb max_memory size h) refl
  where
    not_zero : (size == 0) ≡ false
    not_zero = ground arith
