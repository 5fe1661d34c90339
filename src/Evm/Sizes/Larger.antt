-- ===== src/Evm/Sizes/Larger.antt =====
-- evm/memory_table.go: the memory that a call needs for its input and its output.
use web.Base.{
  ℕ, ◌+◌, ◌≤◌, ◌<◌, ◌≡◌, ◌⊎◌, inl, inr, refl, Bool, true, false, Outcome, ok, get_elem?, some, ltb,
  ltb→lt, arith, Bool-cases,
}
use web.Base.Bytes.{u64_mod}
use web.Base.Indices.{get_elem?-lt}
use web.Evm.Word.{Word}
use web.Evm.Stack.{Stack, len}
use web.Evm.Stack.Limits.{back-some}
use web.Evm.Sizes.{calc_mem_size64, size_of, larger, memory_call, memory_delegate_call}
use web.Evm.Sizes.Bounds.{calc_mem_size64_lem, needed}

-- The larger of two sizes, or an overflow if one of them does not fit in a uint64.
abbrev pub IsLarger : ℕ → ℕ → Outcome (ℕ × Bool) → Type 0
IsLarger a b call =
    ((n : ℕ) × (call ≡ ok (n, false)) × ((a ≤ n) × (b ≤ n) × ((n ≡ a) ⊎ (n ≡ b))) × (n < u64_mod))
    ⊎ (((u64_mod ≤ a) ⊎ (u64_mod ≤ b)) × (call ≡ ok (0, true)))

-- A size that fits, or an overflow that is reported.
abbrev IsSize : ℕ → ℕ × Bool → Type 0
IsSize a x = ((a < u64_mod) × (x ≡ (a, false))) ⊎ ((u64_mod ≤ a) × (x.1 ≡ true))

calc_mem_size64-IsSize : (w : Word) (off l : ℕ) → IsSize (needed off l) (calc_mem_size64 w off l)
calc_mem_size64-IsSize w off l = elim (Bool-cases (ltb (needed off l) u64_mod)) [
  | inl e ↦
      let small = ltb→lt (needed off l) u64_mod e in
      inl (small, (calc_mem_size64_lem w off l).0 small)
  | inr e ↦
      let big : u64_mod ≤ needed off l = ground (arith, e) in
      inr (big, (calc_mem_size64_lem w off l).1 big)
]

larger-IsLarger :
    (w : Word) (a b : ℕ) (x y : ℕ × Bool)
    → IsSize a x
    → IsSize b y
    → IsLarger a b (larger w (ok x) (ok y))
unfolding larger
larger-IsLarger w a b x y (inr (big, over)) second = inr (inl big, rw over refl)
larger-IsLarger w a b x y (inl (small, e)) (inr (big, over)) = inr (inr big, rw (e, over) refl)
larger-IsLarger w a b x y (inl (small, e)) (inl (small', e')) = elim (Bool-cases (ltb b a)) [
  | inl more ↦ inl (a, rw (e, e', more) refl, (omega arith, ground (arith, more), inl refl), small)
  | inr less ↦ inl (b, rw (e, e', less) refl, (ground (arith, less), omega arith, inr refl), small')
]

size_of_lem :
    (w : Word) (i j off l : ℕ) (stack : Stack)
    → get_elem? stack.items i ≡ some off
    → get_elem? stack.items j ≡ some l
    → size_of w i j stack ≡ ok (calc_mem_size64 w off l)
unfolding size_of
size_of_lem w i j off l stack e e' = rw (back-some i off stack e, back-some j l stack e') refl

-- The items of a stack that say where the input and the output of a call lie.
pub record Areas (stack : Stack) (i : ℕ) : Type 0 where
  pub in_off : ℕ
  pub in_size : ℕ
  pub out_off : ℕ
  pub out_size : ℕ
  pub in_off_at : get_elem? stack.items i ≡ some in_off
  pub in_size_at : get_elem? stack.items (i + 1) ≡ some in_size
  pub out_off_at : get_elem? stack.items (i + 2) ≡ some out_off
  pub out_size_at : get_elem? stack.items (i + 3) ≡ some out_size

areas : (stack : Stack) (i : ℕ) → i + 4 ≤ len stack → Areas stack i
areas stack i h =
    let (a, e) = get_elem?-lt stack.items i (omega arith) in
    let (b, e') = get_elem?-lt stack.items (i + 1) (omega arith) in
    let (c, f) = get_elem?-lt stack.items (i + 2) (omega arith) in
    let (d, f') = get_elem?-lt stack.items (i + 3) (omega arith) in
    record {
      in_off = a;
      in_size = b;
      out_off = c;
      out_size = d;
      in_off_at = e;
      in_size_at = e';
      out_off_at = f;
      out_size_at = f';
    }

-- The larger of the two areas of a stack.
abbrev pub Covers : Stack → ℕ → Outcome (ℕ × Bool) → Type 0
Covers stack i call =
    (at : Areas stack i) × IsLarger (needed at.out_off at.out_size) (needed at.in_off at.in_size)
      call

larger-Covers :
    (w : Word) (stack : Stack) (i : ℕ)
    → i + 4 ≤ len stack
    → Covers stack i (larger w (size_of w (i + 2) (i + 3) stack) (size_of w i (i + 1) stack))
larger-Covers w stack i h =
    let at = areas stack i h in
    (
      at,
      rw
          (
            size_of_lem w (i + 2) (i + 3) at.out_off at.out_size stack at.out_off_at at.out_size_at,
            size_of_lem w i (i + 1) at.in_off at.in_size stack at.in_off_at at.in_size_at,
          )
          (larger-IsLarger w (needed at.out_off at.out_size) (needed at.in_off at.in_size) _ _
            (calc_mem_size64-IsSize w at.out_off at.out_size)
            (calc_mem_size64-IsSize w at.in_off at.in_size)),
    )

-- For stacks of 7 and 6 items or more and any 256-bit offsets and lengths on them, memoryCall,
-- and memoryDelegateCall, return the larger of the ends of the input and the output, an area of
-- no bytes counting as 0, without overflow if both are below 2^64, and report an overflow if one
-- is not.
pub memory_call-Covers :
    (w : Word) (stack shorter : Stack)
    → 7 ≤ len stack
    → 6 ≤ len shorter
    → Covers stack 3 (memory_call w stack) × Covers shorter 2 (memory_delegate_call w shorter)
unfolding memory_call memory_delegate_call
memory_call-Covers w stack shorter h h' = (larger-Covers w stack 3 h, larger-Covers w shorter 2 h')
