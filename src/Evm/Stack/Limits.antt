-- ===== src/Evm/Stack/Limits.antt =====
-- evm/stack.go: dup and swap within the bounds of evm/stack_table.go.
use web.Base.{
  ℕ, zero, suc, ◌-◌, ◌≤◌, ◌<◌, ◌≡◌, refl, sym, ap, ◌∙◌, List, some, length, get_elem?, set, ok,
  arith, length-set, if◌then◌else◌, ltb-false, true, false, Bool-cases, ==_iff, ◌==◌, inl, inr,
}
use web.Base.Indices.{get_elem?-set, get_elem?-set_ne, get_elem?-lt}
use web.Evm.Stack.{
  Stack, len, push, back, peek, at_depth, swap, dup, stack_limit, max_stack, min_stack,
  min_swap_stack, max_swap_stack, min_dup_stack, max_dup_stack,
}

pub back-some : (n x : ℕ) (st : Stack) → get_elem? st.items n ≡ some x → back n st ≡ ok x
unfolding back
back-some n x st e = rw (e, back)

peek-some : (x : ℕ) (st : Stack) → get_elem? st.items 0 ≡ some x → peek st ≡ ok x
unfolding peek
peek-some x st e = back-some 0 x st e

at_depth_lem :
    (n : ℕ) (st : Stack)
    → 1 ≤ n
    → n ≤ len st
    → (x : ℕ) × (get_elem? st.items (n - 1) ≡ some x) × (at_depth n st ≡ ok x)
unfolding at_depth
at_depth_lem n st h k =
    let (x, e) = get_elem?-lt st.items (n - 1) (omega arith) in
    (x, e, rw (ltb-false n 1 h) (back-some (n - 1) x st e))

-- For an n of 1 or more, between the bounds of the stack table, dup does not panic, pushes the
-- n'th item, counted from 1 at the top, and does not exceed the stack limit.
pub dup_lem :
    (n : ℕ) (st : Stack)
    → 1 ≤ n
    → min_dup_stack n ≤ len st
    → len st ≤ max_dup_stack n
    → (x : ℕ) × (get_elem? st.items (n - 1) ≡ some x)
      × (dup n st ≡ ok (push x st))
      × (len (push x st) ≤ stack_limit)
unfolding min_dup_stack max_dup_stack min_stack max_stack dup push
dup_lem n st h low high = let (x, e, d) = at_depth_lem n st h low in (x, e, rw d refl, omega arith)

-- The index that an item comes from when the top and the item at `k` are exchanged.
unfoldable pub exchanged : ℕ → ℕ → ℕ
exchanged k i = if i == 0 then k else if i == k then 0 else i

get_elem?-exchanged :
    (k x top : ℕ) (xs : List ℕ) (i : ℕ)
    → k < length xs
    → get_elem? xs k ≡ some x
    → get_elem? xs 0 ≡ some top
    → get_elem? (set (set xs k top) 0 x) i ≡ get_elem? xs (exchanged k i)
unfolding exchanged
get_elem?-exchanged k x top xs zero inside at_k at_top =
    get_elem?-set (set xs k top) 0 x (omega (arith, length-set xs k top)) ∙ sym at_k
get_elem?-exchanged k x top xs (suc i) inside at_k at_top =
    get_elem?-set_ne (set xs k top) 0 (suc i) x (λ e. omega arith)
    ∙ elim (Bool-cases (suc i == k)) [
      | inl e ↦
          let same : suc i ≡ k = (==_iff (suc i) k).0 e in
          ap (get_elem? (set xs k top)) same
          ∙ get_elem?-set xs k top inside
          ∙ sym at_top
          ∙ ap (get_elem? xs) (goes_top e)
      | inr e ↦ get_elem?-set_ne xs k (suc i) top (λ s. ground arith) ∙ ap (get_elem? xs) (stays e)
    ]
  where
    goes_top : (suc i == k) ≡ true → 0 ≡ exchanged k (suc i)
    goes_top e = ground arith

    stays : (suc i == k) ≡ false → suc i ≡ exchanged k (suc i)
    stays e = ground arith

-- For an n of 1 or more, between the bounds of the stack table, swap returns a stack of the same
-- length within the limit, in which the top and the n'th item, counted from 1 at the top, are
-- exchanged and every other item is in its place.
pub swap_lem :
    (n : ℕ) (st : Stack)
    → 1 ≤ n
    → min_swap_stack n ≤ len st
    → len st ≤ max_swap_stack n
    → (st' : Stack) × (swap n st ≡ ok st')
      × (len st' ≡ len st)
      × (len st' ≤ stack_limit)
      × ((i : ℕ) → get_elem? st'.items i ≡ get_elem? st.items (exchanged (n - 1) i))
unfolding min_swap_stack max_swap_stack min_stack max_stack swap
swap_lem n st h low high =
    let (x, e, d) = at_depth_lem n st h low in
    let (top, e') = get_elem?-lt st.items 0 (omega arith) in
    let long : length (set (set st.items (n - 1) top) 0 x) ≡ length st.items =
      length-set (set st.items (n - 1) top) 0 x ∙ length-set st.items (n - 1) top in
    (
      record { items = set (set st.items (n - 1) top) 0 x },
      rw (d, peek-some top st e') refl,
      long,
      omega (arith, long),
      λ i. get_elem?-exchanged (n - 1) x top st.items i (omega arith) e e',
    )
