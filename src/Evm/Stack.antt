-- ===== src/Evm/Stack.antt =====
-- evm/stack.go and evm/stack_table.go: the operand stack and its bounds. The head of the list is
-- the top, the last element of the slice.
pub mod Limits
use web.Base.{
  ℕ, ◌+◌, ◌-◌, List, [], ◌∷◌, ◌++◌, Option, none, some, if◌then◌else◌, length, get_elem?, set,
  Outcome, ok, panic, ◌>>=◌, ltb,
}

pub record Stack : Type 0 where
  pub items : List ℕ

abbrev pub len : Stack → ℕ
len st = length st.items

unfoldable pub push : ℕ → Stack → Stack
push d st = record { items = d ∷ st.items }

unfoldable pub pop : Stack → Outcome (ℕ × Stack)
pop st = elim (st.items) [ [] ↦ panic | x ∷ rest ↦ ok (x, record { items = rest }) ]

-- Back: the n'th item from the top.
unfoldable pub back : ℕ → Stack → Outcome ℕ
back n st = elim (get_elem? st.items n) [ none ↦ panic | some x ↦ ok x ]

unfoldable pub peek : Stack → Outcome ℕ
peek st = back 0 st

-- The item at `len - n`, which does not exist for an `n` of 0 or beyond the length.
unfoldable pub at_depth : ℕ → Stack → Outcome ℕ
at_depth n st = if ltb n 1 then panic else back (n - 1) st

unfoldable pub swap : ℕ → Stack → Outcome Stack
swap n st = at_depth n st >>= λ x.
    peek st >>= λ top. ok (record { items = set (set st.items (n - 1) top) 0 x })

unfoldable pub dup : ℕ → Stack → Outcome Stack
dup n st = at_depth n st >>= λ x. ok (push x st)

abbrev pub stack_limit : ℕ
stack_limit = 1024

unfoldable pub max_stack : ℕ → ℕ → ℕ
max_stack pops pushes = stack_limit + pops - pushes

unfoldable pub min_stack : ℕ → ℕ → ℕ
min_stack pops pushes = pops

unfoldable pub min_swap_stack : ℕ → ℕ
min_swap_stack n = min_stack n n

unfoldable pub max_swap_stack : ℕ → ℕ
max_swap_stack n = max_stack n n

unfoldable pub min_dup_stack : ℕ → ℕ
min_dup_stack n = min_stack n (n + 1)

unfoldable pub max_dup_stack : ℕ → ℕ
max_dup_stack n = max_stack n (n + 1)
