-- ===== src/Evm/Examples.antt =====
-- Concrete runs of evm, and its theorems at concrete inputs.
use web.Base.{
  ℕ, ◌+◌, ◌/◌, ◌<◌, ◌≤◌, ◌≡◌, refl, true, false, not, List, [], ◌∷◌, none, some, length, replicate,
  get_elem?, ok, arith,
}
use web.Base.Bytes.{u64_mod}
use web.Storage.SortedMap.{find}
use web.Storage.Account.{zero_hash}
use web.Evm.Word.{documented}
use web.Evm.Analysis.{code_bitmap, code_segment, push_size}
use web.Evm.Analysis.Correct.{is_data, code_bitmap_lem}
use web.Evm.Contract.{Contract, valid_jumpdest, jumpdest}
use web.Evm.Contract.Jumps.{Remembers, SameCode, is_instruction, valid_jumpdest_lem}
use web.Evm.Memory.{Memory, set_memory, resize, get_copy, len}
use web.Evm.Memory.Regions.{Written, set_memory_lem, resize_lem}
use web.Evm.Stack.{
  Stack, dup, swap, push, min_dup_stack, max_dup_stack, min_swap_stack, max_swap_stack, min_stack,
  max_stack,
}
use web.Evm.Stack.Limits.{dup_lem, swap_lem, exchanged}
use web.Evm.Sizes.Larger.{Covers, memory_call-Covers}
use web.Evm.Sizes.{memory_call, memory_delegate_call, calc_mem_size64, get_data, to_word_size}
use web.Evm.Sizes.Bounds.{calc_mem_size64_lem, get_data_lem, to_word_size_lem, needed, IsRead}

-- PUSH2 0x5b5b, JUMPDEST: the bytes 1 and 2 are data.
abbrev program : List ℕ
program = 0x61 ∷ 0x5b ∷ 0x5b ∷ 0x5b ∷ []

data_of_program : (is_data 0 program 2 ≡ true) × (is_data 0 program 3 ≡ false)
unfolding is_data push_size
data_of_program = (refl, refl)

code_bitmap_example :
    (bits : List ℕ) × (code_bitmap program ≡ ok bits)
    × ((q : ℕ) → q < 4 → code_segment q bits ≡ ok (not (is_data 0 program q)))
code_bitmap_example = code_bitmap_lem program

abbrev init_code : Contract
init_code = record {
  caller_address = [];
  self_address = [];
  jumpdests = [];
  analysis = none;
  code = program;
  code_hash = zero_hash;
  code_addr = none;
  input = [];
  gas = 100;
  value = 0;
}

init_code-Remembers : Remembers init_code
unfolding find
init_code-Remembers = record { own = λ bits e. cc; shared = λ bits h e. cc }

valid_jumpdest_example :
    (c' : Contract) × (valid_jumpdest documented 3 init_code
      ≡ ok (is_instruction jumpdest program 3, c'))
    × SameCode init_code c'
valid_jumpdest_example = valid_jumpdest_lem init_code init_code-Remembers documented 3 (omega arith)

abbrev eight_bytes : Memory
eight_bytes = record { store = replicate 8 1; spare = replicate 4 0; last_gas_cost = 0 }

set_memory_example :
    (m' : Memory) × (set_memory 2 3 (7 ∷ 8 ∷ 9 ∷ []) eight_bytes ≡ ok m')
    × Written 2 (7 ∷ 8 ∷ 9 ∷ []) eight_bytes m'
set_memory_example = set_memory_lem 2 (7 ∷ 8 ∷ 9 ∷ []) eight_bytes (omega arith) (omega arith)

resize_example :
    (8 ≤ len (resize 0 20 eight_bytes))
    × (20 ≤ len (resize 0 20 eight_bytes))
    × ((o s : ℕ) → o + s ≤ 8 → get_copy o s (resize 0 20 eight_bytes) ≡ get_copy o s eight_bytes)
    × ((o s : ℕ) → 8 ≤ o → o + s ≤ 20 → get_copy o s (resize 0 20 eight_bytes) ≡ ok (replicate s 0))
resize_example = resize_lem 0 20 eight_bytes

abbrev three_items : Stack
three_items = record { items = 10 ∷ 20 ∷ 30 ∷ [] }

low_dup : min_dup_stack 2 ≤ 3
unfolding min_dup_stack min_stack
low_dup = omega arith

high_dup : 3 ≤ max_dup_stack 2
unfolding max_dup_stack max_stack
high_dup = omega arith

low_swap : min_swap_stack 3 ≤ 3
unfolding min_swap_stack min_stack
low_swap = omega arith

high_swap : 3 ≤ max_swap_stack 3
unfolding max_swap_stack max_stack
high_swap = omega arith

dup_example :
    (x : ℕ) × (get_elem? (10 ∷ 20 ∷ 30 ∷ []) 1 ≡ some x)
    × (dup 2 three_items ≡ ok (push x three_items))
    × (length ((push x three_items).items) ≤ 1024)
dup_example = dup_lem 2 three_items (omega arith) low_dup high_dup

swap_example :
    (st' : Stack) × (swap 3 three_items ≡ ok st')
    × (length st'.items ≡ 3)
    × (length st'.items ≤ 1024)
    × ((i : ℕ) → get_elem? st'.items i ≡ get_elem? (10 ∷ 20 ∷ 30 ∷ []) (exchanged 2 i))
swap_example = swap_lem 3 three_items (omega arith) low_swap high_swap

calc_mem_size64_example :
    (needed 64 32 < u64_mod → calc_mem_size64 documented 64 32 ≡ (needed 64 32, false))
    × (u64_mod ≤ needed 64 32 → (calc_mem_size64 documented 64 32).1 ≡ true)
calc_mem_size64_example = calc_mem_size64_lem documented 64 32

get_data_example : IsRead (1 ∷ 2 ∷ 3 ∷ []) 2 4 (get_data (1 ∷ 2 ∷ 3 ∷ []) 2 4)
get_data_example = get_data_lem (1 ∷ 2 ∷ 3 ∷ []) 2 4 (omega arith) (omega arith)

to_word_size_example : to_word_size 33 ≡ (33 + 31) / 32
to_word_size_example = to_word_size_lem 33 (omega arith)

-- The gas, the address, the value, 64 bytes from 0 for the input and 32 from 96 for the output.
abbrev call_items : Stack
call_items = record { items = 90 ∷ 2 ∷ 0 ∷ 0 ∷ 64 ∷ 96 ∷ 32 ∷ [] }

abbrev delegate_items : Stack
delegate_items = record { items = 90 ∷ 2 ∷ 0 ∷ 64 ∷ 96 ∷ 32 ∷ [] }

memory_call-Covers_example :
    Covers call_items 3 (memory_call documented call_items)
    × Covers delegate_items 2 (memory_delegate_call documented delegate_items)
memory_call-Covers_example =
    memory_call-Covers documented call_items delegate_items (omega arith) (omega arith)
