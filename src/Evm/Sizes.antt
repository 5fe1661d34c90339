-- ===== src/Evm/Sizes.antt =====
-- evm/common.go and evm/memory_table.go: how much memory an instruction needs, and padded reads.
pub mod Padded
pub mod Bounds
pub mod Larger
use web.Base.{
  ℕ, ◌+◌, ◌-◌, ◌*◌, ◌/◌, ◌%◌, ◌^◌, Bool, true, false, List, [], ◌∷◌, ◌++◌, if◌then◌else◌, length,
  take, drop, replicate, ltb, leb, ◌==◌, not, ◌&&◌, Outcome, ok, panic, ◌>>=◌,
}
use web.Base.Bytes.{u64_mod}
use web.Base.Int.{ℤ, pos, negsuc, int_of}
use web.Evm.Word.{Word}
use web.Evm.Stack.{Stack, back}

-- toWordSize, with `math.MaxUint64` as 2 ^ 64 - 1.
unfoldable pub to_word_size : ℕ → ℕ
to_word_size size =
    if ltb (u64_mod - 1 - 31) size then (u64_mod - 1) / 32 + 1 else ((size + 31) % u64_mod) / 32

unfoldable pub all_zero : List ℕ → Bool
all_zero [] = true
all_zero (b ∷ rest) = if not (b == 0) then false else all_zero rest

-- common.RightPadBytes. The memory is taken to suffice for `make([]byte, l)`.
unfoldable pub right_pad_bytes : List ℕ → ℤ → List ℕ
right_pad_bytes slice (pos l) =
    if leb l (length slice) then slice else slice ++ replicate (l - length slice) 0
right_pad_bytes slice (negsuc l) = slice

-- getData. The sum of start and size is in uint64, and the size is converted to an int.
unfoldable pub get_data : List ℕ → ℕ → ℕ → Outcome (List ℕ)
get_data bytes start size =
    let start' = if ltb (length bytes) start then length bytes else start in
    let sum = (start' + size) % u64_mod in
    let end = if ltb (length bytes) sum then length bytes else sum in
    if ltb end start'
    then panic
    else ok (right_pad_bytes (take (end - start') (drop start' bytes)) (int_of size))

module _ (w : Word) where
  open w use {uint64, is_uint64}

  -- calcMemSize64WithUint: the size, and whether it is too large for uint64.
  unfoldable pub calc_mem_size64_with_uint : ℕ → ℕ → ℕ × Bool
  calc_mem_size64_with_uint off length64 =
      let val = (uint64 off + length64) % u64_mod in
      if length64 == 0
      then (0, false)
      else if not (is_uint64 off)
      then (0, true)
      else (val, ltb val (uint64 off))

  unfoldable pub calc_mem_size64 : ℕ → ℕ → ℕ × Bool
  calc_mem_size64 off l =
      if not (is_uint64 l) then (0, true) else calc_mem_size64_with_uint off (uint64 l)

  -- The offset and the length lie on the stack.
  unfoldable pub size_of : ℕ → ℕ → Stack → Outcome (ℕ × Bool)
  size_of off l stack = back off stack >>= λ o. back l stack >>= λ n. ok (calc_mem_size64 o n)

  unfoldable pub fixed_size : ℕ → Stack → Outcome (ℕ × Bool)
  fixed_size n stack = back 0 stack >>= λ o. ok (calc_mem_size64_with_uint o n)

  -- The larger of two sizes, where neither overflows; the second is asked for only behind the
  -- first.
  unfoldable pub larger : Outcome (ℕ × Bool) → Outcome (ℕ × Bool) → Outcome (ℕ × Bool)
  larger first second = first >>= λ x.
      if x.1
      then ok (0, true)
      else (second >>= λ y.
          if y.1 then ok (0, true) else if ltb y.0 x.0 then ok (x.0, false) else ok (y.0, false))

  unfoldable pub memory_sha3 : Stack → Outcome (ℕ × Bool)
  memory_sha3 stack = size_of 0 1 stack

  -- memoryCallDataCopy, memoryReturnDataCopy and memoryCodeCopy.
  unfoldable pub memory_call_data_copy : Stack → Outcome (ℕ × Bool)
  memory_call_data_copy stack = size_of 0 2 stack

  unfoldable pub memory_ext_code_copy : Stack → Outcome (ℕ × Bool)
  memory_ext_code_copy stack = size_of 1 3 stack

  -- memoryMLoad and memoryMStore.
  unfoldable pub memory_mload : Stack → Outcome (ℕ × Bool)
  memory_mload stack = fixed_size 32 stack

  unfoldable pub memory_mstore8 : Stack → Outcome (ℕ × Bool)
  memory_mstore8 stack = fixed_size 1 stack

  -- memoryCreate and memoryCreate2.
  unfoldable pub memory_create : Stack → Outcome (ℕ × Bool)
  memory_create stack = size_of 1 2 stack

  unfoldable pub memory_call : Stack → Outcome (ℕ × Bool)
  memory_call stack = larger (size_of 5 6 stack) (size_of 3 4 stack)

  -- memoryDelegateCall and memoryStaticCall.
  unfoldable pub memory_delegate_call : Stack → Outcome (ℕ × Bool)
  memory_delegate_call stack = larger (size_of 4 5 stack) (size_of 2 3 stack)

  -- memoryReturn, memoryRevert and memoryLog.
  unfoldable pub memory_return : Stack → Outcome (ℕ × Bool)
  memory_return stack = size_of 0 1 stack
