-- ===== src/Evm/Gas.antt =====
-- evm/gas.go and evm/gas_table.go: the gas of memory, of copied data and of calls.
pub mod MemoryFee
pub mod Sstore
pub mod Refunds
pub mod CallGas
mod Examples
use web.Base.{
  ℕ, ◌+◌, ◌-◌, ◌*◌, ◌/◌, ◌%◌, ◌^◌, ◌≤◌, Bool, true, false, ◌&&◌, ◌||◌, not, Option, none, some,
  if◌then◌else◌, ltb, leb, ◌==◌, Outcome, ok, panic, ◌>>=◌,
}
use web.Base.Bytes.{u64_mod}
use web.Evm.Word.{Word}
use web.Evm.Stack.{Stack, back}
use web.Evm.Memory.{Memory, len}
use web.Evm.Sizes.{to_word_size}

pub data GasError : Type 0 where
  gas_uint_overflow out_of_sentry_gas : GasError

-- A gas function's answer, with the memory whose fee it has noted.
abbrev pub Charge : Type 0
Charge = (ℕ × Option GasError) × Memory

-- params.MemoryGas, QuadCoeffDiv, CopyGas, LogGas, LogTopicGas, LogDataGas, Sha3WordGas.
abbrev pub memory_gas : ℕ
memory_gas = 3

abbrev pub quad_coeff_div : ℕ
quad_coeff_div = 512

abbrev pub copy_gas : ℕ
copy_gas = 3

abbrev pub log_gas : ℕ
log_gas = 375

abbrev pub log_data_gas : ℕ
log_data_gas = 8

abbrev pub sha3_word_gas : ℕ
sha3_word_gas = 6

-- math.SafeAdd and SafeMul: the low 64 bits, and whether they are not all.
unfoldable pub safe_add : ℕ → ℕ → ℕ × Bool
safe_add x y = ((x + y) % u64_mod, leb u64_mod (x + y))

unfoldable pub safe_mul : ℕ → ℕ → ℕ × Bool
safe_mul x y = ((x * y) % u64_mod, leb u64_mod (x * y))

-- The highest size of which the fee does not overflow.
abbrev pub max_memory : ℕ
max_memory = 0x1F_FFFF_FFE0

unfoldable pub memory_gas_cost : ℕ → Memory → Charge
memory_gas_cost new_mem_size mem =
    let words = to_word_size new_mem_size in
    let square = (words * words) % u64_mod in
    let total = ((words * memory_gas) % u64_mod + square / quad_coeff_div) % u64_mod in
    if new_mem_size == 0
    then ((0, none), mem)
    else if ltb max_memory new_mem_size
    then ((0, some gas_uint_overflow), mem)
    else if ltb (len mem) ((words * 32) % u64_mod)
    then (
      ((total + u64_mod - mem.last_gas_cost) % u64_mod, none),
      record mem { last_gas_cost = total },
    )
    else ((0, none), mem)

-- Where no error was met before, the sum or the overflow.
unfoldable pub and_add : ℕ → Charge → Charge
and_add more ((gas, some e), mem) = ((0, some e), mem)
and_add more ((gas, none), mem) =
    let (sum, overflow) = safe_add gas more in
    if overflow then ((0, some gas_uint_overflow), mem) else ((sum, none), mem)

module _ (w : Word) where
  open w use {uint64, is_uint64}

  -- The fee of the memory and a fee per word of the operand at `stackpos`: memoryCopierGas,
  -- gasSha3 and gasCreate2.
  unfoldable pub word_gas : ℕ → ℕ → Stack → Memory → ℕ → Outcome Charge
  word_gas per_word stackpos stack mem memory_size =
      let charge = memory_gas_cost memory_size mem in
      elim charge.0.1 [
        | some e ↦ ok ((0, some e), charge.1)
        | none ↦ back stackpos stack >>= λ operand.
            let (words, overflow) = safe_mul (to_word_size (uint64 operand)) per_word in
            if not (is_uint64 operand) || overflow
            then ok ((0, some gas_uint_overflow), charge.1)
            else ok (and_add words charge)
      ]

  unfoldable pub memory_copier_gas : ℕ → Stack → Memory → ℕ → Outcome Charge
  memory_copier_gas stackpos stack mem memory_size =
      word_gas copy_gas stackpos stack mem memory_size

  unfoldable pub gas_sha3 : Stack → Memory → ℕ → Outcome Charge
  gas_sha3 stack mem memory_size = word_gas sha3_word_gas 1 stack mem memory_size

  unfoldable pub gas_create2 : Stack → Memory → ℕ → Outcome Charge
  gas_create2 stack mem memory_size = word_gas sha3_word_gas 2 stack mem memory_size

  -- makeGasLog, for a log of `n` topics.
  unfoldable pub make_gas_log : ℕ → Stack → Memory → ℕ → Outcome Charge
  make_gas_log n stack mem memory_size = back 1 stack >>= λ requested.
      if not (is_uint64 requested)
      then ok ((0, some gas_uint_overflow), mem)
      else (let topics =
            and_add (n * log_gas) (and_add log_gas (memory_gas_cost memory_size mem)) in
          let (bytes_gas, overflow) = safe_mul (uint64 requested) log_data_gas in
          elim topics.0.1 [
            | some e ↦ ok topics
            | none ↦
                if overflow
                then ok ((0, some gas_uint_overflow), topics.1)
                else ok (and_add bytes_gas topics)
          ])

  -- callGas: all but one 64th of what is left behind the base fee, or less where less is asked
  -- for. The subtraction is in uint64.
  unfoldable pub call_gas : Bool → ℕ → ℕ → ℕ → ℕ × Option GasError
  call_gas is_eip150 available base call_cost =
      let left = (available + u64_mod - base) % u64_mod in
      let gas = left - left / 64 in
      if is_eip150 && (not (is_uint64 call_cost) || ltb gas (uint64 call_cost))
      then (gas, none)
      else if not (is_uint64 call_cost)
      then (0, some gas_uint_overflow)
      else (uint64 call_cost, none)
