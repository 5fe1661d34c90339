-- ===== src/Evm/Gas/CallGas.antt =====
-- evm/gas.go: the gas that is passed to a call.
use web.Base.{ℕ, ◌+◌, ◌-◌, ◌/◌, ◌%◌, ◌≤◌, ◌<◌, ◌≡◌, true, none, min, arith}
use web.Base.Bytes.{u64_mod}
use web.Evm.Word.{Word}
use web.Evm.Gas.{call_gas}

-- All but one 64th of what is left behind the base fee.
abbrev pub available_for_call : ℕ → ℕ → ℕ
available_for_call available base = available - base - (available - base) / 64

-- After EIP-150, where the base fee is covered by the uint64 gas available, callGas returns no
-- error and passes on the gas asked for, at most all but one 64th of what is left behind the base
-- fee.
pub call_gas_lem :
    (w : Word) (available base call_cost : ℕ)
    → available < u64_mod
    → base ≤ available
    → call_gas w true available base call_cost
      ≡ (min call_cost (available_for_call available base), none)
unfolding call_gas
call_gas_lem w available base call_cost small covered =
    rw (w.is_uint64_lem call_cost, w.uint64_truncates call_cost, left) (ground arith)
  where
    left : (available + u64_mod - base) % u64_mod ≡ available - base
    left = omega arith
