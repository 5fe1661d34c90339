-- ===== src/Executor/Transition/Intrinsic.antt =====
-- executor/state_transition.go, IntrinsicGas: the sum of what each byte costs, or an overflow.
use web.Base.{
  ℕ, ◌+◌, ◌-◌, ◌*◌, ◌≤◌, ◌<◌, ◌≡◌, sym, ap, ◌∙◌, Bool, true, false, ◌&&◌, List, [], ◌∷◌, ◌==◌, ltb,
  if◌then◌else◌, length, Outcome, ok, panic, ◌>>=◌, arith,
}
use web.Base.Bytes.{u64_mod}
use web.Executor.Transition.{
  tx_gas, tx_gas_contract_creation, tx_data_zero_gas, tx_data_non_zero_gas_frontier,
  tx_data_non_zero_gas_eip2028, count_non_zero, add_data_gas, intrinsic_gas,
}

-- What the data costs, byte by byte.
abbrev pub data_cost : ℕ → List ℕ → ℕ
data_cost price [] = 0
data_cost price (byt ∷ bytes) =
    (if byt == 0 then tx_data_zero_gas else price) + data_cost price bytes

abbrev pub base_cost : Bool → Bool → ℕ
base_cost creation homestead = if creation && homestead then tx_gas_contract_creation else tx_gas

abbrev pub byte_price : Bool → ℕ
byte_price eip2028 = if eip2028 then tx_data_non_zero_gas_eip2028 else tx_data_non_zero_gas_frontier

-- A total that fits in a uint64 is returned, and any other panics.
abbrev pub checked : ℕ → Outcome ℕ
checked total = if ltb total u64_mod then ok total else panic

count_non_zero_shift :
    (n : ℕ) (bytes : List ℕ) → count_non_zero n bytes ≡ n + count_non_zero 0 bytes
unfolding count_non_zero
count_non_zero_shift n [] = omega arith
count_non_zero_shift n (byt ∷ bytes) = ground (
  arith,
  count_non_zero_shift (n + 1) bytes,
  count_non_zero_shift 1 bytes,
  count_non_zero_shift n bytes,
)

count_non_zero_le : (bytes : List ℕ) → count_non_zero 0 bytes ≤ length bytes
unfolding count_non_zero
count_non_zero_le [] = omega arith
count_non_zero_le (byt ∷ bytes) =
    ground (arith, count_non_zero_shift 1 bytes, count_non_zero_le bytes)

data_cost_eip2028 :
    (bytes : List ℕ)
    → data_cost 16 bytes ≡ count_non_zero 0 bytes * 16 + (length bytes - count_non_zero 0 bytes) * 4
unfolding count_non_zero
data_cost_eip2028 [] = omega arith
data_cost_eip2028 (byt ∷ bytes) =
    ground (arith, count_non_zero_shift 1 bytes, count_non_zero_le bytes, data_cost_eip2028 bytes)

data_cost_frontier :
    (bytes : List ℕ)
    → data_cost 68 bytes ≡ count_non_zero 0 bytes * 68 + (length bytes - count_non_zero 0 bytes) * 4
unfolding count_non_zero
data_cost_frontier [] = omega arith
data_cost_frontier (byt ∷ bytes) =
    ground (arith, count_non_zero_shift 1 bytes, count_non_zero_le bytes, data_cost_frontier bytes)

add_data_gas_twice :
    (eip2028 : Bool) (gas nz z : ℕ)
    → gas < u64_mod
    → (add_data_gas gas (byte_price eip2028) nz >>= λ g. add_data_gas g tx_data_zero_gas z)
      ≡ checked (gas + nz * byte_price eip2028 + z * 4)
unfolding add_data_gas
add_data_gas_twice true gas nz z small = ground arith
add_data_gas_twice false gas nz z small = ground arith

data_cost_regroup :
    (eip2028 : Bool) (bytes : List ℕ)
    → count_non_zero 0 bytes * byte_price eip2028 + (length bytes - count_non_zero 0 bytes) * 4
      ≡ data_cost (byte_price eip2028) bytes
data_cost_regroup true bytes = sym (data_cost_eip2028 bytes)
data_cost_regroup false bytes = sym (data_cost_frontier bytes)

-- IntrinsicGas of any data is the base cost and the sum of the prices of the single bytes, where
-- that is below 2^64, and a panic where it is not.
pub intrinsic_gas_lem :
    (bytes : List ℕ) (creation homestead eip2028 : Bool)
    → intrinsic_gas bytes creation homestead eip2028
      ≡ checked (base_cost creation homestead + data_cost (byte_price eip2028) bytes)
unfolding intrinsic_gas
intrinsic_gas_lem [] creation homestead eip2028 = ground arith
intrinsic_gas_lem (byt ∷ bytes) creation homestead eip2028 =
    let base = base_cost creation homestead in
    let nz = count_non_zero 0 (byt ∷ bytes) in
    let z = length (byt ∷ bytes) - nz in
    let regroup : base + nz * byte_price eip2028 + z * 4
        ≡ base + data_cost (byte_price eip2028) (byt ∷ bytes) =
      omega (arith, data_cost_regroup eip2028 (byt ∷ bytes)) in
    let some_bytes : ltb 0 (length (byt ∷ bytes)) ≡ true = ground arith in
    rw some_bytes (add_data_gas_twice eip2028 base nz z (ground arith) ∙ ap checked regroup)
