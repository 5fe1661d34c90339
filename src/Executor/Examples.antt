-- ===== src/Executor/Examples.antt =====
-- executor/state_transition.go: its theorems at concrete inputs.
use web.Base.{◌+◌, ◌≡◌, true, false, [], ◌∷◌, some, replicate, Post, arith}
use web.Storage.SortedMap.{reference}
use web.Storage.Word256.{words}
use web.Evm.Calls.Examples.{state, hash_of, reverting, reverting-IsContained}
use web.Executor.Transition.{Message, intrinsic_gas, transition_db}
use web.Executor.Transition.Settled.{IsSettled, transition_db-IsSettled}
use web.Executor.Transition.Intrinsic.{base_cost, byte_price, data_cost, checked, intrinsic_gas_lem}

intrinsic_gas_example :
    intrinsic_gas (1 ∷ 0 ∷ []) false true true
    ≡ checked (base_cost false true + data_cost (byte_price true) (1 ∷ 0 ∷ []))
intrinsic_gas_example = intrinsic_gas_lem (1 ∷ 0 ∷ []) false true true

abbrev msg : Message
msg = record {
  from = replicate 20 1;
  to = some (replicate 20 2);
  gas_price = 2;
  gas = 40000;
  value = 0;
  nonce = 3;
  check_nonce = true;
  input = [];
}

transition_db-IsSettled_example :
    Post (IsSettled hash_of words reference true true msg (replicate 20 2) state) (
      transition_db hash_of words reference reverting
        (λ a n. a)
        true
        true
        msg
        (replicate 20 2)
        state)
transition_db-IsSettled_example =
    transition_db-IsSettled hash_of words reference reverting reverting-IsContained (λ a n. a) true
      true msg (replicate 20 2) state (omega arith)
