-- ===== src/Results/Examples.antt =====
-- types.go: its theorem at a concrete revert.
use web.Base.{ℕ, ◌≡◌, [], ◌∷◌, some, replicate, ok, arith}
use web.Results.{new_execution_result}
use web.Results.Reasons.{encoded_reason, new_execution_result-encoded_reason}

new_execution_result-encoded_reason_example :
    new_execution_result ℕ
      (λ e. e ∷ [])
      (7 ∷ [])
      90
      (some 5)
      (encoded_reason (111 ∷ 104 ∷ []) (replicate 30 0))
    ≡ ok (record {
      used_gas = 90;
      err = some 5;
      return_data = encoded_reason (111 ∷ 104 ∷ []) (replicate 30 0);
      revert_reason = 111 ∷ 104 ∷ [];
    })
new_execution_result-encoded_reason_example =
    new_execution_result-encoded_reason ℕ (λ e. e ∷ []) (7 ∷ []) (111 ∷ 104 ∷ []) (replicate 30 0)
      90 5 (omega arith)
