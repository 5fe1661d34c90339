-- ===== src/Tracker/Entry.antt =====
-- tracker/store/store.go: the store of a filter's logs.
use web.Base.{
  ℕ, ◌≤◌, ◌<◌, ◌≡◌, List, ◌++◌, Option, some, length, get_elem?, take, Outcome, ok, panic,
}

-- The fields of a web3.Log that the tracker reads, and the index that tells logs of a block apart.
pub record Log : Type 0 where
  pub block_number : ℕ
  pub block_hash : ℕ
  pub log_index : ℕ

-- store.Entry and what its methods promise when they return no error; none is an error.
pub record Entry : Type 1 where
  pub State : Type 0
  pub logs : State → List Log
  pub last_index : State → Option ℕ
  pub store_logs : State → List Log → Option State
  pub remove_logs : State → ℕ → Outcome (Option State)
  pub get_log : State → ℕ → Outcome (Option Log)
  pub last_index_lem : (s : State) (n : ℕ) → last_index s ≡ some n → n ≡ length (logs s)
  pub store_logs_lem :
      (s s' : State) (added : List Log) → store_logs s added ≡ some s' → logs s' ≡ logs s ++ added
  pub remove_logs_lem :
      (s s' : State) (i : ℕ) → remove_logs s i ≡ ok (some s') → logs s' ≡ take i (logs s)
  pub remove_logs-ne-panic : (s : State) (i : ℕ) → i ≤ length (logs s) → remove_logs s i ≡ panic → ⊥
  pub get_log_lem :
      (s : State) (i : ℕ) (log : Log)
      → get_log s i ≡ ok (some log)
      → get_elem? (logs s) i ≡ some log
  pub get_log-ne-panic : (s : State) (i : ℕ) → i < length (logs s) → get_log s i ≡ panic → ⊥
