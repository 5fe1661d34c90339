-- ===== src/Storage/StateDb/Steps.antt =====
-- evm/storage/statedb.go: the operations of a transaction after a snapshot, as steps.
use web.Base.{ℕ, ◌≤◌, ◌≡◌, Bool, List, ok}
use web.Storage.SortedMap.{SortedMap}
use web.Storage.Word256.{Word256}
use web.Storage.StateDb.{
  StateDb, StorageLog, get_state, set_state, get_committed_state, add_refund, sub_refund, add_log,
  snapshot, revert_to_snapshot,
}
use web.Storage.StateDb.Operations.{
  set_nonce, set_code, suicide, sub_balance, add_balance, get_balance, exist, empty, get_nonce,
  get_code, get_code_hash,
}

module _ (keccak : List ℕ → List ℕ) (w : Word256) (m : SortedMap) where
  open m use {Db}

  -- One operation of a transaction that does not revert to a snapshot below `depth`. An operation
  -- that panics ends the transaction and is no step.
  pub data Step (depth : ℕ) : StateDb Db → StateDb Db → Type 0 where
    reads_slot :
        (contract key : List ℕ) (s : StateDb Db) → Step depth s (get_state w m contract key s).1
    writes_slot :
        (contract key value : List ℕ) (s : StateDb Db)
        → Step depth s (set_state w m contract key value s)
    reads_committed :
        (addr key : List ℕ) (s : StateDb Db) → Step depth s (get_committed_state w m addr key s).1
    adds_refund : (gas : ℕ) (s : StateDb Db) → Step depth s (add_refund w m gas s)
    subs_refund : (gas : ℕ) {s t : StateDb Db} → sub_refund w m gas s ≡ ok t → Step depth s t
    sets_nonce :
        (addr : List ℕ) (nonce : ℕ) {s t : StateDb Db}
        → set_nonce keccak w m addr nonce s ≡ ok t
        → Step depth s t
    sets_code :
        (addr code : List ℕ) {s t : StateDb Db}
        → set_code keccak w m addr code s ≡ ok t
        → Step depth s t
    subs_balance :
        (addr : List ℕ) (val : ℕ) {s t : StateDb Db}
        → sub_balance keccak w m addr val s ≡ ok t
        → Step depth s t
    adds_balance :
        (addr : List ℕ) (val : ℕ) {s t : StateDb Db}
        → add_balance keccak w m addr val s ≡ ok t
        → Step depth s t
    suicides :
        (addr : List ℕ) (done : Bool) {s t : StateDb Db}
        → suicide keccak w m addr s ≡ ok (done, t)
        → Step depth s t
    reads_nonce :
        (addr : List ℕ) (r : ℕ) {s t : StateDb Db}
        → get_nonce keccak w m addr s ≡ ok (r, t)
        → Step depth s t
    reads_code :
        (addr r : List ℕ) {s t : StateDb Db}
        → get_code keccak w m addr s ≡ ok (r, t)
        → Step depth s t
    reads_code_hash :
        (addr r : List ℕ) {s t : StateDb Db}
        → get_code_hash keccak w m addr s ≡ ok (r, t)
        → Step depth s t
    reads_balance :
        (addr : List ℕ) (r : ℕ) {s t : StateDb Db}
        → get_balance keccak w m addr s ≡ ok (r, t)
        → Step depth s t
    asks_exist :
        (addr : List ℕ) (r : Bool) {s t : StateDb Db}
        → exist keccak w m addr s ≡ ok (r, t)
        → Step depth s t
    asks_empty :
        (addr : List ℕ) (r : Bool) {s t : StateDb Db}
        → empty keccak w m addr s ≡ ok (r, t)
        → Step depth s t
    logs_one : (log : StorageLog) (s : StateDb Db) → Step depth s (add_log w m log s)
    takes_snapshot : (s : StateDb Db) → Step depth s (snapshot w m s).1
    reverts :
        (idx : ℕ) {s t : StateDb Db}
        → depth ≤ idx
        → revert_to_snapshot w m idx s ≡ ok t
        → Step depth s t

  pub data Steps (depth : ℕ) (s : StateDb Db) : StateDb Db → Type 0 where
    done : Steps depth s s
    next : {t u : StateDb Db} → Steps depth s t → Step depth t u → Steps depth s u

  pub Steps-trans :
      {depth : ℕ} {s t u : StateDb Db} → Steps depth s t → Steps depth t u → Steps depth s u
  Steps-trans a done = a
  Steps-trans a (next b step) = next (Steps-trans a b) step

  pub one_step : {depth : ℕ} {s t : StateDb Db} → Step depth s t → Steps depth s t
  one_step step = next done step
