-- ===== src/Storage/StateDb.antt =====
-- evm/storage/statedb.go: the state of one transaction.
-- Addresses and hashes are byte lists of 20 and 32 bytes; `Suicided`, a map whose values are all
-- true, is the list of its keys, and `txIndex`, which nothing sets, is left out. A big.Int that is not negative is a number.
pub mod Operations
pub mod Frame
pub mod FrameOps
pub mod FrameResults
pub mod Steps
pub mod Guards
pub mod Revert
pub mod Slots
use web.Base.{
  ℕ, suc, ◌+◌, ◌-◌, ◌%◌, ◌≡◌, refl, Bool, true, false, ◌&&◌, ◌||◌, not, List, [], ◌∷◌, ◌++◌, Option,
  none, some, if◌then◌else◌, length, ltb, leb, ◌==◌, take, drop, get_elem?, replicate, Outcome, ok,
  panic, ◌>>=◌,
}
use web.Base.Bytes.{u64_mod}
use web.Base.Keys.{bytes_eq}
use web.Storage.SortedMap.{SortedMap}
use web.Storage.Store.{Error}
use web.Storage.Overlay
use web.Storage.Cache
use web.Storage.Cache.{CacheDb, gen_account_state_key}
use web.Storage.Word256.{Word256}
use web.Storage.Account
use web.Storage.Account.{EthAccount, zero_account, is_empty}

pub record StorageLog : Type 0 where
  pub address : List ℕ
  pub topics : List (List ℕ)
  pub bytes : List ℕ

pub record Snapshot (Db : Type 0) : Type 0 where
  pub changes : Db
  pub suicided : List (List ℕ)
  pub logs_size : ℕ
  pub refund : ℕ

pub record StateDb (Db : Type 0) : Type 0 where
  pub cache_db : CacheDb Db
  pub suicided : List (List ℕ)
  pub logs : List StorageLog
  pub thash : List ℕ
  pub bhash : List ℕ
  pub refund : ℕ
  pub snapshots : List (Snapshot Db)

unfoldable pub contains : List ℕ → List (List ℕ) → Bool
contains a [] = false
contains a (b ∷ bs) = bytes_eq a b || contains a bs

-- `m[a] = true`
unfoldable pub add_key : List ℕ → List (List ℕ) → List (List ℕ)
add_key a bs = if contains a bs then bs else a ∷ bs

-- web3.BytesToHash: the last 32 bytes, padded with zeros on the left.
unfoldable pub bytes_to_hash : List ℕ → List ℕ
bytes_to_hash b =
    let cut = if ltb 32 (length b) then drop (length b - 32) b else b in
    replicate (32 - length cut) 0 ++ cut

unfoldable pub gen_key : List ℕ → List ℕ → List ℕ
gen_key contract key = contract ++ key

module _ (w : Word256) (m : SortedMap) where
  open m use {Db, get as db_get}

  unfoldable pub new_state_db : CacheDb Db → List ℕ → List ℕ → StateDb Db
  new_state_db cache_db thash bhash = record {
    cache_db = cache_db;
    suicided = [];
    logs = [];
    thash = thash;
    bhash = bhash;
    refund = 0;
    snapshots = [];
  }

  unfoldable pub prepare : List ℕ → List ℕ → StateDb Db → StateDb Db
  prepare thash bhash self = record self { thash = thash; bhash = bhash }

  -- the default balanceHandle

  unfoldable pub change_balance :
      (Option ℕ → Outcome ℕ) → List ℕ → CacheDb Db → Outcome (Option Error × CacheDb Db)
  change_balance change addr cache = Account.get_eth_account w m addr cache >>= λ r. elim r.0.1 [
    | some e ↦ ok (some e, r.1)
    | none ↦ change r.0.0.balance >>= λ balance.
        Account.put_eth_account w m addr (record (r.0.0) { balance = some balance }) r.1 >>= λ c.
        ok (none, c)
  ]

  -- `acct.Balance.Sub(acct.Balance, value)` panics on a nil balance.
  unfoldable pub subtracted : ℕ → Option ℕ → Outcome ℕ
  subtracted val none = panic
  subtracted val (some b) = ok (w.sub b (w.from_big val))

  unfoldable pub added : ℕ → Option ℕ → Outcome ℕ
  added val none = panic
  added val (some b) = ok (w.add b (w.from_big val))

  unfoldable pub handle_sub_balance : List ℕ → ℕ → CacheDb Db → Outcome (Option Error × CacheDb Db)
  handle_sub_balance addr val cache = change_balance (subtracted val) addr cache

  unfoldable pub handle_add_balance : List ℕ → ℕ → CacheDb Db → Outcome (Option Error × CacheDb Db)
  handle_add_balance addr val cache = change_balance (added val) addr cache

  unfoldable pub handle_set_balance : List ℕ → ℕ → CacheDb Db → Outcome (Option Error × CacheDb Db)
  handle_set_balance addr val cache = change_balance (λ _. ok (w.from_big val)) addr cache

  -- `acct.Balance.ToBig()` panics on a nil balance.
  unfoldable pub handle_get_balance :
      List ℕ → CacheDb Db → Outcome ((ℕ × Option Error) × CacheDb Db)
  handle_get_balance addr cache = Account.get_eth_account w m addr cache >>= λ r. elim r.0.1 [
    | some e ↦ ok ((0, some e), r.1)
    | none ↦ elim r.0.0.balance [ none ↦ panic | some b ↦ ok ((b, none), r.1) ]
  ]

  -- refunds

  unfoldable pub add_refund : ℕ → StateDb Db → StateDb Db
  add_refund gas self = record self { refund = (self.refund + gas) % u64_mod }

  unfoldable pub sub_refund : ℕ → StateDb Db → Outcome (StateDb Db)
  sub_refund gas self =
      if ltb self.refund gas then panic else ok (record self { refund = self.refund - gas })

  -- contract storage

  -- An error is recorded on the overlay, and the value read is then empty.
  unfoldable pub record_error : Option Error → CacheDb Db → CacheDb Db
  record_error none c = c
  record_error (some e) c = Cache.set_db_err m e c

  unfoldable pub get_state : List ℕ → List ℕ → StateDb Db → List ℕ × StateDb Db
  get_state contract key self =
      let (answer, c) = Cache.get m (gen_key contract key) self.cache_db in
      (bytes_to_hash answer.0, record self { cache_db = record_error answer.1 c })

  unfoldable pub set_state : List ℕ → List ℕ → List ℕ → StateDb Db → StateDb Db
  set_state contract key value self = record self {
    cache_db = Cache.put m (gen_key contract key) value self.cache_db;
  }

  unfoldable pub get_committed_state : List ℕ → List ℕ → StateDb Db → List ℕ × StateDb Db
  get_committed_state addr key self =
      let (answer, backend) =
        Overlay.get m (gen_account_state_key addr key) self.cache_db.backend in
      let c = record (self.cache_db) { backend = backend } in
      (bytes_to_hash answer.0, record self { cache_db = record_error answer.1 c })

  -- logs, snapshots

  unfoldable pub add_log : StorageLog → StateDb Db → StateDb Db
  add_log log self = record self { logs = self.logs ++ log ∷ [] }

  -- The maps of a snapshot are copies.
  unfoldable pub take_snapshot : StateDb Db → Snapshot Db
  take_snapshot self = record {
    changes = self.cache_db.memdb;
    suicided = self.suicided;
    logs_size = length self.logs;
    refund = self.refund;
  }

  unfoldable pub snapshot : StateDb Db → ℕ × StateDb Db
  snapshot self =
      (length self.snapshots, record self { snapshots = self.snapshots ++ take_snapshot self ∷ [] })

  unfoldable pub restore : Snapshot Db → ℕ → StateDb Db → StateDb Db
  restore sn idx self = record self {
    snapshots = take idx self.snapshots;
    cache_db = record (self.cache_db) { memdb = sn.changes };
    suicided = sn.suicided;
    refund = sn.refund;
    logs = take sn.logs_size self.logs;
  }

  unfoldable pub revert_to_snapshot : ℕ → StateDb Db → Outcome (StateDb Db)
  revert_to_snapshot idx self = elim (get_elem? self.snapshots idx) [
    | none ↦ panic
    | some sn ↦ ok (restore sn idx self)
  ]
