-- ===== src/Storage/StateDb/Operations.antt =====
-- evm/storage/statedb.go: the operations on accounts.
use web.Base.{
  ℕ, Bool, true, false, ◌&&◌, ◌||◌, not, List, Option, none, some, if◌then◌else◌, length, ltb, ◌==◌,
  Outcome, ok, ◌>>=◌,
}
use web.Storage.SortedMap.{SortedMap}
use web.Storage.Store.{Error}
use web.Storage.Cache.{CacheDb}
use web.Storage.Word256.{Word256}
use web.Storage.Account
use web.Storage.Account.{EthAccount, zero_account, is_empty}
use web.Storage.StateDb.{
  StateDb, contains, add_key, record_error, handle_sub_balance, handle_add_balance,
  handle_set_balance, handle_get_balance,
}

-- `keccak` is crypto.Keccak256Hash.
module _ (keccak : List ℕ → List ℕ) (w : Word256) (m : SortedMap) where
  open m use {Db}

  -- An error is recorded, and the account is then the zero value.
  unfoldable pub get_account : List ℕ → StateDb Db → Outcome (EthAccount × StateDb Db)
  get_account addr self = Account.get_eth_account w m addr self.cache_db >>= λ r. elim r.0.1 [
    | some e ↦ ok (zero_account, record self { cache_db = record_error w m (some e) r.1 })
    | none ↦ ok (r.0.0, record self { cache_db = r.1 })
  ]

  unfoldable pub put_account : List ℕ → EthAccount → StateDb Db → Outcome (StateDb Db)
  put_account addr account self = Account.put_eth_account w m addr account self.cache_db >>= λ c.
      ok (record self { cache_db = c })

  unfoldable pub get_nonce : List ℕ → StateDb Db → Outcome (ℕ × StateDb Db)
  get_nonce addr self = get_account addr self >>= λ r. ok (r.0.nonce, r.1)

  unfoldable pub set_nonce : List ℕ → ℕ → StateDb Db → Outcome (StateDb Db)
  set_nonce addr nonce self =
      get_account addr self >>= λ r. put_account addr (record (r.0) { nonce = nonce }) r.1

  unfoldable pub get_code_hash : List ℕ → StateDb Db → Outcome (List ℕ × StateDb Db)
  get_code_hash addr self = get_account addr self >>= λ r. ok (r.0.code_hash, r.1)

  unfoldable pub get_code : List ℕ → StateDb Db → Outcome (List ℕ × StateDb Db)
  get_code addr self = get_account addr self >>= λ r. ok (r.0.code, r.1)

  unfoldable pub set_code : List ℕ → List ℕ → StateDb Db → Outcome (StateDb Db)
  set_code addr code self = get_account addr self >>= λ r.
      put_account addr (record (r.0) { code_hash = keccak code; code = code }) r.1

  unfoldable pub get_code_size : List ℕ → StateDb Db → Outcome (ℕ × StateDb Db)
  get_code_size addr self = get_code addr self >>= λ r. ok (length r.0, r.1)

  unfoldable pub has_suicided : List ℕ → StateDb Db → Bool
  has_suicided addr self = contains addr self.suicided

  -- what a balance handle's error does to the state
  unfoldable pub handled : StateDb Db → Option Error × CacheDb Db → StateDb Db
  handled self (e, c) = record self { cache_db = record_error w m e c }

  unfoldable pub suicide : List ℕ → StateDb Db → Outcome (Bool × StateDb Db)
  suicide addr self = get_account addr self >>= λ r.
      if is_empty r.0
      then ok (false, r.1)
      else (let marked = record (r.1) { suicided = add_key addr r.1.suicided } in
          handle_set_balance w m addr 0 marked.cache_db >>= λ h. ok (true, handled marked h))

  unfoldable pub sub_balance : List ℕ → ℕ → StateDb Db → Outcome (StateDb Db)
  sub_balance addr val self =
      handle_sub_balance w m addr val self.cache_db >>= λ h. ok (handled self h)

  unfoldable pub add_balance : List ℕ → ℕ → StateDb Db → Outcome (StateDb Db)
  add_balance addr val self =
      handle_add_balance w m addr val self.cache_db >>= λ h. ok (handled self h)

  -- The balance and whether it could be read; an error is recorded.
  unfoldable pub read_balance : List ℕ → StateDb Db → Outcome ((ℕ × Bool) × StateDb Db)
  read_balance addr self = handle_get_balance w m addr self.cache_db >>= λ h. elim h.0.1 [
    | some e ↦ ok ((0, false), handled self (some e, h.1))
    | none ↦ ok ((h.0.0, true), handled self (none, h.1))
  ]

  unfoldable pub get_balance : List ℕ → StateDb Db → Outcome (ℕ × StateDb Db)
  get_balance addr self = read_balance addr self >>= λ h. ok (h.0.0, h.1)

  unfoldable pub exist : List ℕ → StateDb Db → Outcome (Bool × StateDb Db)
  exist addr self =
      if has_suicided addr self
      then ok (true, self)
      else (get_account addr self >>= λ r.
          read_balance addr r.1 >>= λ h. ok (h.0.1 && (not (is_empty r.0) || ltb 0 h.0.0), h.1))

  unfoldable pub empty : List ℕ → StateDb Db → Outcome (Bool × StateDb Db)
  empty addr self = get_account addr self >>= λ r.
      read_balance addr r.1 >>= λ h. ok (h.0.1 && (is_empty r.0 && (h.0.0 == 0)), h.1)
