-- ===== src/Storage/StateDb/FrameOps.antt =====
-- evm/storage/statedb.go: the frame of each operation on accounts and slots.
use web.Base.{ℕ, List, Option, none, some, Outcome, ok, panic, ◌>>=◌, Post, Post-bind}
use web.Storage.SortedMap.{SortedMap}
use web.Storage.Store.{Error}
use web.Storage.Cache.{CacheDb}
use web.Storage.Word256.{Word256}
use web.Storage.Account
use web.Storage.Account.{EthAccount, zero_account, is_empty}
use web.Storage.StateDb.{
  StateDb, subtracted, added, handle_sub_balance, handle_add_balance, record_error,
}
use web.Storage.StateDb.Operations.{
  get_account, put_account, set_nonce, set_code, handled, sub_balance, add_balance,
}
use web.Storage.StateDb.Frame.{
  KeepsBackend, SameFrame, SameFrame-trans, cache_frame, record_error-KeepsBackend,
  get_eth_account-KeepsBackend, put_eth_account-KeepsBackend, change_balance-KeepsBackend,
}

module _ (keccak : List ℕ → List ℕ) (w : Word256) (m : SortedMap) where
  open m use {Db}

  abbrev pub Frame : StateDb Db → StateDb Db → Type 0
  Frame s t = SameFrame w m s t

  -- A call that returns a state, or a state behind a result, keeps the frame of `s`.
  abbrev pub Frames : StateDb Db → Outcome (StateDb Db) → Type 0
  Frames s r = Post (Frame s) r

  abbrev pub FramesAfter {ℓ} : {A : Type ℓ} → StateDb Db → Outcome (A × StateDb Db) → Type 0
  FramesAfter {A} s r = Post (λ (x : A × StateDb Db). Frame s x.1) r

  pub get_account-Frames :
      (addr : List ℕ) (s : StateDb Db) → FramesAfter s (get_account keccak w m addr s)
  unfolding get_account
  get_account-Frames addr s =
      Post-bind (λ (r : (EthAccount × Option Error) × CacheDb Db). KeepsBackend w m s.cache_db r.1)
        (λ (x : EthAccount × StateDb Db). Frame s x.1) (Account.get_eth_account w m addr s.cache_db)
        _ (get_eth_account-KeepsBackend w m addr s.cache_db) after
    where
      after :
          (r : (EthAccount × Option Error) × CacheDb Db)
          → KeepsBackend w m s.cache_db r.1
          → FramesAfter s (elim r.0.1 [
            | some e ↦ ok (zero_account, record s { cache_db = record_error w m (some e) r.1 })
            | none ↦ ok (r.0.0, record s { cache_db = r.1 })
          ])
      after ((a, some e), d) k =
          cache_frame w m s (record_error w m (some e) d)
            (record_error-KeepsBackend w m (some e) s.cache_db d k)
      after ((a, none), d) k = cache_frame w m s d k

  put_account-Frames :
      (addr : List ℕ) (a : EthAccount) (s : StateDb Db) → Frames s (put_account keccak w m addr a s)
  unfolding put_account
  put_account-Frames addr a s =
      Post-bind (KeepsBackend w m s.cache_db) (Frame s)
        (Account.put_eth_account w m addr a s.cache_db) _
        (put_eth_account-KeepsBackend w m addr a s.cache_db) (λ c k. cache_frame w m s c k)

  -- Reading an account, then a call that keeps the frame.
  then-Frames :
      (addr : List ℕ) (s : StateDb Db) (f : EthAccount × StateDb Db → Outcome (StateDb Db))
      → ((r : EthAccount × StateDb Db) → Frames r.1 (f r))
      → Frames s (get_account keccak w m addr s >>= f)
  then-Frames addr s f h =
      Post-bind (λ (x : EthAccount × StateDb Db). Frame s x.1) (Frame s)
        (get_account keccak w m addr s) f (get_account-Frames addr s) (λ r k. extend k (f r) (h r))
    where
      extend : {t : StateDb Db} → Frame s t → (r : Outcome (StateDb Db)) → Frames t r → Frames s r
      extend k (ok u) h' = SameFrame-trans w m k h'
      extend k panic h' = tt

  pub set_nonce-Frames :
      (addr : List ℕ) (nonce : ℕ) (s : StateDb Db) → Frames s (set_nonce keccak w m addr nonce s)
  unfolding set_nonce
  set_nonce-Frames addr nonce s =
      then-Frames addr s _ (λ r. put_account-Frames addr (record (r.0) { nonce = nonce }) r.1)

  pub set_code-Frames :
      (addr code : List ℕ) (s : StateDb Db) → Frames s (set_code keccak w m addr code s)
  unfolding set_code
  set_code-Frames addr code s =
      then-Frames addr s _
        (λ r. put_account-Frames addr (record (r.0) { code_hash = keccak code; code = code }) r.1)

  pub handled-Frame :
      (s : StateDb Db) (h : Option Error × CacheDb Db)
      → KeepsBackend w m s.cache_db h.1
      → Frame s (handled keccak w m s h)
  unfolding handled
  handled-Frame s (e, c) k =
      cache_frame w m s (record_error w m e c) (record_error-KeepsBackend w m e s.cache_db c k)

  handle-Frames :
      (s : StateDb Db) (r : Outcome (Option Error × CacheDb Db))
      → Post (λ (h : Option Error × CacheDb Db). KeepsBackend w m s.cache_db h.1) r
      → Frames s (r >>= λ h. ok (handled keccak w m s h))
  handle-Frames s r k =
      Post-bind (λ (h : Option Error × CacheDb Db). KeepsBackend w m s.cache_db h.1) (Frame s) r _ k
        (λ h kh. handled-Frame s h kh)

  pub sub_balance-Frames :
      (addr : List ℕ) (val : ℕ) (s : StateDb Db) → Frames s (sub_balance keccak w m addr val s)
  unfolding sub_balance handle_sub_balance
  sub_balance-Frames addr val s =
      handle-Frames s _ (change_balance-KeepsBackend w m (subtracted w m val) addr s.cache_db)

  pub add_balance-Frames :
      (addr : List ℕ) (val : ℕ) (s : StateDb Db) → Frames s (add_balance keccak w m addr val s)
  unfolding add_balance handle_add_balance
  add_balance-Frames addr val s =
      handle-Frames s _ (change_balance-KeepsBackend w m (added w m val) addr s.cache_db)
