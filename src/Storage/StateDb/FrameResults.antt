-- ===== src/Storage/StateDb/FrameResults.antt =====
-- evm/storage/statedb.go: the frame of the operations that return a result, and of the slots.
use web.Base.{
  ℕ, refl, Bool, true, false, ◌&&◌, ◌||◌, not, ltb, List, Option, none, some, if◌then◌else◌, ◌==◌,
  Outcome, ok, panic, ◌>>=◌, Post, Post-bind,
}
use web.Storage.SortedMap.{SortedMap}
use web.Storage.Store.{Error, st_storage}
use web.Storage.Cache
use web.Storage.Cache.{CacheDb, gen_account_state_key}
use web.Storage.Cache.View.{get-view}
use web.Storage.Word256.{Word256}
use web.Storage.Account.{EthAccount, is_empty}
use web.Storage.StateDb.{
  StateDb, handle_set_balance, handle_get_balance, get_state, set_state, get_committed_state,
  gen_key, add_key,
}
use web.Storage.StateDb.Operations.{
  get_account, handled, suicide, read_balance, get_balance, exist, empty, get_nonce, get_code,
  get_code_hash, has_suicided,
}
use web.Storage.StateDb.Frame.{
  KeepsBackend, SameFrame, SameFrame-trans, cache_frame, record_error-KeepsBackend,
  put_prefixed-KeepsBackend, get_prefixed-KeepsBackend, change_balance-KeepsBackend,
  handle_get_balance-KeepsBackend,
}
use web.Storage.StateDb.FrameOps

module _ (keccak : List ℕ → List ℕ) (w : Word256) (m : SortedMap) where
  open m use {Db}

  abbrev Frame : StateDb Db → StateDb Db → Type 0
  Frame s t = SameFrame w m s t

  abbrev pub FramesAfter {ℓ} : {A : Type ℓ} → StateDb Db → Outcome (A × StateDb Db) → Type 0
  FramesAfter {A} s r = Post (λ (x : A × StateDb Db). Frame s x.1) r

  -- Reading an account, then a call that returns a result.
  then_returns {ℓ} :
      {A : Type ℓ} (addr : List ℕ) (s : StateDb Db)
      (f : EthAccount × StateDb Db → Outcome (A × StateDb Db))
      → ((r : EthAccount × StateDb Db) → FramesAfter r.1 (f r))
      → FramesAfter s (get_account keccak w m addr s >>= f)
  then_returns {A} addr s f h =
      Post-bind (λ (x : EthAccount × StateDb Db). Frame s x.1) (λ (x : A × StateDb Db). Frame s x.1)
        (get_account keccak w m addr s) f (FrameOps.get_account-Frames keccak w m addr s)
        (λ r k. extend k (f r) (h r))
    where
      extend :
          {t : StateDb Db}
          → Frame s t
          → (r : Outcome (A × StateDb Db)) → FramesAfter t r
          → FramesAfter s r
      extend k (ok u) h' = SameFrame-trans w m k h'
      extend k panic h' = tt

  self-Frame : (s : StateDb Db) → Frame s s
  self-Frame s = cache_frame w m s s.cache_db (record { memdb_kept = refl; store_kept = refl })

  pub get_nonce-Frames :
      (addr : List ℕ) (s : StateDb Db) → FramesAfter s (get_nonce keccak w m addr s)
  unfolding get_nonce
  get_nonce-Frames addr s = then_returns addr s _ (λ r. self-Frame r.1)

  pub get_code-Frames :
      (addr : List ℕ) (s : StateDb Db) → FramesAfter s (get_code keccak w m addr s)
  unfolding get_code
  get_code-Frames addr s = then_returns addr s _ (λ r. self-Frame r.1)

  pub get_code_hash-Frames :
      (addr : List ℕ) (s : StateDb Db) → FramesAfter s (get_code_hash keccak w m addr s)
  unfolding get_code_hash
  get_code_hash-Frames addr s = then_returns addr s _ (λ r. self-Frame r.1)

  read_balance-Frames :
      (addr : List ℕ) (s : StateDb Db) → FramesAfter s (read_balance keccak w m addr s)
  unfolding read_balance
  read_balance-Frames addr s =
      Post-bind (λ (h : (ℕ × Option Error) × CacheDb Db). KeepsBackend w m s.cache_db h.1)
        (λ (x : (ℕ × Bool) × StateDb Db). Frame s x.1) (handle_get_balance w m addr s.cache_db) _
        (handle_get_balance-KeepsBackend w m addr s.cache_db) after
    where
      after :
          (h : (ℕ × Option Error) × CacheDb Db)
          → KeepsBackend w m s.cache_db h.1
          → FramesAfter {A = ℕ × Bool} s (elim h.0.1 [
            | some e ↦ ok ((0, false), handled keccak w m s (some e, h.1))
            | none ↦ ok ((h.0.0, true), handled keccak w m s (none, h.1))
          ])
      after ((b, some e), c) k = FrameOps.handled-Frame keccak w m s (some e, c) k
      after ((b, none), c) k = FrameOps.handled-Frame keccak w m s (none, c) k

  then_balance {ℓ} :
      {A : Type ℓ} (addr : List ℕ) (s : StateDb Db) (f : ℕ × Bool → A)
      → FramesAfter s (read_balance keccak w m addr s >>= λ h. ok (f h.0, h.1))
  then_balance {A} addr s f =
      Post-bind (λ (x : (ℕ × Bool) × StateDb Db). Frame s x.1) (λ (x : A × StateDb Db). Frame s x.1)
        (read_balance keccak w m addr s) (λ h. ok (f h.0, h.1)) (read_balance-Frames addr s)
        (λ r k. k)

  pub get_balance-Frames :
      (addr : List ℕ) (s : StateDb Db) → FramesAfter s (get_balance keccak w m addr s)
  unfolding get_balance
  get_balance-Frames addr s = then_balance addr s (λ h. h.0)

  pub empty-Frames : (addr : List ℕ) (s : StateDb Db) → FramesAfter s (empty keccak w m addr s)
  unfolding empty
  empty-Frames addr s =
      then_returns addr s _ (λ r. then_balance addr r.1 (λ h. h.1 && (is_empty r.0 && (h.0 == 0))))

  pub exist-Frames : (addr : List ℕ) (s : StateDb Db) → FramesAfter s (exist keccak w m addr s)
  unfolding exist
  exist-Frames addr s = choose (has_suicided keccak w m addr s)
    where
      looked : FramesAfter s (
          get_account keccak w m addr s >>= λ r. read_balance keccak w m addr r.1 >>= λ h.
          ok (h.0.1 && (not (is_empty r.0) || ltb 0 h.0.0), h.1))
      looked =
          then_returns addr s _
            (λ r. then_balance addr r.1 (λ h. h.1 && (not (is_empty r.0) || ltb 0 h.0)))

      choose :
          (b : Bool)
          → FramesAfter s (
              if b
              then ok (true, s)
              else (get_account keccak w m addr s >>= λ r. read_balance keccak w m addr r.1 >>= λ h.
                  ok (h.0.1 && (not (is_empty r.0) || ltb 0 h.0.0), h.1)))
      choose true = self-Frame s
      choose false = looked

  -- marking an address, then clearing its balance
  mark :
      (addr : List ℕ) (s : StateDb Db) → Frame s (record s { suicided = add_key addr s.suicided })
  mark addr s = record {
    snapshots_kept = refl;
    logs_kept = refl;
    backend_kept = record { memdb_kept = refl; store_kept = refl };
  }

  cleared :
      (addr : List ℕ) (s : StateDb Db)
      → FramesAfter s
          (handle_set_balance w m addr 0 s.cache_db >>= λ h. ok (true, handled keccak w m s h))
  unfolding handle_set_balance
  cleared addr s =
      Post-bind (λ (h : Option Error × CacheDb Db). KeepsBackend w m s.cache_db h.1)
        (λ (x : Bool × StateDb Db). Frame s x.1) _ _
        (change_balance-KeepsBackend w m (λ _. ok (w.from_big 0)) addr s.cache_db)
        (λ h kh. FrameOps.handled-Frame keccak w m s h kh)

  pub suicide-Frames : (addr : List ℕ) (s : StateDb Db) → FramesAfter s (suicide keccak w m addr s)
  unfolding suicide
  suicide-Frames addr s = then_returns addr s _ (λ r. choose (is_empty r.0) r.1)
    where
      through :
          (t : StateDb Db) (r : Outcome (Bool × StateDb Db))
          → FramesAfter (record t { suicided = add_key addr t.suicided }) r
          → FramesAfter t r
      through t (ok u) h = SameFrame-trans w m (mark addr t) h
      through t panic h = tt

      choose :
          (b : Bool) (t : StateDb Db)
          → FramesAfter t (
              if b
              then ok (false, t)
              else (let marked = record t { suicided = add_key addr t.suicided } in
                  handle_set_balance w m addr 0 marked.cache_db >>= λ h.
                  ok (true, handled keccak w m marked h)))
      choose true t = self-Frame t
      choose false t = through t _ (cleared addr (record t { suicided = add_key addr t.suicided }))

  -- slots and refunds

  pub get_state-Frame :
      (contract key : List ℕ) (s : StateDb Db) → Frame s (get_state w m contract key s).1
  unfolding get_state Cache.get
  get_state-Frame contract key s = cache_frame w m s _ (
      record_error-KeepsBackend w m _ s.cache_db _
        (get_prefixed-KeepsBackend w m st_storage (gen_key contract key) s.cache_db))

  pub set_state-Frame :
      (contract key value : List ℕ) (s : StateDb Db) → Frame s (set_state w m contract key value s)
  unfolding set_state Cache.put
  set_state-Frame contract key value s =
      cache_frame w m s _
        (put_prefixed-KeepsBackend w m st_storage (gen_key contract key) value s.cache_db)

  pub get_committed_state-Frame :
      (addr key : List ℕ) (s : StateDb Db) → Frame s (get_committed_state w m addr key s).1
  unfolding get_committed_state
  get_committed_state-Frame addr key s =
      let v = get-view m (gen_account_state_key addr key) s.cache_db.backend in
      cache_frame w m s _ (
        record_error-KeepsBackend w m _ s.cache_db _
          (record { memdb_kept = v.1; store_kept = v.2 }))
