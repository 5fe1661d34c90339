-- ===== src/Storage/StateDb/Frame.antt =====
-- evm/storage/statedb.go: what no operation on accounts or slots touches: the snapshots, the logs,
-- and everything below the cache but the recorded error.
use web.Base.{
  ℕ, ◌≡◌, refl, ap, ◌∙◌, Bool, true, false, List, [], Option, none, some, if◌then◌else◌, Outcome,
  ok, panic, ◌>>=◌, Post, Post-bind, Post-any,
}
use web.Storage.SortedMap.{SortedMap}
use web.Storage.Store.{Error, st_eth_account}
use web.Storage.Overlay
use web.Storage.Cache
use web.Storage.Cache.{CacheDb, gen_account_state_key}
use web.Storage.Cache.View.{get_prefixed-view, put_prefixed_lem}
use web.Storage.Word256.{Word256}
use web.Storage.Account
use web.Storage.Account.{EthAccount, zero_account, is_empty, decode_account, serialize_to_bytes}
use web.Storage.StateDb.{StateDb, change_balance, handle_get_balance, record_error}

module _ (w : Word256) (m : SortedMap) where
  open m use {Db}

  pub record KeepsBackend (c c' : CacheDb Db) : Type 0 where
    pub memdb_kept : c'.backend.memdb ≡ c.backend.memdb
    pub store_kept : c'.backend.store ≡ c.backend.store

  pub KeepsBackend-trans :
      {c d e : CacheDb Db} → KeepsBackend c d → KeepsBackend d e → KeepsBackend c e
  KeepsBackend-trans a b = record {
    memdb_kept = b.memdb_kept ∙ a.memdb_kept;
    store_kept = b.store_kept ∙ a.store_kept;
  }

  pub put_prefixed-KeepsBackend :
      (p : ℕ) (k v : List ℕ) (c : CacheDb Db) → KeepsBackend c (Cache.put_prefixed m p k v c)
  put_prefixed-KeepsBackend p k v c =
      let e = (put_prefixed_lem m p k v c).1 in
      record {
        memdb_kept = ap (λ (o : Overlay.OverlayDb Db). o.memdb) e;
        store_kept = ap (λ (o : Overlay.OverlayDb Db). o.store) e;
      }

  pub get_prefixed-KeepsBackend :
      (p : ℕ) (k : List ℕ) (c : CacheDb Db) → KeepsBackend c (Cache.get_prefixed m p k c).1
  get_prefixed-KeepsBackend p k c =
      let v = get_prefixed-view m p k c in record { memdb_kept = v.2; store_kept = v.3 }

  pub get_eth_account-KeepsBackend :
      (addr : List ℕ) (c : CacheDb Db)
      → Post
          (λ (r : (EthAccount × Option Error) × CacheDb Db). KeepsBackend c r.1)
          (Account.get_eth_account w m addr c)
  unfolding Account.get_eth_account
  get_eth_account-KeepsBackend addr c =
      Post-bind (λ _. Unit {0})
        (λ (r : (EthAccount × Option Error) × CacheDb Db). KeepsBackend c r.1)
        (decode_account w (Cache.get_prefixed m st_eth_account addr c).0) _ (Post-any _)
        (λ a _. get_prefixed-KeepsBackend st_eth_account addr c)

  pub put_eth_account-KeepsBackend :
      (addr : List ℕ) (a : EthAccount) (c : CacheDb Db)
      → Post (KeepsBackend c) (Account.put_eth_account w m addr a c)
  unfolding Account.put_eth_account
  put_eth_account-KeepsBackend addr a c = choose (is_empty a)
    where
      stored :
          Post
            (KeepsBackend c)
            (serialize_to_bytes w a >>= λ raw. ok (Cache.put_prefixed m st_eth_account addr raw c))
      stored =
          Post-bind (λ _. Unit {0}) (KeepsBackend c) (serialize_to_bytes w a) _ (Post-any _)
            (λ raw _. put_prefixed-KeepsBackend st_eth_account addr raw c)

      choose :
          (b : Bool)
          → Post (KeepsBackend c) (
              if b
              then ok (Cache.put_prefixed m st_eth_account addr [] c)
              else (serialize_to_bytes w a >>= λ raw.
                  ok (Cache.put_prefixed m st_eth_account addr raw c)))
      choose true = put_prefixed-KeepsBackend st_eth_account addr [] c
      choose false = stored

  put_keeps :
      (addr : List ℕ) (a : EthAccount) (c d : CacheDb Db)
      → KeepsBackend c d
      → Post
          (λ (h : Option Error × CacheDb Db). KeepsBackend c h.1)
          (Account.put_eth_account w m addr a d >>= λ e. ok (none, e))
  put_keeps addr a c d k =
      Post-bind (KeepsBackend d) (λ (h : Option Error × CacheDb Db). KeepsBackend c h.1)
        (Account.put_eth_account w m addr a d) _ (put_eth_account-KeepsBackend addr a d)
        (λ e ke. KeepsBackend-trans k ke)

  pub change_balance-KeepsBackend :
      (change : Option ℕ → Outcome ℕ) (addr : List ℕ) (c : CacheDb Db)
      → Post
          (λ (h : Option Error × CacheDb Db). KeepsBackend c h.1)
          (change_balance w m change addr c)
  unfolding change_balance
  change_balance-KeepsBackend change addr c =
      Post-bind (λ (r : (EthAccount × Option Error) × CacheDb Db). KeepsBackend c r.1)
        (λ (h : Option Error × CacheDb Db). KeepsBackend c h.1) (Account.get_eth_account w m addr c)
        _ (get_eth_account-KeepsBackend addr c) after
    where
      after :
          (r : (EthAccount × Option Error) × CacheDb Db)
          → KeepsBackend c r.1
          → Post
              (λ (h : Option Error × CacheDb Db). KeepsBackend c h.1)
              (elim r.0.1 [
                | some e ↦ ok (some e, r.1)
                | none ↦ change r.0.0.balance >>= λ balance.
                    Account.put_eth_account w m addr (record (r.0.0) { balance = some balance }) r.1
                    >>= λ d. ok (none, d)
              ])
      after ((a, some e), d) k = k
      after ((a, none), d) k =
          Post-bind (λ _. Unit {0}) (λ (h : Option Error × CacheDb Db). KeepsBackend c h.1)
            (change a.balance) _ (Post-any _)
            (λ b _. put_keeps addr (record a { balance = some b }) c d k)

  pub handle_get_balance-KeepsBackend :
      (addr : List ℕ) (c : CacheDb Db)
      → Post
          (λ (h : (ℕ × Option Error) × CacheDb Db). KeepsBackend c h.1)
          (handle_get_balance w m addr c)
  unfolding handle_get_balance
  handle_get_balance-KeepsBackend addr c =
      Post-bind (λ (r : (EthAccount × Option Error) × CacheDb Db). KeepsBackend c r.1)
        (λ (h : (ℕ × Option Error) × CacheDb Db). KeepsBackend c h.1)
        (Account.get_eth_account w m addr c) _ (get_eth_account-KeepsBackend addr c) after
    where
      read :
          (d : CacheDb Db) (balance : Option ℕ)
          → KeepsBackend c d
          → Post
              (λ (h : (ℕ × Option Error) × CacheDb Db). KeepsBackend c h.1)
              (elim balance [ none ↦ panic | some b ↦ ok ((b, none), d) ])
      read d none k = tt
      read d (some b) k = k

      after :
          (r : (EthAccount × Option Error) × CacheDb Db)
          → KeepsBackend c r.1
          → Post
              (λ (h : (ℕ × Option Error) × CacheDb Db). KeepsBackend c h.1)
              (elim r.0.1 [
                | some e ↦ ok ((0, some e), r.1)
                | none ↦ elim r.0.0.balance [ none ↦ panic | some b ↦ ok ((b, none), r.1) ]
              ])
      after ((a, some e), d) k = k
      after ((a, none), d) k = read d a.balance k

  -- The state's own part of the frame.
  pub record SameFrame (s t : StateDb Db) : Type 0 where
    pub snapshots_kept : t.snapshots ≡ s.snapshots
    pub logs_kept : t.logs ≡ s.logs
    pub backend_kept : KeepsBackend s.cache_db t.cache_db

  pub SameFrame-trans : {s t u : StateDb Db} → SameFrame s t → SameFrame t u → SameFrame s u
  SameFrame-trans a b = record {
    snapshots_kept = b.snapshots_kept ∙ a.snapshots_kept;
    logs_kept = b.logs_kept ∙ a.logs_kept;
    backend_kept = KeepsBackend-trans a.backend_kept b.backend_kept;
  }

  -- A call that changes the cache alone.
  pub cache_frame :
      (s : StateDb Db) (c : CacheDb Db)
      → KeepsBackend s.cache_db c
      → SameFrame s (record s { cache_db = c })
  cache_frame s c k = record { snapshots_kept = refl; logs_kept = refl; backend_kept = k }

  pub record_error-KeepsBackend :
      (e : Option Error) (c d : CacheDb Db)
      → KeepsBackend c d
      → KeepsBackend c (record_error w m e d)
  unfolding record_error Cache.set_db_err Overlay.set_error
  record_error-KeepsBackend none c d k = k
  record_error-KeepsBackend (some e) c d k = record {
    memdb_kept = k.memdb_kept;
    store_kept = k.store_kept;
  }
