-- ===== src/Storage/StateDb/Revert.antt =====
-- evm/storage/statedb.go: RevertToSnapshot, after any operations since the snapshot.
use web.Base.{ℕ, suc, ◌≡◌, refl, List, length, ok}
use web.Storage.SortedMap.{SortedMap}
use web.Storage.Word256.{Word256}
use web.Storage.StateDb.{StateDb, snapshot, take_snapshot, restore, revert_to_snapshot}
use web.Storage.StateDb.Steps.{Steps}
use web.Storage.StateDb.Guards.{Steps-Guards, snapshot-Guards_start, revert_some}

module _ (keccak : List ℕ → List ℕ) (w : Word256) (m : SortedMap) where
  open m use {Db}

  -- What RevertToSnapshot gives back.
  pub record Restored (s u : StateDb Db) : Type 0 where
    pub memdb : u.cache_db.memdb ≡ s.cache_db.memdb
    pub backend_memdb : u.cache_db.backend.memdb ≡ s.cache_db.backend.memdb
    pub backend_store : u.cache_db.backend.store ≡ s.cache_db.backend.store
    pub suicided : u.suicided ≡ s.suicided
    pub refund : u.refund ≡ s.refund
    pub logs : u.logs ≡ s.logs
    pub snapshots : u.snapshots ≡ s.snapshots

  -- After a snapshot and any sequence of operations of the transaction that do not revert below
  -- it (nested snapshots and reverts to them included, a panicking operation excluded), reverting
  -- to the snapshot succeeds and restores the cache, the self-destructed accounts, the refund
  -- counter, the logs and the snapshot stack, with the overlay's entries and the store unchanged
  -- throughout.
  pub revert-snapshot :
      (s t : StateDb Db)
      → Steps keccak w m (suc (length s.snapshots)) (snapshot w m s).1 t
      → (u : StateDb Db) × (revert_to_snapshot w m (length s.snapshots) t ≡ ok u) × Restored s u
  unfolding restore take_snapshot
  revert-snapshot s t steps =
      let id = length s.snapshots in
      let sn = take_snapshot w m s in
      let g = Steps-Guards keccak w m id s sn (snapshot-Guards_start keccak w m s) steps in
      (
        restore w m sn id t,
        revert_some keccak w m id sn t g.at_id,
        record {
          memdb = refl;
          backend_memdb = g.memdb_same;
          backend_store = g.store_same;
          suicided = refl;
          refund = refl;
          logs = g.logs_same;
          snapshots = g.before;
        },
      )
