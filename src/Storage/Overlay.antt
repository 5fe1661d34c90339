-- ===== src/Storage/Overlay.antt =====
-- evm/storage/overlaydb/overlaydb.go: uncommitted writes over a store.
-- A nil value and an empty one are the same here, as the code only asks for the length.
use web.Base.{ℕ, List, [], ◌∷◌, ◌++◌, Option, none, some, if◌then◌else◌, length, ◌==◌}
use web.Storage.SortedMap.{SortedMap, Entries}
use web.Storage.Store.{Error, found, not_found, failed, BatchOp, batch_put, batch_delete, Store}

pub record OverlayDb (Db : Type 0) : Type 0 where
  pub store : Store
  pub memdb : Db
  pub db_err : Option Error

-- What the callback of CommitTo does with an entry.
unfoldable pub commit_op : List ℕ × List ℕ → BatchOp
commit_op (key, val) = if length val == 0 then batch_delete key else batch_put key val

unfoldable pub commit_ops : Entries → List BatchOp
commit_ops [] = []
commit_ops (e ∷ m) = commit_op e ∷ commit_ops m

module _ (m : SortedMap) where
  open m use {Db, new, put as db_put, get as db_get, entries}

  unfoldable pub new_overlay_db : Store → OverlayDb Db
  new_overlay_db s = record { store = s; memdb = new; db_err = none }

  unfoldable pub reset : OverlayDb Db → OverlayDb Db
  reset self = record self { memdb = new }

  unfoldable pub set_error : Error → OverlayDb Db → OverlayDb Db
  set_error e self = record self { db_err = some e }

  -- The memory first, then the store. A key that neither has is an empty value.
  unfoldable pub get : List ℕ → OverlayDb Db → (List ℕ × Option Error) × OverlayDb Db
  get key self =
      let (value, unknown) = db_get key self.memdb in
      if unknown
      then elim (self.store.get key) [
        | found v ↦ ((v, none), self)
        | not_found ↦ (([], none), self)
        | failed e ↦ (([], some e), record self { db_err = some e })
      ]
      else ((value, none), self)

  unfoldable pub put : List ℕ → List ℕ → OverlayDb Db → OverlayDb Db
  put key value self = record self { memdb = db_put key value self.memdb }

  unfoldable pub delete : List ℕ → OverlayDb Db → OverlayDb Db
  delete key self = record self { memdb = db_put key [] self.memdb }

  unfoldable pub commit_to : OverlayDb Db → OverlayDb Db
  commit_to self = record self {
    store = record {
      get = self.store.get;
      batch = self.store.batch ++ commit_ops (entries self.memdb);
    };
  }
