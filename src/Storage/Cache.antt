-- ===== src/Storage/Cache.antt =====
-- evm/storage/cachedb.go: the writes of one transaction over the overlay, under prefixed keys.
pub mod View
pub mod Commit
use web.Base.{
  ℕ, suc, ◌+◌, ◌≤◌, ◌≡◌, refl, Bool, true, false, List, [], ◌∷◌, ◌++◌, Option, none, some,
  if◌then◌else◌, length, ltb, take, set, copy_at, replicate, ◌==◌, arith,
}
use web.Storage.SortedMap.{SortedMap, Entries}
use web.Storage.Store.{Error, Store, st_storage}
use web.Storage.Overlay
use web.Storage.Overlay.{OverlayDb}

-- `key_scratch` is the array behind the scratch slice, whose contents are rewritten by each call.
pub record CacheDb (Db : Type 0) : Type 0 where
  pub memdb : Db
  pub backend : OverlayDb Db
  pub key_scratch : List ℕ

-- The array behind a buffer of at least `n` bytes.
unfoldable pub ensure_buffer : List ℕ → ℕ → List ℕ
ensure_buffer b n = if ltb (length b) n then replicate n 0 else b

-- The array after the prefix and the key are written into its first bytes.
unfoldable pub make_prefixed_key : List ℕ → ℕ → List ℕ → List ℕ
unfolding ensure_buffer
make_prefixed_key dst prefix key = copy_at 1 (set (ensure_buffer dst (length key + 1)) 0 prefix) key

-- The slice of it that is the key.
abbrev pub scratch_key : List ℕ → List ℕ → List ℕ
scratch_key array key = take (length key + 1) array

module _ (m : SortedMap) where
  open m use {Db, new, put as db_put, get as db_get, entries}

  unfoldable pub new_cache_db : OverlayDb Db → CacheDb Db
  new_cache_db store = record { memdb = new; backend = store; key_scratch = [] }

  unfoldable pub set_db_err : Error → CacheDb Db → CacheDb Db
  set_db_err e self = record self { backend = Overlay.set_error m e self.backend }

  unfoldable pub reset : CacheDb Db → CacheDb Db
  reset self = record self { memdb = new }

  -- The callback of Commit, over the entries in order.
  unfoldable pub commit_entries : Entries → OverlayDb Db → OverlayDb Db
  commit_entries [] backend = backend
  commit_entries ((key, val) ∷ rest) backend =
      commit_entries rest
        (if length val == 0 then Overlay.delete m key backend else Overlay.put m key val backend)

  unfoldable pub commit : CacheDb Db → CacheDb Db
  commit self = record self {
    memdb = new;
    backend = commit_entries (entries self.memdb) self.backend;
  }

  unfoldable pub put_prefixed : ℕ → List ℕ → List ℕ → CacheDb Db → CacheDb Db
  put_prefixed prefix key value self =
      let scratch = make_prefixed_key self.key_scratch prefix key in
      record self {
        memdb = db_put (scratch_key scratch key) value self.memdb;
        key_scratch = scratch;
      }

  unfoldable pub get_prefixed : ℕ → List ℕ → CacheDb Db → (List ℕ × Option Error) × CacheDb Db
  get_prefixed prefix key self =
      let scratch = make_prefixed_key self.key_scratch prefix key in
      let (value, unknown) = db_get (scratch_key scratch key) self.memdb in
      if unknown
      then (let (r, backend) = Overlay.get m (scratch_key scratch key) self.backend in
          (r, record self { backend = backend; key_scratch = scratch }))
      else ((value, none), record self { key_scratch = scratch })

  unfoldable pub put : List ℕ → List ℕ → CacheDb Db → CacheDb Db
  put = put_prefixed st_storage

  unfoldable pub get : List ℕ → CacheDb Db → (List ℕ × Option Error) × CacheDb Db
  get = get_prefixed st_storage

  unfoldable pub delete_prefixed : ℕ → List ℕ → CacheDb Db → CacheDb Db
  delete_prefixed prefix key self =
      let scratch = make_prefixed_key self.key_scratch prefix key in
      record self { memdb = db_put (scratch_key scratch key) [] self.memdb; key_scratch = scratch }

  unfoldable pub delete : List ℕ → CacheDb Db → CacheDb Db
  delete = delete_prefixed st_storage

-- The key of an account's slot, as the overlay stores it.
unfoldable pub gen_account_state_key : List ℕ → List ℕ → List ℕ
gen_account_state_key addr key = st_storage ∷ (addr ++ key)
