-- ===== src/Storage/Cache/Commit.antt =====
-- evm/storage/cachedb.go: Commit moves the cache's writes into the overlay.
use web.Base.{
  ℕ, ◌≡◌, refl, ap, ◌∙◌, Bool, true, false, List, [], ◌∷◌, none, if◌then◌else◌, length, ◌==◌, arith,
}
use web.Base.Keys.{bytes_eq, bytes_eq_iff}
use web.Storage.SortedMap.{SortedMap, Entries, find, IsSorted, find-Above}
use web.Storage.Overlay
use web.Storage.Overlay.{OverlayDb}
use web.Storage.Cache
use web.Storage.Cache.{CacheDb}
use web.Storage.Cache.View.{Answer, layered, overlay_view, cache_view, overlay_view-put}

module _ (m : SortedMap) where
  open m use {
    Db, IsValid, new, new-IsValid, put-IsValid, entries, entries-IsSorted, entries-new, get-find,
  }

  -- An empty value is deleted, which the overlay does by putting an empty value.
  commit_one :
      (k v : List ℕ) (o : OverlayDb Db)
      → (if length v == 0 then Overlay.delete m k o else Overlay.put m k v o) ≡ Overlay.put m k v o
  unfolding Overlay.delete Overlay.put
  commit_one k [] o = refl
  commit_one k (x ∷ v) o = ground arith

  put_memdb-IsValid :
      (k v : List ℕ) (o : OverlayDb Db) → IsValid o.memdb → IsValid (Overlay.put m k v o).memdb
  unfolding Overlay.put
  put_memdb-IsValid k v o h = put-IsValid k v o.memdb h

  commit_entries_step :
      (k v : List ℕ) (es : Entries) (o : OverlayDb Db)
      → Cache.commit_entries m ((k, v) ∷ es) o ≡ Cache.commit_entries m es (Overlay.put m k v o)
  unfolding Cache.commit_entries
  commit_entries_step k v es o = ap (Cache.commit_entries m es) (commit_one k v o)

  pub commit_entries-IsValid :
      (es : Entries) (o : OverlayDb Db)
      → IsValid o.memdb
      → IsValid (Cache.commit_entries m es o).memdb
  unfolding Cache.commit_entries
  commit_entries-IsValid [] o h = h
  commit_entries-IsValid ((k, v) ∷ es) o h =
      rw (commit_entries_step k v es o)
        (commit_entries-IsValid es (Overlay.put m k v o) (put_memdb-IsValid k v o h))

  -- one entry, over the answer of the later ones
  one_entry :
      (b : Bool) (v : List ℕ) (r : List ℕ × Bool) (below : Answer)
      → (b ≡ true → r ≡ ([], true))
      → layered r (if b then (v, none) else below) ≡ layered (if b then (v, false) else r) below
  one_entry true v r below h = rw (h refl)
  one_entry false v r below h = refl

  pub commit_entries-view :
      (es : Entries) (o : OverlayDb Db) (k : List ℕ)
      → IsSorted es
      → IsValid o.memdb
      → overlay_view m (Cache.commit_entries m es o) k ≡ layered (find k es) (overlay_view m o k)
  unfolding Cache.commit_entries find
  commit_entries-view [] o k s h = refl
  commit_entries-view ((i, w) ∷ es) o k s h = rw (commit_entries_step i w es o) (
      commit_entries-view es (Overlay.put m i w o) k s.1 (put_memdb-IsValid i w o h)
      ∙ ap (layered (find k es)) (overlay_view-put m i k w o h)
      ∙ one_entry (bytes_eq i k) w (find k es) (overlay_view m o k)
          (λ e. rw (← (bytes_eq_iff i k).0 e) (find-Above i es s.0)))

  -- For valid maps, committing the cache to the overlay changes the answer to no key, makes the
  -- overlay alone answer as the cache did, deletions included, and leaves the cache and the
  -- overlay valid.
  pub commit-view :
      (c : CacheDb Db) (k : List ℕ)
      → IsValid c.memdb
      → IsValid c.backend.memdb
      → (cache_view m (Cache.commit m c) k ≡ cache_view m c k)
        × (overlay_view m (Cache.commit m c).backend k ≡ cache_view m c k)
        × IsValid (Cache.commit m c).memdb
        × IsValid (Cache.commit m c).backend.memdb
  unfolding Cache.commit cache_view find
  commit-view c k hc hb = (
    empty_above (overlay_view m (Cache.commit_entries m (entries c.memdb) c.backend) k) ∙ moved,
    moved,
    new-IsValid,
    commit_entries-IsValid (entries c.memdb) c.backend hb,
  )
    where
      empty_above : (below : Answer) → layered (m.get k new) below ≡ below
      empty_above below = rw (get-find k new new-IsValid ∙ ap (find k) entries-new, find)

      moved :
          overlay_view m (Cache.commit_entries m (entries c.memdb) c.backend) k
          ≡ layered (m.get k c.memdb) (overlay_view m c.backend k)
      moved =
          rw (get-find k c.memdb hc)
            (commit_entries-view (entries c.memdb) c.backend k (entries-IsSorted c.memdb hc) hb)
