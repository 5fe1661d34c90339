-- ===== src/Storage/Cache/View.antt =====
-- evm/storage: what a read of the overlay or of the cache answers, and how writes change it.
use web.Base.{
  ℕ, ◌+◌, ◌≤◌, ◌≡◌, ◌≢◌, refl, ap, ◌∙◌, Bool, true, false, List, [], ◌∷◌, Option, none, some,
  if◌then◌else◌, length, take, set, copy_at, arith, length-replicate, take-copy,
}
use native.Mathlib.Numerals.{add-one}
use web.Base.Keys.{bytes_eq, bytes_eq_refl, bytes_eq-cons, bytes_eq_ne}
use web.Storage.SortedMap.{SortedMap, get-put}
use web.Storage.Store.{Error, found, not_found, failed, Store}
use web.Storage.Overlay
use web.Storage.Overlay.{OverlayDb}
use web.Storage.Cache
use web.Storage.Cache.{CacheDb, ensure_buffer, make_prefixed_key, scratch_key}

abbrev pub Answer : Type 0
Answer = List ℕ × Option Error

ensure_buffer-long : (b : List ℕ) (n : ℕ) → n ≤ length (ensure_buffer b n)
unfolding ensure_buffer
ensure_buffer-long b n = ground (arith, length-replicate {A = ℕ} n 0)

prefixed :
    (b : List ℕ) (p : ℕ) (key : List ℕ)
    → length key + 1 ≤ length b
    → take (length key + 1) (copy_at 1 (set b 0 p) key) ≡ p ∷ key
prefixed [] p key h = absurd (omega arith)
prefixed (x ∷ xs) p key h = rw add-one (ap (◌∷◌ p) (take-copy xs key (omega arith)))

-- The scratch buffer holds the prefixed key, whatever it held before.
pub scratch_key-make_prefixed_key :
    (dst : List ℕ) (prefix : ℕ) (key : List ℕ)
    → scratch_key (make_prefixed_key dst prefix key) key ≡ prefix ∷ key
unfolding make_prefixed_key
scratch_key-make_prefixed_key dst prefix key =
    prefixed (ensure_buffer dst (length key + 1)) prefix key
      (ensure_buffer-long dst (length key + 1))

-- What the store answers: a missing key is an empty value.
abbrev pub store_view : Store → List ℕ → Answer
store_view s k = elim (s.get k) [
  | found v ↦ (v, none)
  | not_found ↦ ([], none)
  | failed e ↦ ([], some e)
]

-- A map over an answer from below.
abbrev pub layered : List ℕ × Bool → Answer → Answer
layered (value, true) below = below
layered (value, false) below = (value, none)

head_eq : (p q : ℕ) (k j : List ℕ) → p ∷ k ≡ q ∷ j → p ≡ q
head_eq p q k j e = cc

layered-if :
    (b : Bool) (v : List ℕ) (r : List ℕ × Bool) (below : Answer)
    → layered (if b then (v, false) else r) below ≡ (if b then (v, none) else layered r below)
layered-if true v r below = refl
layered-if false v r below = refl

module _ (m : SortedMap) where
  open m use {Db, IsValid, put as db_put, get as db_get, entries}

  unfoldable pub overlay_view : OverlayDb Db → List ℕ → Answer
  overlay_view o k = layered (db_get k o.memdb) (store_view o.store k)

  unfoldable pub cache_view : CacheDb Db → List ℕ → Answer
  cache_view c k = layered (db_get k c.memdb) (overlay_view c.backend k)

  -- A read of the overlay: its answer, and that it changes nothing but the recorded error.
  pub get-view :
      (k : List ℕ) (o : OverlayDb Db)
      → ((Overlay.get m k o).0 ≡ overlay_view o k)
        × ((Overlay.get m k o).1.memdb ≡ o.memdb)
        × ((Overlay.get m k o).1.store ≡ o.store)
  unfolding Overlay.get overlay_view
  get-view k o = ground arith

  pub overlay_view-put :
      (k j v : List ℕ) (o : OverlayDb Db)
      → IsValid o.memdb
      → overlay_view (Overlay.put m k v o) j
        ≡ (if bytes_eq k j then (v, none) else overlay_view o j)
  unfolding Overlay.put overlay_view
  overlay_view-put k j v o h =
      rw (get-put m k j v o.memdb h)
        (layered-if (bytes_eq k j) v (db_get j o.memdb) (store_view o.store j))

  -- A read of the cache answers its view at the prefixed key, and changes no view.
  pub get_prefixed-view :
      (p : ℕ) (k : List ℕ) (c : CacheDb Db)
      → ((Cache.get_prefixed m p k c).0 ≡ cache_view c (p ∷ k))
        × ((Cache.get_prefixed m p k c).1.memdb ≡ c.memdb)
        × ((Cache.get_prefixed m p k c).1.backend.memdb ≡ c.backend.memdb)
        × ((Cache.get_prefixed m p k c).1.backend.store ≡ c.backend.store)
  unfolding Cache.get_prefixed cache_view
  get_prefixed-view p k c =
      rw (scratch_key-make_prefixed_key c.key_scratch p k)
        (ground (arith, get-view (p ∷ k) c.backend))

  pub put_prefixed-view :
      (p : ℕ) (k v j : List ℕ) (c : CacheDb Db)
      → IsValid c.memdb
      → cache_view (Cache.put_prefixed m p k v c) j
        ≡ (if bytes_eq (p ∷ k) j then (v, none) else cache_view c j)
  unfolding Cache.put_prefixed cache_view
  put_prefixed-view p k v j c h =
      rw (scratch_key-make_prefixed_key c.key_scratch p k, get-put m (p ∷ k) j v c.memdb h)
        (layered-if (bytes_eq (p ∷ k) j) v (db_get j c.memdb) (overlay_view c.backend j))

  pub delete_prefixed-put :
      (p : ℕ) (k : List ℕ) (c : CacheDb Db)
      → Cache.delete_prefixed m p k c ≡ Cache.put_prefixed m p k [] c
  unfolding Cache.delete_prefixed Cache.put_prefixed
  delete_prefixed-put p k c = refl

  -- The prefixed key is what the map is updated at.
  pub put_prefixed_lem :
      (p : ℕ) (k v : List ℕ) (c : CacheDb Db)
      → ((Cache.put_prefixed m p k v c).memdb ≡ db_put (p ∷ k) v c.memdb)
        × ((Cache.put_prefixed m p k v c).backend ≡ c.backend)
  unfolding Cache.put_prefixed
  put_prefixed_lem p k v c = rw (scratch_key-make_prefixed_key c.key_scratch p k) (refl, refl)

  -- The same at the key written, and at any other key under the same prefix.
  pub put_prefixed-view_self :
      (p : ℕ) (k v : List ℕ) (c : CacheDb Db)
      → IsValid c.memdb
      → cache_view (Cache.put_prefixed m p k v c) (p ∷ k) ≡ (v, none)
  put_prefixed-view_self p k v c h =
      put_prefixed-view p k v (p ∷ k) c h ∙ rw (bytes_eq_refl (p ∷ k))

  pub put_prefixed-view_ne :
      (p : ℕ) (k j v : List ℕ) (c : CacheDb Db)
      → IsValid c.memdb
      → k ≢ j
      → cache_view (Cache.put_prefixed m p k v c) (p ∷ j) ≡ cache_view c (p ∷ j)
  put_prefixed-view_ne p k j v c h ne =
      put_prefixed-view p k v (p ∷ j) c h ∙ rw (bytes_eq-cons p k j, bytes_eq_ne k j ne)

  -- The two prefixes keep accounts and slots apart.
  pub put_prefixed-view_apart :
      (p q : ℕ) (k j v : List ℕ) (c : CacheDb Db)
      → IsValid c.memdb
      → p ≢ q
      → cache_view (Cache.put_prefixed m p k v c) (q ∷ j) ≡ cache_view c (q ∷ j)
  put_prefixed-view_apart p q k j v c h ne =
      put_prefixed-view p k v (q ∷ j) c h
      ∙ rw (bytes_eq_ne (p ∷ k) (q ∷ j) (λ e. ne (head_eq p q k j e)))
