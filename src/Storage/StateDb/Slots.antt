-- ===== src/Storage/StateDb/Slots.antt =====
-- evm/storage/statedb.go: GetState, SetState and GetCommittedState.
use web.Base.{ℕ, ◌≡◌, sym, ap, ◌∙◌, List, ◌∷◌, ◌++◌, none, length, append_inj}
use web.Storage.SortedMap.{SortedMap}
use web.Storage.Store.{st_storage}
use web.Storage.Overlay
use web.Storage.Cache
use web.Storage.Cache.{CacheDb, gen_account_state_key}
use web.Storage.Cache.View.{
  Answer, cache_view, overlay_view, get-view, get_prefixed-view, put_prefixed-view_self,
  put_prefixed-view_ne, put_prefixed_lem,
}
use web.Storage.Word256.{Word256}
use web.Storage.StateDb.{StateDb, get_state, set_state, get_committed_state, gen_key, bytes_to_hash}

pub bytes_to_hash_full : (b : List ℕ) → length b ≡ 32 → bytes_to_hash b ≡ b
unfolding bytes_to_hash
bytes_to_hash_full b h = rw h (rw h)

-- Keys of fixed-length addresses do not collide.
pub gen_key_inj :
    (c d k j : List ℕ) → length c ≡ length d → gen_key c k ≡ gen_key d j → (c ≡ d) × (k ≡ j)
unfolding gen_key
gen_key_inj c d k j h e = append_inj c d k j h e

module _ (w : Word256) (m : SortedMap) where
  open m use {Db, IsValid}

  -- The slot's value is read off the cache's view.
  pub get_state-view :
      (contract key : List ℕ) (s : StateDb Db)
      → (get_state w m contract key s).0
        ≡ bytes_to_hash (cache_view m s.cache_db (st_storage ∷ gen_key contract key)).0
  unfolding get_state Cache.get
  get_state-view contract key s =
      ap (λ (a : Answer). bytes_to_hash a.0)
        (get_prefixed-view m st_storage (gen_key contract key) s.cache_db).0

  -- On a valid cache, after SetState of 32 bytes GetState of that slot returns them, and GetState
  -- of every other slot, of the same contract or of another one with an address of the same
  -- length, returns what it did before.
  pub get_state-set_state :
      (contract key value other slot : List ℕ) (s : StateDb Db)
      → IsValid s.cache_db.memdb
      → length value ≡ 32
      → length contract ≡ length other
      → ((get_state w m contract key (set_state w m contract key value s)).0 ≡ value)
        × (¬ ((contract ≡ other) × (key ≡ slot))
            → (get_state w m other slot (set_state w m contract key value s)).0
              ≡ (get_state w m other slot s).0)
  unfolding set_state Cache.put
  get_state-set_state contract key value other slot s v long same = (here, elsewhere)
    where
      t : StateDb Db
      t = set_state w m contract key value s

      here : (get_state w m contract key t).0 ≡ value
      here =
          get_state-view contract key t
          ∙ ap (λ (a : Answer). bytes_to_hash a.0) {y = (value, none)}
              (put_prefixed-view_self m st_storage (gen_key contract key) value s.cache_db v)
          ∙ bytes_to_hash_full value long

      elsewhere :
          ¬ ((contract ≡ other) × (key ≡ slot))
          → (get_state w m other slot t).0 ≡ (get_state w m other slot s).0
      elsewhere ne =
          get_state-view other slot t
          ∙ ap (λ (a : Answer). bytes_to_hash a.0)
              (put_prefixed-view_ne m st_storage (gen_key contract key) (gen_key other slot) value
                s.cache_db v (λ e. ne (gen_key_inj contract other key slot same e)))
          ∙ sym (get_state-view other slot s)

  -- GetCommittedState of any slot after a SetState of any slot returns the 32 bytes that lie
  -- below the cache, whatever was stored in the cache.
  pub get_committed_state-set_state :
      (contract key value other slot : List ℕ) (s : StateDb Db)
      → (get_committed_state w m other slot (set_state w m contract key value s)).0
        ≡ bytes_to_hash (overlay_view m s.cache_db.backend (st_storage ∷ gen_key other slot)).0
  unfolding set_state get_committed_state gen_account_state_key gen_key Cache.put
  get_committed_state-set_state contract key value other slot s =
      ap
        (λ (o : Overlay.OverlayDb Db).
          bytes_to_hash (Overlay.get m (st_storage ∷ (other ++ slot)) o).0.0)
        (put_prefixed_lem m st_storage (contract ++ key) value s.cache_db).1
      ∙ ap (λ (a : Answer). bytes_to_hash a.0)
          (get-view m (st_storage ∷ (other ++ slot)) s.cache_db.backend).0
