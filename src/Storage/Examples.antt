-- ===== src/Storage/Examples.antt =====
-- Concrete runs of evm/storage, and its theorems at concrete inputs. The map is the reference
-- map, the 256-bit words are the documented ones, and the hash function is constant.
use web.Base.{ℕ, ◌≡◌, refl, true, false, List, [], ◌∷◌, ◌++◌, none, some, replicate, ok, arith}
use web.Base.Keys.{bytes_eq, compare_bytes}
use web.Codec.Source
use web.Storage.SortedMap.{reference, Entries}
use web.Storage.Store.{Store, not_found}
use web.Storage.Cache
use web.Storage.Cache.{CacheDb}
use web.Storage.Cache.View.{cache_view, overlay_view}
use web.Storage.Cache.Commit.{commit-view}
use web.Storage.Word256.{words}
use web.Storage.Account.{
  EthAccount, zero_account, zero_hash, is_empty, serialize_to_bytes, deserialization,
  put_eth_account,
}
use web.Storage.Account.RoundTrip.{IsAccount, encoding, serialize-encoding, deserialize-encoding}
use web.Storage.Account.Stored.{Stores, put_eth_account-Stores, put_eth_account_drops}
use web.Storage.StateDb.{
  StateDb, bytes_to_hash, gen_key, get_state, set_state, get_committed_state, snapshot, add_log,
  add_refund, revert_to_snapshot,
}
use web.Storage.StateDb.Steps.{Step, Steps}
use web.Storage.StateDb.Revert.{Restored, revert-snapshot}
use web.Storage.StateDb.Slots.{get_state-set_state, get_committed_state-set_state}

abbrev empty_store : Store
empty_store = record { get = λ k. not_found; batch = [] }

abbrev cache_of : Entries → CacheDb Entries
cache_of m = record {
  memdb = m;
  backend = record { store = empty_store; memdb = (1 ∷ [], 8 ∷ []) ∷ []; db_err = none };
  key_scratch = [];
}

abbrev state_of : Entries → StateDb Entries
state_of m = record {
  cache_db = cache_of m;
  suicided = [];
  logs = [];
  thash = zero_hash;
  bhash = zero_hash;
  refund = 5;
  snapshots = [];
}

abbrev hash_of : List ℕ → List ℕ
hash_of code = replicate 32 7

abbrev contract : List ℕ
contract = replicate 20 1

abbrev slot : ℕ → List ℕ
slot n = replicate 31 0 ++ n ∷ []

-- A deleted key of the cache hides the overlay's value, before and after the commit.
commit-view_example :
    (cache_view reference (Cache.commit reference (cache_of ((1 ∷ [], []) ∷ []))) (1 ∷ [])
      ≡ cache_view reference (cache_of ((1 ∷ [], []) ∷ [])) (1 ∷ []))
    × (overlay_view reference
          (Cache.commit reference (cache_of ((1 ∷ [], []) ∷ []))).backend
          (1 ∷ [])
        ≡ cache_view reference (cache_of ((1 ∷ [], []) ∷ [])) (1 ∷ []))
    × reference.IsValid (Cache.commit reference (cache_of ((1 ∷ [], []) ∷ []))).memdb
    × reference.IsValid (Cache.commit reference (cache_of ((1 ∷ [], []) ∷ []))).backend.memdb
commit-view_example =
    commit-view reference (cache_of ((1 ∷ [], []) ∷ [])) (1 ∷ []) (tt, tt) (tt, tt)

abbrev account : EthAccount
account = record {
  nonce = 3;
  balance = some 1000;
  code = 0x60 ∷ 0x01 ∷ [];
  code_hash = replicate 32 9;
}

account-IsAccount : IsAccount 1000 account
account-IsAccount = record {
  has_balance = refl;
  nonce_fits = omega arith;
  balance_fits = omega arith;
  code_fits = omega arith;
  hash_length = refl;
}

serialize-encoding_example : serialize_to_bytes words account ≡ ok (encoding words 1000 account)
serialize-encoding_example = serialize-encoding words 1000 account account-IsAccount

deserialize-encoding_example :
    deserialization words (Source.new_source (encoding words 1000 account)) ≡ ok (account, none)
deserialize-encoding_example = deserialize-encoding words 1000 account account-IsAccount

account_full : is_empty account ≡ false
unfolding is_empty
account_full = refl

put_eth_account-Stores_example :
    (c' : CacheDb Entries) × (put_eth_account words reference contract account (cache_of [])
      ≡ ok c')
    × Stores words reference contract account (cache_of []) c'
put_eth_account-Stores_example =
    put_eth_account-Stores words reference 1000 contract account (cache_of []) account-IsAccount
      account_full tt

-- An account that has only ever received a balance.
abbrev funded : EthAccount
funded = record { nonce = 0; balance = some 1000; code = []; code_hash = zero_hash }

funded-is_empty : is_empty funded ≡ true
unfolding is_empty bytes_eq compare_bytes
funded-is_empty = refl

put_eth_account_drops_example :
    (c' : CacheDb Entries) × (put_eth_account words reference contract funded (cache_of []) ≡ ok c')
    × Stores words reference contract zero_account (cache_of []) c'
put_eth_account_drops_example =
    put_eth_account_drops words reference contract funded (cache_of []) funded-is_empty tt

get_state-set_state_example :
    ((get_state words reference contract
        (slot 1)
        (set_state words reference contract (slot 1) (slot 9) (state_of []))).0
      ≡ slot 9)
    × (¬ ((contract ≡ contract) × (slot 1 ≡ slot 2))
        → (get_state words reference contract
            (slot 2)
            (set_state words reference contract (slot 1) (slot 9) (state_of []))).0
          ≡ (get_state words reference contract (slot 2) (state_of [])).0)
get_state-set_state_example =
    get_state-set_state words reference contract (slot 1) (slot 9) contract (slot 2) (state_of [])
      tt refl refl

get_committed_state-set_state_example :
    (get_committed_state words reference contract
      (slot 1)
      (set_state words reference contract (slot 1) (slot 9) (state_of []))).0
    ≡ bytes_to_hash
        (overlay_view reference (state_of []).cache_db.backend (5 ∷ gen_key contract (slot 1))).0
get_committed_state-set_state_example =
    get_committed_state-set_state words reference contract (slot 1) (slot 9) contract (slot 1)
      (state_of [])

-- A store, a refund and a log after the snapshot.
abbrev after_ops : StateDb Entries
after_ops =
    add_log words reference (record { address = contract; topics = []; bytes = [] })
      (add_refund words reference 10 (
        set_state words reference contract (slot 1) (slot 9)
          (snapshot words reference (state_of [])).1))

some-Steps : Steps hash_of words reference 1 (snapshot words reference (state_of [])).1 after_ops
some-Steps =
    Steps.next
      (Steps.next (Steps.next Steps.done (Step.writes_slot contract (slot 1) (slot 9) _))
        (Step.adds_refund 10 _))
      (Step.logs_one (record { address = contract; topics = []; bytes = [] }) _)

revert-snapshot_example :
    (u : StateDb Entries) × (revert_to_snapshot words reference 0 after_ops ≡ ok u)
    × Restored hash_of words reference (state_of []) u
revert-snapshot_example = revert-snapshot hash_of words reference (state_of []) after_ops some-Steps
