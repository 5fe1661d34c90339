-- ===== src/Storage/Account/Stored.antt =====
-- evm/storage/statedb.go: what the cache answers for an account after a write.
use web.Base.{
  ℕ, ◌≡◌, ap, ◌∙◌, true, false, List, [], ◌∷◌, ◌++◌, Option, none, length, ◌==◌, arith, Outcome, ok,
  ◌>>=◌, ◌≢◌, length-append,
}
use web.Base.Bytes.{le_bytes, length-le_bytes}
use web.Codec.Sink.{var_uint_bytes}
use web.Storage.SortedMap.{SortedMap}
use web.Storage.Store.{Error, st_eth_account}
use web.Storage.Cache
use web.Storage.Cache.{CacheDb}
use web.Storage.Cache.View.{
  Answer, cache_view, get_prefixed-view, put_prefixed-view_self, put_prefixed-view_ne,
}
use web.Storage.Word256.{Word256}
use web.Storage.Account.{
  EthAccount, zero_account, is_empty, decode_account, get_eth_account, put_eth_account,
}
use web.Storage.Account.RoundTrip.{IsAccount, encoding, serialize-encoding, deserialize-encoding}

module _ (w : Word256) where
  encoding_nonempty : (balance : ℕ) (a : EthAccount) → (length (encoding w balance a) == 0) ≡ false
  unfolding encoding
  encoding_nonempty balance a = ground (
    arith,
    length-append (le_bytes 8 a.nonce)
        (w.bytes32 balance ++ ((var_uint_bytes (length a.code) ++ a.code) ++ a.code_hash)),
    length-le_bytes 8 a.nonce,
  )

  pub decode_account-encoding :
      (balance : ℕ) (a : EthAccount)
      → IsAccount balance a
      → decode_account w (encoding w balance a, none) ≡ ok (a, none)
  unfolding decode_account
  decode_account-encoding balance a h =
      rw (encoding_nonempty balance a) (deserialize-encoding w balance a h)

  module _ (m : SortedMap) where
    open m use {Db, IsValid}

    -- The account that the cache holds at `addr`, and what is wrong with it.
    abbrev pub account_at : List ℕ → CacheDb Db → Outcome (EthAccount × Option Error)
    account_at addr c = decode_account w (cache_view m c (st_eth_account ∷ addr))

    -- GetEthAccount answers the account that the cache holds.
    pub get_eth_account-account_at :
        (addr : List ℕ) (c : CacheDb Db)
        → get_eth_account w m addr c
          ≡ (account_at addr c >>= λ val. ok (val, (Cache.get_prefixed m st_eth_account addr c).1))
    unfolding get_eth_account
    get_eth_account-account_at addr c =
        ap
          (λ (answer : Answer).
            ◌>>=◌ {B = (EthAccount × Option Error) × CacheDb Db} (decode_account w answer)
              (λ val. ok (val, (Cache.get_prefixed m st_eth_account addr c).1)))
          (get_prefixed-view m st_eth_account addr c).0

    -- What is written at an address is read there, and other addresses are not touched.
    put_at :
        (addr v : List ℕ) (c : CacheDb Db)
        → IsValid c.memdb
        → account_at addr (Cache.put_prefixed m st_eth_account addr v c)
          ≡ decode_account w (v, none)
    put_at addr v c h = ap (decode_account w) (put_prefixed-view_self m st_eth_account addr v c h)

    put_elsewhere :
        (addr other v : List ℕ) (c : CacheDb Db)
        → IsValid c.memdb
        → addr ≢ other
        → account_at other (Cache.put_prefixed m st_eth_account addr v c) ≡ account_at other c
    put_elsewhere addr other v c h ne =
        ap (decode_account w) (put_prefixed-view_ne m st_eth_account addr other v c h ne)

    -- The cache after PutEthAccount stored `a` at `addr`: that account is there, and every other
    -- address answers as before.
    pub record Stores (addr : List ℕ) (a : EthAccount) (c c' : CacheDb Db) : Type 0 where
      pub here : account_at addr c' ≡ ok (a, none)
      pub elsewhere : (other : List ℕ) → addr ≢ other → account_at other c' ≡ account_at other c

    -- On a valid cache, PutEthAccount of an encodable account that IsEmpty does not call empty
    -- returns; that account is then held at the address without an error, and every other address
    -- holds what it did before.
    pub put_eth_account-Stores :
        (balance : ℕ) (addr : List ℕ) (a : EthAccount) (c : CacheDb Db)
        → IsAccount balance a
        → is_empty a ≡ false
        → IsValid c.memdb
        → (c' : CacheDb Db) × (put_eth_account w m addr a c ≡ ok c') × Stores addr a c c'
    unfolding put_eth_account
    put_eth_account-Stores balance addr a c h full v = (
      Cache.put_prefixed m st_eth_account addr (encoding w balance a) c,
      rw (full, serialize-encoding w balance a h),
      record {
        here = put_at addr (encoding w balance a) c v ∙ decode_account-encoding balance a h;
        elsewhere = λ other ne. put_elsewhere addr other (encoding w balance a) c v ne;
      },
    )

    -- On a valid cache, PutEthAccount of an account that IsEmpty calls empty, whatever its
    -- balance, returns; the zero account is then held at the address, and every other address
    -- holds what it did before.
    pub put_eth_account_drops :
        (addr : List ℕ) (a : EthAccount) (c : CacheDb Db)
        → is_empty a ≡ true
        → IsValid c.memdb
        → (c' : CacheDb Db) × (put_eth_account w m addr a c ≡ ok c') × Stores addr zero_account c c'
    unfolding put_eth_account decode_account
    put_eth_account_drops addr a c empty v = (
      Cache.put_prefixed m st_eth_account addr [] c,
      rw empty,
      record {
        here = put_at addr [] c v;
        elsewhere = λ other ne. put_elsewhere addr other [] c v ne;
      },
    )
