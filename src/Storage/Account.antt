-- ===== src/Storage/Account.antt =====
-- evm/storage/statedb.go: accounts, their encoding, and how the cache stores them.
pub mod RoundTrip
pub mod Stored
use web.Base.{
  ℕ, suc, ◌+◌, ◌≤◌, ◌≡◌, refl, Bool, true, false, ◌&&◌, List, [], ◌∷◌, ◌++◌, Option, none, some,
  if◌then◌else◌, length, ltb, replicate, ◌==◌, arith, Outcome, ok, panic, ◌>>=◌,
}
use web.Base.Keys.{bytes_eq}
use web.Codec.Sink
use web.Codec.Sink.{Sink}
use web.Codec.Source
use web.Codec.Source.{Source}
use web.Storage.SortedMap.{SortedMap}
use web.Storage.Store.{Error, unexpected_eof, st_eth_account}
use web.Storage.Cache
use web.Storage.Cache.{CacheDb}
use web.Storage.Word256.{Word256}

-- The balance is a pointer, nil in the zero value.
pub record EthAccount : Type 0 where
  pub nonce : ℕ
  pub balance : Option ℕ
  pub code : List ℕ
  pub code_hash : List ℕ

abbrev pub zero_hash : List ℕ
zero_hash = replicate 32 0

abbrev pub zero_account : EthAccount
zero_account = record { nonce = 0; balance = none; code = []; code_hash = zero_hash }

unfoldable pub is_empty : EthAccount → Bool
is_empty self = self.nonce == 0 && bytes_eq self.code_hash zero_hash

module _ (w : Word256) where
  open w use {bytes32, set_bytes32}

  -- `self.Balance.Bytes32()` dereferences the balance.
  unfoldable pub serialization : EthAccount → Sink → Outcome Sink
  serialization self sink = Sink.write_uint64 self.nonce sink >>= λ s₁. elim self.balance [
    | none ↦ panic
    | some balance ↦ Sink.write_bytes (bytes32 balance) s₁ >>= λ s₂.
        Sink.write_var_bytes self.code s₂ >>= λ r. Sink.write_bytes self.code_hash r.1
  ]

  -- codec.SerializeToBytes of one account.
  unfoldable pub serialize_to_bytes : EthAccount → Outcome (List ℕ)
  serialize_to_bytes self = serialization self (Sink.new_sink none) >>= λ sink. ok (Sink.bytes sink)

  -- The ends of input of the nonce, the balance and the code are not looked at; SetBytes32 panics
  -- on fewer than 32 bytes.
  unfoldable pub deserialization : Source → Outcome (EthAccount × Option Error)
  deserialization source = Source.next_uint64 source >>= λ r₁. Source.next_bytes 32 r₁.1 >>= λ r₂.
      if ltb (length r₂.0.0) 32
      then panic
      else (Source.read_var_bytes r₂.1 >>= λ r₃. Source.next_array 32 zero_hash r₃.1 >>= λ r₄. ok (
        record {
          nonce = r₁.0.0;
          balance = some (set_bytes32 r₂.0.0);
          code = r₃.0.0;
          code_hash = r₄.0.0;
        },
        (if r₄.0.1 then some unexpected_eof else none),
      ))

  -- GetEthAccount behind the read: a missing or deleted account is the zero value, with a nil
  -- balance.
  unfoldable pub decode_account : List ℕ × Option Error → Outcome (EthAccount × Option Error)
  decode_account (value, some e) = ok (zero_account, some e)
  decode_account (value, none) =
      if length value == 0
      then ok (zero_account, none)
      else deserialization (Source.new_source value)

  module _ (m : SortedMap) where
    open m use {Db}

    unfoldable pub get_eth_account :
        List ℕ → CacheDb Db → Outcome ((EthAccount × Option Error) × CacheDb Db)
    get_eth_account addr self =
        let (answer, self') = Cache.get_prefixed m st_eth_account addr self in
        decode_account answer >>= λ val. ok (val, self')

    unfoldable pub put_eth_account : List ℕ → EthAccount → CacheDb Db → Outcome (CacheDb Db)
    put_eth_account addr val self =
        if is_empty val
        then ok (Cache.put_prefixed m st_eth_account addr [] self)
        else (serialize_to_bytes val >>= λ raw.
            ok (Cache.put_prefixed m st_eth_account addr raw self))

    unfoldable pub del_eth_account : List ℕ → CacheDb Db → CacheDb Db
    del_eth_account addr self = Cache.put_prefixed m st_eth_account addr [] self
