-- ===== src/Storage/Store.antt =====
-- evm/storage/schema: the store below the overlay, and the key prefixes.
-- The store is an interface that the embedding program implements: its reads are a function, its
-- batch is the list of the calls made.
use web.Base.{ℕ, List}

pub data Error : Type 0 where
  unexpected_eof : Error
  store_error : ℕ → Error

-- What `Get` answers: a value, ErrNotFound, or another error.
pub data Lookup : Type 0 where
  found : List ℕ → Lookup
  not_found : Lookup
  failed : Error → Lookup

pub data BatchOp : Type 0 where
  batch_put : List ℕ → List ℕ → BatchOp
  batch_delete : List ℕ → BatchOp

pub record Store : Type 0 where
  pub get : List ℕ → Lookup
  pub batch : List BatchOp

abbrev pub st_storage : ℕ
st_storage = 0x05

abbrev pub st_eth_account : ℕ
st_eth_account = 0x31
