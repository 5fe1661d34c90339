-- ===== src/Evm/Gas/Sstore.antt =====
-- evm/gas_table.go: the net gas of SSTORE, with its refunds.
use web.Base.{
  ℕ, ◌-◌, Bool, not, ◌&&◌, List, Option, none, some, if◌then◌else◌, leb, ◌==◌, Outcome, ok, ◌>>=◌,
}
use web.Base.Keys.{bytes_eq}
use web.Storage.SortedMap.{SortedMap}
use web.Storage.Account.{zero_hash}
use web.Storage.StateDb.{StateDb, get_state, get_committed_state, add_refund, sub_refund}
use web.Storage.Word256
use web.Evm.Word.{Word}
use web.Evm.Stack.{Stack, back}
use web.Evm.Gas.{GasError, out_of_sentry_gas}

-- The prices of a rule: the constants of EIP-1283 and of EIP-2200.
pub record Prices : Type 0 where
  pub noop : ℕ
  pub init : ℕ
  pub clean : ℕ
  pub dirty : ℕ
  pub clear_refund : ℕ
  pub reset_clear_refund : ℕ
  pub reset_refund : ℕ

abbrev pub net_prices : Prices
net_prices = record {
  noop = 200;
  init = 20000;
  clean = 5000;
  dirty = 200;
  clear_refund = 15000;
  reset_clear_refund = 19800;
  reset_refund = 4800;
}

abbrev pub eip2200_prices : Prices
eip2200_prices = record {
  noop = 800;
  init = 20000;
  clean = 5000;
  dirty = 800;
  clear_refund = 15000;
  reset_clear_refund = 20000 - 800;
  reset_refund = 5000 - 800;
}

unfoldable pub is_zero : List ℕ → Bool
is_zero h = bytes_eq h zero_hash

module _ (v : Word256.Word256) (m : SortedMap) (prices : Prices) where
  open m use {Db}

  -- The refunds of a write to a dirty slot: for clearing it, and for setting it back.
  unfoldable pub clearing : List ℕ → List ℕ → List ℕ → StateDb Db → Outcome (StateDb Db)
  clearing original current value s =
      if not (is_zero original)
      then (if is_zero current
          then sub_refund v m prices.clear_refund s
          else if is_zero value
          then ok (add_refund v m prices.clear_refund s)
          else ok s)
      else ok s

  unfoldable pub resetting : List ℕ → List ℕ → StateDb Db → StateDb Db
  resetting original value s =
      if bytes_eq original value
      then (if is_zero original
          then add_refund v m prices.reset_clear_refund s
          else add_refund v m prices.reset_refund s)
      else s

  -- A write of `value` where the slot held `current` and, before the transaction, `original`.
  unfoldable pub metered : List ℕ → List ℕ → List ℕ → StateDb Db → Outcome (ℕ × StateDb Db)
  metered original current value s =
      if bytes_eq original current
      then (if is_zero original
          then ok (prices.init, s)
          else if is_zero value
          then ok (prices.clean, add_refund v m prices.clear_refund s)
          else ok (prices.clean, s))
      else (clearing original current value s >>= λ t.
          ok (prices.dirty, resetting original value t))

  unfoldable pub net_gas : List ℕ → List ℕ → List ℕ → StateDb Db → Outcome (ℕ × StateDb Db)
  net_gas address slot value s =
      let (current, s₁) = get_state v m address slot s in
      let (original, s₂) = get_committed_state v m address slot s₁ in
      if bytes_eq current value then ok (prices.noop, s₁) else metered original current value s₂

module _ (w : Word) (v : Word256.Word256) (m : SortedMap) where
  open m use {Db}
  open w use {bytes32}

  -- gasSStore; `legacy` where Petersburg is active or Constantinople is not.
  unfoldable pub gas_sstore : Bool → List ℕ → Stack → StateDb Db → Outcome (ℕ × StateDb Db)
  gas_sstore legacy address stack s = back 1 stack >>= λ y. back 0 stack >>= λ x.
      if legacy
      then (let (current, s₁) = get_state v m address (bytes32 x) s in
          if is_zero current && not (y == 0)
          then ok (20000, s₁)
          else if not (is_zero current) && (y == 0)
          then ok (5000, add_refund v m 15000 s₁)
          else ok (5000, s₁))
      else net_gas v m net_prices address (bytes32 x) (bytes32 y) s

  -- gasSStoreEIP2200.
  unfoldable pub gas_sstore_eip2200 :
      ℕ → List ℕ → Stack → StateDb Db → Outcome ((ℕ × Option GasError) × StateDb Db)
  gas_sstore_eip2200 contract_gas address stack s =
      if leb contract_gas 2300
      then ok ((0, some out_of_sentry_gas), s)
      else (back 1 stack >>= λ y. back 0 stack >>= λ x.
          net_gas v m eip2200_prices address (bytes32 x) (bytes32 y) s >>= λ r.
          ok ((r.0, none), r.1))
