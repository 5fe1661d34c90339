-- ===== src/Executor/Transition.antt =====
-- executor/state_transition.go: what a message costs, and how it changes the state.
-- A big.Int that is not negative is a number. Log lines and error texts are left out.
pub mod Intrinsic
pub mod Fees
pub mod Settled
use web.Base.{
  ℕ, suc, ◌+◌, ◌-◌, ◌*◌, ◌/◌, ◌%◌, Bool, true, false, not, ◌&&◌, List, [], ◌∷◌, Option, none, some,
  ◌==◌, ltb, if◌then◌else◌, length, replicate, Outcome, ok, panic, ◌>>=◌,
}
use web.Base.Bytes.{u64_mod}
use web.Storage.SortedMap.{SortedMap}
use web.Storage.Word256.{Word256}
use web.Storage.StateDb.{StateDb}
use web.Storage.StateDb.Operations.{get_balance, sub_balance, add_balance, get_nonce, set_nonce}
use web.Evm.Calls.{VmError, Ran, Caller, account, Evm, call, can_transfer}
use web.Evm.Creation.{create1}

pub record Message : Type 0 where
  pub from : List ℕ
  pub to : Option (List ℕ)
  pub gas_price : ℕ
  pub gas : ℕ
  pub value : ℕ
  pub nonce : ℕ
  pub check_nonce : Bool
  pub input : List ℕ

abbrev pub tx_gas : ℕ
tx_gas = 21000

abbrev pub tx_gas_contract_creation : ℕ
tx_gas_contract_creation = 53000

abbrev pub tx_data_zero_gas : ℕ
tx_data_zero_gas = 4

abbrev pub tx_data_non_zero_gas_frontier : ℕ
tx_data_non_zero_gas_frontier = 68

abbrev pub tx_data_non_zero_gas_eip2028 : ℕ
tx_data_non_zero_gas_eip2028 = 16

-- The loop that counts the bytes other than zero.
unfoldable pub count_non_zero : ℕ → List ℕ → ℕ
count_non_zero nz [] = nz
count_non_zero nz (byt ∷ bytes) = count_non_zero (if byt == 0 then nz else nz + 1) bytes

abbrev pub max_uint64 : ℕ
max_uint64 = u64_mod - 1

-- The gas with that of a number of bytes, or a panic on an overflow.
unfoldable pub add_data_gas : ℕ → ℕ → ℕ → Outcome ℕ
add_data_gas gas price bytes =
    if ltb ((max_uint64 - gas) / price) bytes then panic else ok (gas + bytes * price)

unfoldable pub intrinsic_gas : List ℕ → Bool → Bool → Bool → Outcome ℕ
unfolding count_non_zero add_data_gas
intrinsic_gas bytes contract_creation is_homestead is_eip2028 =
    let gas = if contract_creation && is_homestead then tx_gas_contract_creation else tx_gas in
    let nz = count_non_zero 0 bytes in
    let non_zero_gas =
      if is_eip2028 then tx_data_non_zero_gas_eip2028 else tx_data_non_zero_gas_frontier in
    if ltb 0 (length bytes)
    then (do
      with_non_zero ← add_data_gas gas non_zero_gas nz
      add_data_gas with_non_zero tx_data_zero_gas (length bytes - nz))
    else ok gas

-- The gas that is left and the gas that was bought.
pub record Gas : Type 0 where
  pub left : ℕ
  pub initial : ℕ

unfoldable pub gas_used : Gas → ℕ
gas_used g = (g.initial + u64_mod - g.left) % u64_mod

pub data NonceError : Type 0 where
  nonce_too_high nonce_too_low : NonceError

-- The errors that TransitionDb reports in its result.
pub data TxError : Type 0 where
  intrinsic_gas_too_low : TxError
  insufficient_funds_for_transfer : TxError
  vm_error : VmError → TxError

pub data Result : Type 0 where
  refused : NonceError → Result
  executed : ℕ → Option TxError → List ℕ → Result

module _ (keccak : List ℕ → List ℕ) (w : Word256) (m : SortedMap) where
  open m use {Db}

  -- `have.Div(have, price)` overwrites the number that mgval points to. A division by zero panics.
  unfoldable pub charge : ℕ → ℕ → ℕ → Outcome (ℕ × ℕ)
  charge have gas price =
      if ltb have (gas * price)
      then (if price == 0 then panic else ok ((have / price) % u64_mod, have / price))
      else ok (gas, gas * price)

  unfoldable pub buy_gas : Message → StateDb Db → Outcome (Gas × StateDb Db)
  unfolding charge
  buy_gas msg s = do
    (have, s1) ← get_balance keccak w m msg.from s
    (gas, mgval) ← charge have msg.gas msg.gas_price
    s2 ← sub_balance keccak w m msg.from mgval s1
    ok (record { left = gas; initial = gas }, s2)

  unfoldable pub check_nonce : Message → StateDb Db → Outcome (Option NonceError × StateDb Db)
  check_nonce msg s =
      if msg.check_nonce
      then (do
        (nonce, s') ← get_nonce keccak w m msg.from s
        ok (
          if ltb nonce msg.nonce
              then some nonce_too_high
              else (if ltb msg.nonce nonce then some nonce_too_low else none),
          s',
        ))
      else ok (none, s)

  -- SetNonce of the sender to one more than GetNonce.
  unfoldable pub bump_nonce : List ℕ → StateDb Db → Outcome (StateDb Db)
  bump_nonce addr s = do
    (nonce, s') ← get_nonce keccak w m addr s
    set_nonce keccak w m addr ((nonce + 1) % u64_mod) s'

  -- What the message leaves before refunds: the gas, the error, the output and the state.
  pub record Performed : Type 0 where
    pub gas_left : ℕ
    pub error : Option TxError
    pub output : List ℕ
    pub state : StateDb Db

  unfoldable pub from_run : Ran Db → Performed
  from_run r = record {
    gas_left = r.gas;
    error = elim r.error [ none ↦ none | some e ↦ some (vm_error e) ];
    output = r.output;
    state = r.state;
  }

  -- Clause 6: the balance covers the value.
  unfoldable pub affords : Message → StateDb Db → Outcome (Bool × StateDb Db)
  unfolding can_transfer
  affords msg s =
      if ltb 0 msg.value then can_transfer keccak w m msg.from msg.value s else ok (true, s)

  module _ (evm : Evm keccak w m) (create_address : List ℕ → ℕ → List ℕ) where
    unfoldable pub run_message : Message → ℕ → StateDb Db → Outcome Performed
    unfolding bump_nonce from_run
    run_message msg gas s = elim msg.to [
      | none ↦ do
        (addr, r) ←
            create1 keccak w m evm create_address (account msg.from) msg.input gas msg.value s
        ok (from_run r)
      | some to ↦ do
        s' ← bump_nonce msg.from s
        r ← call keccak w m evm (account msg.from) to msg.input gas msg.value s'
        ok (from_run r)
    ]

    -- A message that is not run bumps the nonce.
    unfoldable pub not_run : TxError → Message → ℕ → StateDb Db → Outcome Performed
    unfolding bump_nonce
    not_run e msg gas s = do
      s' ← bump_nonce msg.from s
      ok (record { gas_left = gas; error = some e; output = []; state = s' })

    unfoldable pub perform : ℕ → Message → ℕ → StateDb Db → Outcome Performed
    unfolding run_message not_run affords
    perform intrinsic msg gas s =
        if ltb gas intrinsic then not_run intrinsic_gas_too_low msg 0 s else (do
          (enough, s') ← affords msg s
          (if enough
              then run_message msg (gas - intrinsic) s'
              else not_run insufficient_funds_for_transfer msg (gas - intrinsic) s'))

    -- The refund counter, at most half of the gas used.
    unfoldable pub refunded : Gas → StateDb Db → Gas
    refunded g s =
        let half = gas_used g / 2 in
        record g { left = (g.left + (if ltb s.refund half then s.refund else half)) % u64_mod }

    -- The gas that is left goes back to the sender, the fee to the receiver.
    unfoldable pub pay : Message → List ℕ → Gas → Performed → Outcome (Result × StateDb Db)
    unfolding refunded gas_used
    pay msg receiver g p = do
      let g' = refunded g p.state
      s1 ← add_balance keccak w m msg.from (g'.left * msg.gas_price) p.state
      s2 ← add_balance keccak w m receiver (gas_used g' * msg.gas_price) s1
      ok (executed (gas_used g') p.error p.output, s2)

    unfoldable pub transition_bought :
        Bool → Bool → Message → List ℕ → Gas × StateDb Db → Outcome (Result × StateDb Db)
    unfolding perform pay intrinsic_gas
    transition_bought homestead istanbul msg receiver (g, s) = do
      intrinsic ←
          intrinsic_gas msg.input (elim msg.to [ none ↦ true | some to ↦ false ]) homestead istanbul
      p ← perform intrinsic msg g.left s
      pay msg receiver (record g { left = p.gas_left }) p

    unfoldable pub transition_db :
        Bool → Bool → Message → List ℕ → StateDb Db → Outcome (Result × StateDb Db)
    unfolding transition_bought buy_gas check_nonce
    transition_db homestead istanbul msg receiver s = do
      (wrong, s1) ← check_nonce msg s
      (elim wrong [
        | some e ↦ ok (refused e, s1)
        | none ↦ do
          bought ← buy_gas msg s1
          transition_bought homestead istanbul msg receiver bought
      ])
