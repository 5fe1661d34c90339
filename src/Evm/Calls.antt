-- ===== src/Evm/Calls.antt =====
-- evm/evm.go: calls of contracts and their creation, over the state of Storage/StateDb.
pub mod Leads
pub mod Runs
pub mod Contained
pub mod Errors
pub mod Undone
pub mod Examples
-- The interpreter is a parameter, as are the precompiled contracts; the tracer is left out. A call
-- that panics has no result.
use web.Base.{
  ℕ, suc, ◌+◌, ◌-◌, ◌*◌, ◌%◌, Bool, true, false, not, ◌&&◌, ◌||◌, List, [], ◌∷◌, Option, none, some,
  ◌==◌, ltb, leb, if◌then◌else◌, length, Outcome, ok, panic, ◌>>=◌,
}
use web.Base.Bytes.{u64_mod}
use web.Base.Keys.{bytes_eq}
use web.Storage.SortedMap.{SortedMap}
use web.Storage.Word256.{Word256}
use web.Storage.Account.{zero_hash}
use web.Storage.StateDb.{StateDb, snapshot, revert_to_snapshot}
use web.Storage.StateDb.Operations.{
  get_balance, sub_balance, add_balance, get_nonce, set_nonce, get_code, get_code_hash, set_code,
  exist,
}
use web.Evm.Contract.{Contract, new_contract, set_call_code, use_gas}

-- The errors of evm/errors that a call distinguishes or returns itself.
pub data VmError : Type 0 where
  depth_exceeded : VmError
  insufficient_balance : VmError
  address_collision : VmError
  execution_reverted : VmError
  code_store_out_of_gas : VmError
  max_code_size_exceeded : VmError
  out_of_gas : VmError
  other_error : ℕ → VmError

abbrev pub is_reverted : VmError → Bool
is_reverted execution_reverted = true
is_reverted _ = false

abbrev pub is_code_store : VmError → Bool
is_code_store code_store_out_of_gas = true
is_code_store _ = false

-- What a run or a call returns.
pub record Ran (Db : Type 0) : Type 0 where
  pub output : List ℕ
  pub gas : ℕ
  pub error : Option VmError
  pub state : StateDb Db

pub record Precompiled : Type 0 where
  pub required_gas : List ℕ → ℕ
  pub run : List ℕ → List ℕ × Option VmError

-- A ContractRef: an account's address, or a contract.
pub data Caller : Type 0 where
  account : List ℕ → Caller
  contract : Contract → Caller

abbrev pub address_of : Caller → List ℕ
address_of (account a) = a
address_of (contract c) = c.self_address

unfoldable pub contract_of : Caller → List ℕ → ℕ → ℕ → Contract
contract_of (account a) object value gas = new_contract a none object value gas
contract_of (contract c) object value gas =
    new_contract c.self_address (some c.jumpdests) object value gas

abbrev pub call_create_depth : ℕ
call_create_depth = 1024

abbrev pub create_data_gas : ℕ
create_data_gas = 200

abbrev pub max_code_size : ℕ
max_code_size = 24576

unfoldable pub run_precompiled {ℓ} :
    {A : Type ℓ} → Precompiled → List ℕ → ℕ → (List ℕ → ℕ → Option VmError → A) → A
run_precompiled p input supplied k =
    let cost = p.required_gas input in
    if ltb supplied cost
    then k [] 0 (some out_of_gas)
    else (let (output, error) = p.run input in k output (supplied - cost) error)

module _ (keccak : List ℕ → List ℕ) (w : Word256) (m : SortedMap) where
  open m use {Db}

  -- The EVM: its depth, its configuration and rules, the interpreter's Run on a contract, an input
  -- and whether state may only be read, and the precompiled contracts.
  pub record Evm : Type 0 where
    pub depth : ℕ
    pub no_recursion : Bool
    pub is_homestead : Bool
    pub is_eip158 : Bool
    pub run : Contract → List ℕ → Bool → StateDb Db → Outcome (Ran Db)
    pub precompile : List ℕ → Option Precompiled

  unfoldable pub failed : VmError → ℕ → StateDb Db → Outcome (Ran Db)
  failed e gas s = ok (record { output = []; gas = gas; error = some e; state = s })

  unfoldable pub succeeded : ℕ → StateDb Db → Outcome (Ran Db)
  succeeded gas s = ok (record { output = []; gas = gas; error = none; state = s })

  -- CanTransfer and Transfer of executor/evm.go.
  unfoldable pub can_transfer : List ℕ → ℕ → StateDb Db → Outcome (Bool × StateDb Db)
  can_transfer addr amount s = do
    (balance, s') ← get_balance keccak w m addr s
    ok (leb amount balance, s')

  unfoldable pub transfer : List ℕ → List ℕ → ℕ → StateDb Db → Outcome (StateDb Db)
  transfer sender recipient amount s = do
    s' ← sub_balance keccak w m sender amount s
    add_balance keccak w m recipient amount s'

  -- What follows a run: an error reverts, and takes the gas unless the code reverted itself.
  unfoldable pub settle : ℕ → Ran Db → Outcome (Ran Db)
  settle id r = elim r.error [
    | none ↦ ok r
    | some e ↦ do
      s ← revert_to_snapshot w m id r.state
      ok (record r { gas = if is_reverted e then r.gas else 0; state = s })
  ]

  module _ (evm : Evm) where
    unfoldable pub run_code : Contract → List ℕ → List ℕ → Bool → StateDb Db → Outcome (Ran Db)
    run_code c addr input read_only s = do
      (hash, s1) ← get_code_hash keccak w m addr s
      (code, s2) ← get_code keccak w m addr s1
      evm.run (set_call_code addr hash code c) input read_only s2

    -- A precompiled contract, or the code at an address in a contract.
    unfoldable pub run_at : Contract → List ℕ → List ℕ → ℕ → Bool → StateDb Db → Outcome (Ran Db)
    unfolding run_code run_precompiled
    run_at c addr input gas read_only s = elim (evm.precompile addr) [
      | some p ↦
          run_precompiled p input gas λ output left error.
            ok (record { output = output; gas = left; error = error; state = s })
      | none ↦ run_code c addr input read_only s
    ]

    -- Call's own run does nothing for an account without code.
    unfoldable pub run_called : Caller → List ℕ → List ℕ → ℕ → ℕ → StateDb Db → Outcome (Ran Db)
    unfolding run_precompiled
    run_called caller addr input gas value s = elim (evm.precompile addr) [
      | some p ↦
          run_precompiled p input gas λ output left error.
            ok (record { output = output; gas = left; error = error; state = s })
      | none ↦ do
        (code, s1) ← get_code keccak w m addr s
        (if length code == 0 then succeeded gas s1 else (do
          (hash, s2) ← get_code_hash keccak w m addr s1
          evm.run (set_call_code addr hash code (contract_of caller addr value gas)) input false
              s2))
    ]

    -- The value moves, the code runs, and an error undoes both.
    unfoldable pub call_moving :
        Caller → List ℕ → List ℕ → ℕ → ℕ → ℕ → StateDb Db → Outcome (Ran Db)
    unfolding run_called settle transfer
    call_moving caller addr input gas value id s = do
      s' ← transfer (address_of caller) addr value s
      r ← run_called caller addr input gas value s'
      settle id r

    abbrev pub is_precompiled : List ℕ → Bool
    is_precompiled addr = elim (evm.precompile addr) [ none ↦ false | some p ↦ true ]

    -- Behind the checks. CreateAccount of StateDB does nothing.
    unfoldable pub call_checked : Caller → List ℕ → List ℕ → ℕ → ℕ → StateDb Db → Outcome (Ran Db)
    unfolding call_moving succeeded
    call_checked caller addr input gas value s = do
      let (id, s1) = snapshot w m s
      (found, s2) ← exist keccak w m addr s1
      (if not found && (not (is_precompiled addr) && (evm.is_eip158 && value == 0))
          then succeeded gas s2
          else call_moving caller addr input gas value id s2)

    unfoldable pub call : Caller → List ℕ → List ℕ → ℕ → ℕ → StateDb Db → Outcome (Ran Db)
    unfolding call_checked failed succeeded can_transfer
    call caller addr input gas value s =
        if evm.no_recursion && ltb 0 evm.depth
        then succeeded gas s
        else (if ltb call_create_depth evm.depth
            then failed depth_exceeded gas s
            else (if value == 0 then call_checked caller addr input gas value s else (do
              (enough, s') ← can_transfer (address_of caller) value s
              (if enough
                  then call_checked caller addr input gas value s'
                  else failed insufficient_balance gas s'))))

    unfoldable pub snapshot_and_run : Contract → List ℕ → List ℕ → ℕ → StateDb Db → Outcome (Ran Db)
    unfolding run_at settle
    snapshot_and_run c addr input gas s = do
      let (id, s1) = snapshot w m s
      r ← run_at c addr input gas false s1
      settle id r

    unfoldable pub call_code : Caller → List ℕ → List ℕ → ℕ → ℕ → StateDb Db → Outcome (Ran Db)
    unfolding snapshot_and_run failed succeeded can_transfer
    call_code caller addr input gas value s =
        if evm.no_recursion && ltb 0 evm.depth
        then succeeded gas s
        else (if ltb call_create_depth evm.depth then failed depth_exceeded gas s else (do
          (enough, s') ← can_transfer (address_of caller) value s
          (if enough
              then snapshot_and_run (contract_of caller (address_of caller) value gas) addr input
                  gas s'
              else failed insufficient_balance gas s')))

    -- AsDelegate: the caller's own caller and value.
    unfoldable pub as_delegate : Contract → Contract → Contract
    as_delegate parent c = record c { caller_address = parent.caller_address; value = parent.value }

    -- A caller that is no contract fails AsDelegate's type assertion, unless a precompiled contract
    -- is called.
    unfoldable pub delegate_call : Caller → List ℕ → List ℕ → ℕ → StateDb Db → Outcome (Ran Db)
    unfolding snapshot_and_run failed succeeded as_delegate
    delegate_call (contract parent) addr input gas s =
        if evm.no_recursion && ltb 0 evm.depth
        then succeeded gas s
        else (if ltb call_create_depth evm.depth
            then failed depth_exceeded gas s
            else snapshot_and_run
                (as_delegate parent (contract_of (contract parent) parent.self_address 0 gas)) addr
                input gas s)
    delegate_call (account a) addr input gas s =
        if evm.no_recursion && ltb 0 evm.depth
        then succeeded gas s
        else (if ltb call_create_depth evm.depth
            then failed depth_exceeded gas s
            else (if is_precompiled addr
                then snapshot_and_run (contract_of (account a) a 0 gas) addr input gas s
                else panic))

    -- The balance of zero that is added touches the account.
    unfoldable pub static_call : Caller → List ℕ → List ℕ → ℕ → StateDb Db → Outcome (Ran Db)
    unfolding run_at settle failed succeeded
    static_call caller addr input gas s =
        if evm.no_recursion && ltb 0 evm.depth
        then succeeded gas s
        else (if ltb call_create_depth evm.depth then failed depth_exceeded gas s else (do
          let (id, s1) = snapshot w m s
          s2 ← add_balance keccak w m addr 0 s1
          r ← run_at (contract_of caller addr 0 gas) addr input gas true s2
          settle id r))
