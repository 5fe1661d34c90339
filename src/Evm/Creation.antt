-- ===== src/Evm/Creation.antt =====
-- evm/evm.go, create, Create and Create2: a contract is made by running its deployment code.
pub mod Contained
use web.Base.{
  ℕ, ◌+◌, ◌*◌, ◌%◌, Bool, true, false, not, ◌&&◌, ◌||◌, List, [], Option, none, some, ◌==◌, ltb,
  if◌then◌else◌, length, replicate, Outcome, ok, ◌>>=◌, ◌-◌,
}
use web.Base.Bytes.{u64_mod}
use web.Base.Keys.{bytes_eq}
use web.Storage.SortedMap.{SortedMap}
use web.Storage.Word256.{Word256}
use web.Storage.Account.{zero_hash}
use web.Storage.StateDb.{StateDb, snapshot, revert_to_snapshot}
use web.Storage.StateDb.Operations.{get_nonce, set_nonce, get_code_hash, set_code}
use web.Evm.Contract.{Contract}
use web.Evm.Calls.{
  VmError, depth_exceeded, insufficient_balance, address_collision, code_store_out_of_gas,
  max_code_size_exceeded, is_reverted, is_code_store, call_create_depth, create_data_gas,
  max_code_size, Ran, Caller, address_of, contract_of, Evm, failed, succeeded, can_transfer,
  transfer,
}

-- The zero address, which create returns if it stops early.
abbrev pub no_address : List ℕ
no_address = replicate 20 0

module _ (keccak : List ℕ → List ℕ) (w : Word256) (m : SortedMap) where
  open m use {Db}

  -- The address of the new contract, and what its creation leaves.
  abbrev pub Created : Type 0
  Created = List ℕ × Ran Db

  unfoldable pub at_address : List ℕ → Outcome (Ran Db) → Outcome Created
  at_address addr result = do r ← result; ok (addr, r)

  module _ (evm : Evm keccak w m) where
    unfoldable pub too_long : List ℕ → Bool
    too_long code = evm.is_eip158 && ltb max_code_size (length code)

    -- The code that was returned is paid for and stored.
    unfoldable pub store_code : List ℕ → Ran Db → Outcome (Ran Db)
    store_code addr r = elim r.error [
      | some e ↦ ok r
      | none ↦
          let cost = (length r.output * create_data_gas) % u64_mod in
          if too_long r.output
          then ok r
          else (if ltb r.gas cost then ok (record r { error = some code_store_out_of_gas }) else (do
            s ← set_code keccak w m addr r.output r.state
            ok (record r { gas = r.gas - cost; state = s })))
    ]

    -- An error that reverts: each, but before Homestead the lack of gas for the code.
    unfoldable pub undoes : Option VmError → Bool
    undoes none = false
    undoes (some e) = evm.is_homestead || not (is_code_store e)

    unfoldable pub kept_gas : Option VmError → ℕ → ℕ
    kept_gas none gas = 0
    kept_gas (some e) gas = if is_reverted e then gas else 0

    unfoldable pub size_error : Bool → Option VmError → Option VmError
    size_error true none = some max_code_size_exceeded
    size_error true (some e) = some e
    size_error false e = e

    -- `long` says whether the code that was returned is too long.
    unfoldable pub finish : Bool → ℕ → Ran Db → Outcome (Ran Db)
    unfolding undoes kept_gas size_error
    finish long id r =
        if long || undoes r.error
        then (do
          s ← revert_to_snapshot w m id r.state
          ok (record r {
            gas = kept_gas r.error r.gas;
            error = size_error long r.error;
            state = s;
          }))
        else ok r

    unfoldable pub deploy : ℕ → List ℕ → Contract → StateDb Db → Outcome (Ran Db)
    unfolding store_code finish too_long succeeded
    deploy id addr c s =
        if evm.no_recursion && ltb 0 evm.depth then succeeded keccak w m c.gas s else (do
          r ← evm.run c [] false s
          stored ← store_code addr r
          finish (too_long r.output) id stored)

    unfoldable pub touch : List ℕ → StateDb Db → Outcome (StateDb Db)
    touch addr s = if evm.is_eip158 then set_nonce keccak w m addr 1 s else ok s

    -- From the snapshot on. CreateAccount of StateDB does nothing.
    unfoldable pub create_at :
        Caller → List ℕ → List ℕ → ℕ → ℕ → List ℕ → StateDb Db → Outcome (Ran Db)
    unfolding deploy touch transfer contract_of
    create_at caller code hash gas value addr s = do
      let (id, s1) = snapshot w m s
      s2 ← touch addr s1
      s3 ← transfer keccak w m (address_of caller) addr value s2
      let c = contract_of caller addr value gas
      deploy id addr (record c { code = code; code_hash = hash; code_addr = some addr }) s3

    abbrev pub is_taken : ℕ → List ℕ → Bool
    is_taken nonce hash =
        not (nonce == 0) || (not (bytes_eq hash zero_hash) && not (bytes_eq hash (keccak [])))

    -- The caller's nonce goes up, also if the address is taken.
    unfoldable pub create_funded :
        Caller → List ℕ → List ℕ → ℕ → ℕ → List ℕ → StateDb Db → Outcome Created
    unfolding create_at failed at_address
    create_funded caller code hash gas value addr s = do
      (nonce, s1) ← get_nonce keccak w m (address_of caller) s
      s2 ← set_nonce keccak w m (address_of caller) ((nonce + 1) % u64_mod) s1
      (old_hash, s3) ← get_code_hash keccak w m addr s2
      (old_nonce, s4) ← get_nonce keccak w m addr s3
      (if is_taken old_nonce old_hash
          then at_address no_address (failed keccak w m address_collision 0 s4)
          else at_address addr (create_at caller code hash gas value addr s4))

    unfoldable pub create : Caller → List ℕ → List ℕ → ℕ → ℕ → List ℕ → StateDb Db → Outcome Created
    unfolding create_funded failed can_transfer at_address
    create caller code hash gas value addr s =
        if ltb call_create_depth evm.depth
        then at_address no_address (failed keccak w m depth_exceeded gas s)
        else (do
          (enough, s') ← can_transfer keccak w m (address_of caller) value s
          (if enough
              then create_funded caller code hash gas value addr s'
              else at_address no_address (failed keccak w m insufficient_balance gas s')))

    -- Create and Create2, whose addresses crypto computes. Create leaves the hash of the code open.
    unfoldable pub create1 :
        (List ℕ → ℕ → List ℕ) → Caller → List ℕ → ℕ → ℕ → StateDb Db → Outcome Created
    unfolding create
    create1 create_address caller code gas value s = do
      (nonce, s') ← get_nonce keccak w m (address_of caller) s
      create caller code zero_hash gas value (create_address (address_of caller) nonce) s'

    unfoldable pub create2 :
        (List ℕ → List ℕ → List ℕ → List ℕ)
        → Caller
        → List ℕ
        → ℕ
        → ℕ
        → List ℕ
        → StateDb Db
        → Outcome Created
    unfolding create
    create2 create_address2 caller code gas endowment salt s =
        let hash = keccak code in
        create caller code hash gas endowment (create_address2 (address_of caller) salt hash) s
