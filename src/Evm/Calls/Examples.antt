-- ===== src/Evm/Calls/Examples.antt =====
-- evm/evm.go: calls of a small machine, and their theorems at them.
use web.Base.{ℕ, ◌/◌, true, false, List, [], ◌∷◌, none, some, replicate, ok, Post, arith}
use web.Storage.SortedMap.{reference, Entries}
use web.Storage.Store.{not_found, st_eth_account}
use web.Storage.Word256.{words}
use web.Storage.Account.{EthAccount, zero_hash}
use web.Storage.Account.RoundTrip.{encoding}
use web.Storage.StateDb.{StateDb}
use web.Evm.Calls.{
  execution_reverted, Caller, account, Evm, call, call_code, delegate_call, static_call,
}
use web.Evm.Calls.Leads.{Keeps, IsContained, Leads-refl}
use web.Evm.Calls.Contained.{calls-Keeps}
use web.Evm.Calls.Errors.{IsUndone}
use web.Evm.Calls.Undone.{calls-IsUndone}
use web.Evm.Creation.{Created, create1, create2}
use web.Evm.Creation.Contained.{creations-Keeps}

abbrev account_of : ℕ → EthAccount
account_of nonce = record {
  nonce = nonce;
  balance = some 1000000;
  code = 0x60 ∷ [];
  code_hash = replicate 32 9;
}

-- An account that has received a balance alone.
abbrev paid_account : EthAccount
paid_account = record { nonce = 0; balance = some 5; code = []; code_hash = zero_hash }

-- A sender, a contract and an address that is free for another.
abbrev pub state : StateDb Entries
state = record {
  cache_db = record {
    memdb = [];
    backend = record {
      store = record { get = λ k. not_found; batch = [] };
      memdb =
          (st_eth_account ∷ replicate 20 1, encoding words 1000000 (account_of 3))
          ∷ (st_eth_account ∷ replicate 20 2, encoding words 1000000 (account_of 1))
          ∷ (st_eth_account ∷ replicate 20 3, encoding words 5 paid_account)
          ∷ [];
      db_err = none;
    };
    key_scratch = [];
  };
  suicided = [];
  logs = [];
  thash = zero_hash;
  bhash = zero_hash;
  refund = 7;
  snapshots = [];
}

abbrev pub hash_of : List ℕ → List ℕ
hash_of code = replicate 32 7

-- A machine whose code always reverts, with half of the gas left.
abbrev pub reverting : Evm hash_of words reference
reverting = record {
  depth = 0;
  no_recursion = false;
  is_homestead = true;
  is_eip158 = true;
  run = λ c input read_only s.
      ok (record { output = []; gas = c.gas / 2; error = some execution_reverted; state = s });
  precompile = λ addr. none;
}

pub reverting-IsContained : IsContained hash_of words reference reverting
reverting-IsContained depth c input read_only s deep =
    (Leads-refl hash_of words reference depth s deep, omega arith)

abbrev sender : Caller
sender = account (replicate 20 1)

abbrev target : List ℕ
target = replicate 20 2

calls-Keeps_example :
    Post
      (Keeps hash_of words reference 0 state 90)
      (call hash_of words reference reverting sender target [] 90 0 state)
    × Post
        (Keeps hash_of words reference 0 state 90)
        (call_code hash_of words reference reverting sender target [] 90 0 state)
    × Post
        (Keeps hash_of words reference 0 state 90)
        (delegate_call hash_of words reference reverting sender target [] 90 state)
    × Post
        (Keeps hash_of words reference 0 state 90)
        (static_call hash_of words reference reverting sender target [] 90 state)
calls-Keeps_example =
    calls-Keeps hash_of words reference reverting reverting-IsContained 0 sender target [] 90 0
      state (omega arith)

calls-IsUndone_example :
    Post
      (IsUndone hash_of words reference (replicate 20 1) state)
      (call hash_of words reference reverting sender target [] 90 0 state)
    × Post
        (IsUndone hash_of words reference (replicate 20 1) state)
        (call_code hash_of words reference reverting sender target [] 90 0 state)
    × Post
        (IsUndone hash_of words reference (replicate 20 1) state)
        (delegate_call hash_of words reference reverting sender target [] 90 state)
    × Post
        (IsUndone hash_of words reference (replicate 20 1) state)
        (static_call hash_of words reference reverting sender target [] 90 state)
calls-IsUndone_example =
    calls-IsUndone hash_of words reference reverting reverting-IsContained sender target [] 90 0
      state

-- A machine that returns one byte of code.
abbrev deploying : Evm hash_of words reference
deploying = record {
  depth = 0;
  no_recursion = false;
  is_homestead = true;
  is_eip158 = true;
  run = λ c input read_only s.
      ok (record { output = 0x5b ∷ []; gas = c.gas; error = none; state = s });
  precompile = λ addr. none;
}

deploying-IsContained : IsContained hash_of words reference deploying
deploying-IsContained depth c input read_only s deep =
    (Leads-refl hash_of words reference depth s deep, omega arith)

abbrev fresh : List ℕ
fresh = replicate 20 3

creations-Keeps_example :
    Post
      (λ (r : Created hash_of words reference). Keeps hash_of words reference 0 state 900 r.1)
      (create1 hash_of words reference deploying (λ a n. fresh) sender [] 900 0 state)
    × Post
        (λ (r : Created hash_of words reference). Keeps hash_of words reference 0 state 900 r.1)
        (create2 hash_of words reference deploying (λ a s h. fresh) sender [] 900 0 [] state)
creations-Keeps_example =
    creations-Keeps hash_of words reference deploying deploying-IsContained 0 (λ a n. fresh)
      (λ a s h. fresh) sender [] [] 900 0 state (omega arith)
