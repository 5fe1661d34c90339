-- ===== src/Evm/Gas/Examples.antt =====
-- Concrete runs of the gas functions of evm, and their theorems at concrete inputs.
use web.Base.{ℕ, ◌≤◌, ◌≡◌, refl, true, List, [], ◌∷◌, none, min, replicate, arith}
use web.Storage.SortedMap.{reference, Entries}
use web.Storage.Store.{not_found}
use web.Storage.Account.{zero_hash}
use web.Storage.Word256.{words}
use web.Storage.StateDb.{StateDb}
use web.Evm.Word.{documented}
use web.Evm.Memory.{Memory, resize}
use web.Evm.Gas.{memory_gas_cost, call_gas}
use web.Evm.Gas.MemoryFee.{Paid, Charged, memory_gas_cost_lem}
use web.Evm.Gas.CallGas.{call_gas_lem, available_for_call}
use web.Evm.Gas.Sstore.{eip2200_prices, net_gas}
use web.Evm.Gas.Refunds.{Settles, pending, net_gas_lem, original_of, current_of}

abbrev one_word : Memory
one_word = record { store = replicate 32 1; spare = []; last_gas_cost = 3 }

one_word-Paid : Paid one_word
one_word-Paid = record { whole_words = refl; noted = refl }

-- From one word to three.
memory_gas_cost_example :
    Charged 70 one_word (resize 0 96 (memory_gas_cost 70 one_word).1) (memory_gas_cost 70 one_word)
memory_gas_cost_example = memory_gas_cost_lem 0 70 one_word one_word-Paid (omega arith)

call_gas_example :
    call_gas documented true 6400 100 9000 ≡ (min 9000 (available_for_call 6400 100), none)
call_gas_example = call_gas_lem documented 6400 100 9000 (omega arith) (omega arith)

-- A slot that held a value before the transaction and was cleared in it.
abbrev slot_key : List ℕ
slot_key = 5 ∷ 1 ∷ 2 ∷ []

abbrev cleared : StateDb Entries
cleared = record {
  cache_db = record {
    memdb = (slot_key, replicate 32 0) ∷ [];
    backend = record {
      store = record { get = λ k. not_found; batch = [] };
      memdb = (slot_key, replicate 32 7) ∷ [];
      db_err = none;
    };
    key_scratch = [];
  };
  suicided = [];
  logs = [];
  thash = zero_hash;
  bhash = zero_hash;
  refund = 15000;
  snapshots = [];
}

abbrev original : List ℕ
original = original_of words reference eip2200_prices (1 ∷ []) (2 ∷ []) cleared

abbrev current : List ℕ
current = current_of words reference eip2200_prices (1 ∷ []) (2 ∷ []) cleared

owed_at_most : pending words reference eip2200_prices original current ≤ 15000
unfolding pending
owed_at_most = ground arith

-- The slot is written again: the refund is taken back.
net_gas_example :
    Settles words reference eip2200_prices original current
      (replicate 32 9)
      cleared
      (net_gas words reference eip2200_prices (1 ∷ []) (2 ∷ []) (replicate 32 9) cleared)
net_gas_example =
    net_gas_lem words reference eip2200_prices (1 ∷ []) (2 ∷ []) (replicate 32 9) cleared
      owed_at_most (omega arith)
