-- ===== src/Storage/JoinIter/Examples.antt =====
-- Concrete runs of evm/storage/overlaydb/iterator.go, and its theorem at a concrete input.
use web.Base.{◌≡◌, refl, false, [], ◌∷◌, arith}
use web.Base.Keys.{compare_bytes}
use web.Storage.SortedMap.{Entries}
use web.Storage.Iterator.{cursors}
use web.Storage.JoinIter.{
  JoinIter, from_mem, collect, first, next, first_entry, next_entry, skip_deleted, collect_from,
  error, take_mem, take_back, take_smaller, pick, advance_mem, advance_back,
}
use web.Storage.JoinIter.Merge.{merge, live}
use web.Storage.JoinIter.Pass.{collect_lem}

-- The memory deletes the key 1 and adds the key 2.
abbrev in_memory : Entries
in_memory = (1 ∷ [], []) ∷ (2 ∷ [], 7 ∷ []) ∷ []

abbrev in_store : Entries
in_store = (1 ∷ [], 5 ∷ []) ∷ (3 ∷ [], 9 ∷ []) ∷ []

abbrev joined : JoinIter (Entries × Entries)
joined = record {
  backend = (in_store, []);
  memdb = (in_memory, []);
  key = [];
  value = [];
  key_origin = from_mem;
  next_mem_end = false;
  next_back_end = false;
}

collect_example : collect cursors 6 joined ≡ live (merge in_memory in_store)
collect_example =
    collect_lem cursors (λ i. refl) joined refl refl 6 (omega arith, (omega arith, tt))
      (omega arith, (omega arith, tt)) (omega arith)

collect-joined : collect cursors 6 joined ≡ (2 ∷ [], 7 ∷ []) ∷ (3 ∷ [], 9 ∷ []) ∷ []
unfolding collect collect_from first next first_entry next_entry skip_deleted error take_mem
    take_back take_smaller pick advance_mem advance_back compare_bytes
collect-joined = refl
