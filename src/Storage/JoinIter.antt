-- ===== src/Storage/JoinIter.antt =====
-- evm/storage/overlaydb/iterator.go: one iterator over the memory's entries and the store's.
pub mod Merge
pub mod Advance
pub mod Steps
pub mod Skip
pub mod Pass
mod Examples
use web.Base.{
  ℕ, zero, suc, Bool, true, false, not, ◌&&◌, List, [], ◌∷◌, Option, none, some, if◌then◌else◌,
  length, ◌==◌,
}
use web.Base.Keys.{compare_bytes}
use web.Storage.SortedMap.{Entries}
use web.Storage.Store.{Error}
use web.Storage.Iterator.{StoreIterator}
use Prim.Native.Nat.{Ordering, lt, eq, gt}

pub data KeyOrigin : Type 0 where
  from_mem from_back from_both : KeyOrigin

abbrev pub reads_mem : KeyOrigin → Bool
reads_mem from_mem = true
reads_mem from_back = false
reads_mem from_both = true

abbrev pub reads_back : KeyOrigin → Bool
reads_back from_mem = false
reads_back from_back = true
reads_back from_both = true

pub record JoinIter (Iter : Type 0) : Type 0 where
  pub backend : Iter
  pub memdb : Iter
  pub key : List ℕ
  pub value : List ℕ
  pub key_origin : KeyOrigin
  pub next_mem_end : Bool
  pub next_back_end : Bool

module _ (it : StoreIterator) where
  open it use {
    Iter, first as it_first, next as it_next, key as it_key, value as it_value, error as it_error,
  }

  unfoldable pub new_join_iter : Iter → Iter → JoinIter Iter
  new_join_iter mem_iter backend_iter = record {
    backend = backend_iter;
    memdb = mem_iter;
    key = [];
    value = [];
    key_origin = from_mem;
    next_mem_end = false;
    next_back_end = false;
  }

  unfoldable pub error : JoinIter Iter → Option Error
  error iter = elim (it_error iter.backend) [ some e ↦ some e | none ↦ it_error iter.memdb ]

  unfoldable pub take_mem : KeyOrigin → JoinIter Iter → JoinIter Iter
  take_mem origin iter = record iter {
    key = it_key iter.memdb;
    value = it_value iter.memdb;
    key_origin = origin;
  }

  unfoldable pub take_back : JoinIter Iter → JoinIter Iter
  take_back iter = record iter {
    key = it_key iter.backend;
    value = it_value iter.backend;
    key_origin = from_back;
  }

  -- The smaller key; the memory's entry hides the store's.
  unfoldable pub take_smaller : JoinIter Iter → JoinIter Iter
  take_smaller iter = elim (compare_bytes (it_key iter.memdb) (it_key iter.backend)) [
    | lt ↦ take_mem from_mem iter
    | eq ↦ take_mem from_both iter
    | gt ↦ take_back iter
  ]

  -- The method `first`.
  unfoldable pub first_entry : JoinIter Iter → Bool × JoinIter Iter
  first_entry iter =
      let (back, b) = it_first iter.backend in
      let (mem, m) = it_first iter.memdb in
      let iter' = record iter { backend = b; memdb = m } in
      elim (error iter') [
        | some e ↦ (false, iter')
        | none ↦
            if back
            then (if not mem then (true, take_back iter') else (true, take_smaller iter'))
            else if mem
            then (true, take_mem from_mem iter')
            else (false, iter')
      ]

  unfoldable pub advance_mem : JoinIter Iter → JoinIter Iter
  advance_mem iter =
      if reads_mem iter.key_origin && not iter.next_mem_end
      then (let (more, m) = it_next iter.memdb in
          record iter { memdb = m; next_mem_end = not more })
      else iter

  unfoldable pub advance_back : JoinIter Iter → JoinIter Iter
  advance_back iter =
      if reads_back iter.key_origin && not iter.next_back_end
      then (let (more, b) = it_next iter.backend in
          record iter { backend = b; next_back_end = not more })
      else iter

  unfoldable pub pick : JoinIter Iter → Bool × JoinIter Iter
  pick iter =
      if iter.next_back_end
      then (if iter.next_mem_end
          then (false, record iter { key = []; value = [] })
          else (true, take_mem from_mem iter))
      else if iter.next_mem_end
      then (true, take_back iter)
      else (true, take_smaller iter)

  -- The method `next`.
  unfoldable pub next_entry : JoinIter Iter → Bool × JoinIter Iter
  next_entry iter =
      let iter' = advance_back (advance_mem iter) in
      elim (error iter') [ some e ↦ (false, iter') | none ↦ pick iter' ]

  -- The loops that pass over deleted entries. Every turn moves on by one entry.
  unfoldable pub skip_deleted : ℕ → JoinIter Iter → Bool × JoinIter Iter
  skip_deleted zero iter = (false, iter)
  skip_deleted (suc fuel) iter = elim (length iter.value == 0) [
    | false ↦ (true, iter)
    | true ↦ elim (next_entry iter).0 [
      | false ↦ (false, (next_entry iter).1)
      | true ↦ skip_deleted fuel (next_entry iter).1
    ]
  ]

  -- First and Next.
  unfoldable pub first : ℕ → JoinIter Iter → Bool × JoinIter Iter
  first fuel iter = elim (first_entry iter).0 [
    | false ↦ (false, (first_entry iter).1)
    | true ↦ skip_deleted fuel (first_entry iter).1
  ]

  unfoldable pub next : ℕ → JoinIter Iter → Bool × JoinIter Iter
  next fuel iter = elim (next_entry iter).0 [
    | false ↦ (false, (next_entry iter).1)
    | true ↦ skip_deleted fuel (next_entry iter).1
  ]

  -- The caller's loop `for has := iter.First(); has; has = iter.Next()`.
  unfoldable pub collect_from : ℕ → ℕ → Bool × JoinIter Iter → Entries
  collect_from zero fuel here = []
  collect_from (suc turns) fuel here = elim here.0 [
    | false ↦ []
    | true ↦ (here.1.key, here.1.value) ∷ collect_from turns fuel (next fuel here.1)
  ]

  unfoldable pub collect : ℕ → JoinIter Iter → Entries
  collect fuel iter = collect_from fuel fuel (first fuel iter)
