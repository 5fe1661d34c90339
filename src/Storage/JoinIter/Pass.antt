-- ===== src/Storage/JoinIter/Pass.antt =====
-- evm/storage/overlaydb/iterator.go: a pass yields the merge of the entries without the deleted.
use web.Base.{
  ℕ, ◌+◌, ◌≤◌, ◌<◌, ◌≡◌, refl, sym, ap, ◌∙◌, true, false, List, [], ◌∷◌, none, length, ◌==◌, All,
  arith, inl, inr, Bool-cases,
}
use web.Base.Keys.{compare_bytes}
use web.Storage.SortedMap.{Entries}
use web.Storage.Iterator.{StoreIterator, is_some_left}
use web.Storage.JoinIter.{
  JoinIter, from_mem, take_mem, take_back, take_smaller, first_entry, first, collect,
}
use Prim.Native.Nat.{lt, gt}
use web.Storage.JoinIter.Merge.{
  merge, live, merge_less, merge_more, merge_nil, nil_merge, length-merge, length-live,
}
use web.Storage.JoinIter.Steps.{Yields, Stands-mem, Stands-back, picked_smaller}
use web.Storage.JoinIter.Advance.{Views, Views-start, start_view, no_error}
use web.Storage.JoinIter.Skip.{live_deleted, live_kept, first_lem, collect_from_lem}

abbrev unnoticed : Entries
unnoticed = ([], []) ∷ []

-- An entry with a key.
abbrev pub HasKey : List ℕ × List ℕ → Type 0
HasKey e = 0 < length e.0

compare_bytes-nil : (k : List ℕ) → 0 < length k → compare_bytes [] k ≡ lt
unfolding compare_bytes
compare_bytes-nil [] h = absurd (omega arith)
compare_bytes-nil (x ∷ k) h = refl

compare_bytes_nil : (k : List ℕ) → 0 < length k → compare_bytes k [] ≡ gt
unfolding compare_bytes
compare_bytes_nil [] h = absurd (omega arith)
compare_bytes_nil (x ∷ k) h = refl

-- The entry that an unnoticed end yields is passed over as deleted.
live-nothing_first : (bs : Entries) → All HasKey bs → live (merge unnoticed bs) ≡ live bs
unfolding live
live-nothing_first [] h =
    ap live (merge_nil ([], []) []) ∙ ap live (ap (◌∷◌ ([], [])) (nil_merge []))
live-nothing_first (d ∷ bs) h = ap live (
    merge_less ([], []) d [] bs (compare_bytes-nil d.0 h.0)
    ∙ ap (◌∷◌ ([], [])) (nil_merge (d ∷ bs)))

live-nothing_last : (ms : Entries) → All HasKey ms → live (merge ms unnoticed) ≡ live (merge ms [])
unfolding live
live-nothing_last [] h = ap live (nil_merge unnoticed) ∙ sym (ap live (nil_merge []))
live-nothing_last (e ∷ ms) h = ap live (merge_more e ([], []) ms [] (compare_bytes_nil e.0 h.0))

live-cons : (e : List ℕ × List ℕ) (x y : Entries) → live x ≡ live y → live (e ∷ x) ≡ live (e ∷ y)
live-cons e x y h = elim (Bool-cases (length e.1 == 0)) [
  | inl d ↦ live_deleted e.0 e.1 x d ∙ h ∙ sym (live_deleted e.0 e.1 y d)
  | inr k ↦ live_kept e.0 e.1 x k ∙ ap (◌∷◌ (e.0, e.1)) h ∙ sym (live_kept e.0 e.1 y k)
]

module _ (it : StoreIterator) (quiet : (i : it.Iter) → it.error i ≡ none) where
  open it use {Iter, left, all}

  -- Both iterators at their first entries.
  abbrev started : JoinIter Iter → JoinIter Iter
  started j = record j { backend = (it.first j.backend).1; memdb = (it.first j.memdb).1 }

  module _ (j : JoinIter Iter) where
    first_both :
        (it.first j.backend).0 ≡ true
        → (it.first j.memdb).0 ≡ true
        → first_entry it j ≡ (true, take_smaller it (started j))
    unfolding first_entry
    first_both b m = rw (no_error it quiet (started j), b, m, first_entry) refl

    first_back :
        (it.first j.backend).0 ≡ true
        → (it.first j.memdb).0 ≡ false
        → first_entry it j ≡ (true, take_back it (started j))
    unfolding first_entry
    first_back b m = rw (no_error it quiet (started j), b, m, first_entry) refl

    first_mem :
        (it.first j.backend).0 ≡ false
        → (it.first j.memdb).0 ≡ true
        → first_entry it j ≡ (true, take_mem it from_mem (started j))
    unfolding first_entry
    first_mem b m = rw (no_error it quiet (started j), b, m, first_entry) refl

    first_none :
        (it.first j.backend).0 ≡ false → (it.first j.memdb).0 ≡ false → (first_entry it j).0 ≡ false
    unfolding first_entry
    first_none b m = rw (no_error it quiet (started j), b, m, first_entry) refl

  -- A fresh iterator: no end was noticed.
  module _ (j : JoinIter Iter) (me : j.next_mem_end ≡ false) (be : j.next_back_end ≡ false) where
    mem_started : Views (left (it.first j.memdb).1) j.next_mem_end (start_view (all j.memdb))
    mem_started = rw (me, it.left-first j.memdb) (Views-start (all j.memdb))

    back_started : Views (left (it.first j.backend).1) j.next_back_end (start_view (all j.backend))
    back_started = rw (be, it.left-first j.backend) (Views-start (all j.backend))

    -- The entries that the first step yields, which are those of the merge but for the deleted.
    started_lem :
        (ms bs : Entries)
        → all j.memdb ≡ ms
        → all j.backend ≡ bs
        → All HasKey ms
        → All HasKey bs
        → (es : Entries) × Yields it quiet es (first_entry it j)
          × (live es ≡ live (merge ms bs))
          × (length es ≤ length ms + length bs + 1)
    started_lem [] [] hm hb km kb = (
      [],
      first_none j (it.first_found j.backend ∙ ap is_some_left hb)
          (it.first_found j.memdb ∙ ap is_some_left hm),
      sym (ap live (nil_merge [])),
      omega arith,
    )
    started_lem [] (d ∷ bs) hm hb km kb = (
      d ∷ merge unnoticed bs,
      rw
          (first_back j (it.first_found j.backend ∙ ap is_some_left hb)
            (it.first_found j.memdb ∙ ap is_some_left hm))
          (
            refl,
            Stands-back it quiet (started j) d unnoticed bs (rw hm at mem_started)
                (rw hb at back_started) be (merge unnoticed bs) refl,
          ),
      live-cons d (merge unnoticed bs) bs (live-nothing_first bs kb.1)
          ∙ sym (ap live (nil_merge (d ∷ bs))),
      omega (arith, length-merge unnoticed bs),
    )
    started_lem (e ∷ ms) [] hm hb km kb = (
      e ∷ merge ms unnoticed,
      rw
          (first_mem j (it.first_found j.backend ∙ ap is_some_left hb)
            (it.first_found j.memdb ∙ ap is_some_left hm))
          (
            refl,
            Stands-mem it quiet (started j) e ms unnoticed (rw hm at mem_started)
                (rw hb at back_started) me (merge ms unnoticed) refl,
          ),
      live-cons e (merge ms unnoticed) (merge ms []) (live-nothing_last ms km.1)
          ∙ sym (ap live (merge_nil e ms)),
      omega (arith, length-merge ms unnoticed),
    )
    started_lem (e ∷ ms) (d ∷ bs) hm hb km kb = (
      merge (e ∷ ms) (d ∷ bs),
      rw
          (first_both j (it.first_found j.backend ∙ ap is_some_left hb)
            (it.first_found j.memdb ∙ ap is_some_left hm))
          (picked_smaller it quiet (started j) e d ms bs (rw hm at mem_started)
            (rw hb at back_started) me be),
      refl,
      omega (arith, length-merge (e ∷ ms) (d ∷ bs)),
    )

    -- For any two iterators that report no error and range over entries with keys of at least one
    -- byte, a pass of First and Next over a fresh JoinIter, with more turns allowed than the
    -- entries and one, yields exactly the merge of the memory's and the store's entries, in which
    -- the memory's entry hides the store's of the same key, without the deleted ones.
    pub collect_lem :
        (fuel : ℕ)
        → All HasKey (all j.memdb)
        → All HasKey (all j.backend)
        → length (all j.memdb) + length (all j.backend) + 1 < fuel
        → collect it fuel j ≡ live (merge (all j.memdb) (all j.backend))
    unfolding collect
    collect_lem fuel km kb enough =
        let (es, yields, same_live, bound) =
          started_lem (all j.memdb) (all j.backend) refl refl km kb in
        collect_from_lem it quiet fuel fuel (live es) (first it fuel j)
          (first_lem it quiet fuel j es yields (omega arith)) (omega (arith, length-live es))
        ∙ same_live
