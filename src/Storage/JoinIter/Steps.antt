-- ===== src/Storage/JoinIter/Steps.antt =====
-- evm/storage/overlaydb/iterator.go: each step of the iterator yields the next entry of the merge.
use web.Base.{ℕ, ◌≡◌, refl, sym, ◌∙◌, Bool, true, false, List, [], ◌∷◌, none}
use web.Base.Keys.{compare_bytes, compared, less, same, more}
use web.Storage.SortedMap.{Entries}
use web.Storage.Iterator.{StoreIterator}
use web.Storage.JoinIter.{
  JoinIter, KeyOrigin, from_mem, from_back, from_both, take_mem, take_back, take_smaller, pick,
  next_entry,
}
use Prim.Native.Nat.{lt, eq, gt}
use web.Storage.JoinIter.Merge.{merge, merge_less, merge_same, merge_more, merge_nil, nil_merge}
use web.Storage.JoinIter.Advance.{
  Views, Views-key, some_view, MemViews, BackViews, Behind, advanced, advanced_views, no_error,
}

module _ (it : StoreIterator) (quiet : (i : it.Iter) → it.error i ≡ none) where
  open it use {Iter, left, all}

  -- The iterator stands at the entry `(k, v)`, with the entries `es` behind it.
  pub record Stands (j : JoinIter Iter) (k v : List ℕ) (es : Entries) : Type 0 where
    pub at_key : j.key ≡ k
    pub at_value : j.value ≡ v
    pub ms : Entries
    pub bs : Entries
    pub origin : KeyOrigin
    pub at_origin : j.key_origin ≡ origin
    pub behind : Behind it quiet origin j ms bs
    pub rest : es ≡ merge ms bs

  -- Nothing is left, or the iterator stands at the first entry.
  abbrev pub Yields : Entries → Bool × JoinIter Iter → Type 0
  Yields [] r = r.0 ≡ false
  Yields ((k, v) ∷ es) r = (r.0 ≡ true) × Stands r.1 k v es

  key_of :
      (i : Iter) (b : Bool) (e : List ℕ × List ℕ) (es : Entries)
      → b ≡ false
      → Views (left i) b (e ∷ es)
      → (it.key i ≡ e.0) × (it.value i ≡ e.1)
  key_of i b e es f view =
      let (k, v) = Views-key (left i) e es (rw f at view) in (it.key_lem i ∙ k, it.value_lem i ∙ v)

  module _ (j : JoinIter Iter) (e : List ℕ × List ℕ) (ms bs : Entries)
      (mv : MemViews it quiet j (e ∷ ms)) (bv : BackViews it quiet j bs)
      (me : j.next_mem_end ≡ false) where
    pub Stands-mem : (es : Entries) → es ≡ merge ms bs → Stands (take_mem it from_mem j) e.0 e.1 es
    unfolding take_mem
    Stands-mem es h = record {
      at_key = (key_of j.memdb j.next_mem_end e ms me mv).0;
      at_value = (key_of j.memdb j.next_mem_end e ms me mv).1;
      ms = ms;
      bs = bs;
      origin = from_mem;
      at_origin = refl;
      behind = (e, mv, bv);
      rest = h;
    }

  module _ (j : JoinIter Iter) (d : List ℕ × List ℕ) (ms bs : Entries) (mv : MemViews it quiet j ms)
      (bv : BackViews it quiet j (d ∷ bs)) (be : j.next_back_end ≡ false) where
    pub Stands-back : (es : Entries) → es ≡ merge ms bs → Stands (take_back it j) d.0 d.1 es
    unfolding take_back
    Stands-back es h = record {
      at_key = (key_of j.backend j.next_back_end d bs be bv).0;
      at_value = (key_of j.backend j.next_back_end d bs be bv).1;
      ms = ms;
      bs = bs;
      origin = from_back;
      at_origin = refl;
      behind = (d, mv, bv);
      rest = h;
    }

  module _ (j : JoinIter Iter) (e d : List ℕ × List ℕ) (ms bs : Entries)
      (mv : MemViews it quiet j (e ∷ ms)) (bv : BackViews it quiet j (d ∷ bs))
      (me : j.next_mem_end ≡ false) (be : j.next_back_end ≡ false) where
    Stands-both : Stands (take_mem it from_both j) e.0 e.1 (merge ms bs)
    unfolding take_mem
    Stands-both = record {
      at_key = (key_of j.memdb j.next_mem_end e ms me mv).0;
      at_value = (key_of j.memdb j.next_mem_end e ms me mv).1;
      ms = ms;
      bs = bs;
      origin = from_both;
      at_origin = refl;
      behind = (e, d, mv, bv);
      rest = refl;
    }

    keys : compare_bytes (it.key j.memdb) (it.key j.backend) ≡ compare_bytes e.0 d.0
    keys =
        rw
          (
            (key_of j.memdb j.next_mem_end e ms me mv).0,
            (key_of j.backend j.next_back_end d bs be bv).0,
          )
          refl

    taken_less : compare_bytes e.0 d.0 ≡ lt → take_smaller it j ≡ take_mem it from_mem j
    unfolding take_smaller
    taken_less h = rw (keys ∙ h, take_smaller) refl

    taken_same : compare_bytes e.0 d.0 ≡ eq → take_smaller it j ≡ take_mem it from_both j
    unfolding take_smaller
    taken_same h = rw (keys ∙ h, take_smaller) refl

    taken_more : compare_bytes e.0 d.0 ≡ gt → take_smaller it j ≡ take_back it j
    unfolding take_smaller
    taken_more h = rw (keys ∙ h, take_smaller) refl

    pub picked_smaller : Yields (merge (e ∷ ms) (d ∷ bs)) (true, take_smaller it j)
    picked_smaller = elim (compared (compare_bytes e.0 d.0)) [
      | less h ↦
          rw (taken_less h, merge_less e d ms bs h)
            (refl, Stands-mem j e ms (d ∷ bs) mv bv me (merge ms (d ∷ bs)) refl)
      | same h ↦ rw (taken_same h, merge_same e d ms bs h) (refl, Stands-both)
      | more h ↦
          rw (taken_more h, merge_more e d ms bs h)
            (refl, Stands-back j d (e ∷ ms) bs mv bv be (merge (e ∷ ms) bs) refl)
    ]

  module _ (j : JoinIter Iter) where
    pick_mem :
        j.next_mem_end ≡ false → j.next_back_end ≡ true → pick it j ≡ (true, take_mem it from_mem j)
    unfolding pick
    pick_mem me be = simp (be, me)

    pick_back : j.next_mem_end ≡ true → j.next_back_end ≡ false → pick it j ≡ (true, take_back it j)
    unfolding pick
    pick_back me be = simp (be, me)

    pick_smaller :
        j.next_mem_end ≡ false → j.next_back_end ≡ false → pick it j ≡ (true, take_smaller it j)
    unfolding pick
    pick_smaller me be = simp (be, me)

    pick_end : j.next_mem_end ≡ true → j.next_back_end ≡ true → (pick it j).0 ≡ false
    unfolding pick
    pick_end me be = rw (be, me) refl

    next_entry-pick : next_entry it j ≡ pick it (advanced it quiet j)
    unfolding next_entry
    next_entry-pick = rw (no_error it quiet (advanced it quiet j), next_entry) refl

  pick_lem :
      (j : JoinIter Iter) (ms bs : Entries)
      → MemViews it quiet j ms
      → BackViews it quiet j bs
      → Yields (merge ms bs) (pick it j)
  pick_lem j ms bs mv bv = go j.next_mem_end j.next_back_end refl refl
    where
      go :
          (mb bb : Bool)
          → j.next_mem_end ≡ mb
          → j.next_back_end ≡ bb
          → Yields (merge ms bs) (pick it j)
      go true true me be =
          let none_mem : ms ≡ [] = rw me at mv in
          let none_back : bs ≡ [] = rw be at bv in
          rw (none_mem, none_back, nil_merge []) (pick_end j me be)
      go false true me be =
          let none_back : bs ≡ [] = rw be at bv in
          let (e, ms', split) = some_view (left j.memdb) ms (rw me at mv) in
          rw (none_back, split, merge_nil e ms', pick_mem j me be)
            (
              refl,
              Stands-mem j e ms' [] (rw split at mv) (rw none_back at bv) me (merge ms' []) refl,
            )
      go true false me be =
          let none_mem : ms ≡ [] = rw me at mv in
          let (d, bs', split) = some_view (left j.backend) bs (rw be at bv) in
          rw (none_mem, split, nil_merge (d ∷ bs'), pick_back j me be)
            (
              refl,
              Stands-back j d [] bs' (rw none_mem at mv) (rw split at bv) be bs'
                  (sym (nil_merge bs')),
            )
      go false false me be =
          let (e, ms', split) = some_view (left j.memdb) ms (rw me at mv) in
          let (d, bs', split') = some_view (left j.backend) bs (rw be at bv) in
          rw (split, split', pick_smaller j me be)
            (picked_smaller j e d ms' bs' (rw split at mv) (rw split' at bv) me be)

  next_entry_lem :
      (j : JoinIter Iter) (o : KeyOrigin) (ms bs : Entries)
      → j.key_origin ≡ o
      → Behind it quiet o j ms bs
      → Yields (merge ms bs) (next_entry it j)
  next_entry_lem j o ms bs e behind =
      let (mv, bv) = advanced_views it quiet j o ms bs e behind in
      rw (next_entry-pick j) (pick_lem (advanced it quiet j) ms bs mv bv)

  pub next_of :
      (j : JoinIter Iter) (k v : List ℕ) (es : Entries)
      → Stands j k v es
      → Yields es (next_entry it j)
  next_of j k v es s = rw s.rest (next_entry_lem j s.origin s.ms s.bs s.at_origin s.behind)
