-- ===== src/Storage/JoinIter/Skip.antt =====
-- evm/storage/overlaydb/iterator.go: First and Next pass over the deleted entries.
use web.Base.{
  ℕ, zero, suc, ◌<◌, ◌≡◌, refl, ap, ◌∙◌, Bool, true, false, List, [], ◌∷◌, none, length, ◌==◌,
  arith, inl, inr, Bool-cases,
}
use web.Storage.SortedMap.{Entries}
use web.Storage.Iterator.{StoreIterator}
use web.Storage.JoinIter.{
  JoinIter, first_entry, next_entry, skip_deleted, first, next, collect_from,
}
use web.Storage.JoinIter.Merge.{live}
use web.Storage.JoinIter.Steps.{Stands, Yields, next_of}

pub live_deleted :
    (k v : List ℕ) (m : Entries) → (length v == 0) ≡ true → live ((k, v) ∷ m) ≡ live m
unfolding live
live_deleted k v m h = rw (h, live)

pub live_kept :
    (k v : List ℕ) (m : Entries) → (length v == 0) ≡ false → live ((k, v) ∷ m) ≡ (k, v) ∷ live m
unfolding live
live_kept k v m h = rw (h, live)

cons_eq : (k k' v v' : List ℕ) (a b : Entries) → k ≡ k' → v ≡ v' → a ≡ b → (k, v) ∷ a ≡ (k', v') ∷ b
cons_eq k k' v v' a b hk hv h = rw (hk, hv, h) refl

module _ (it : StoreIterator) (quiet : (i : it.Iter) → it.error i ≡ none) where
  open it use {Iter, left, all}

  -- Nothing but deleted entries is left, or the iterator stands at the first one that is not, with
  -- fewer than `bound` behind it.
  abbrev YieldsLive : ℕ → Entries → Bool × JoinIter Iter → Type 0
  YieldsLive bound [] r = r.0 ≡ false
  YieldsLive bound ((k, v) ∷ ls) r =
      (r.0 ≡ true)
      × (es : Entries) × Stands it quiet r.1 k v es
      × (live es ≡ ls)
      × (length es < bound)

  module _ (fuel : ℕ) (j : JoinIter Iter) where
    skip_kept : (length j.value == 0) ≡ false → skip_deleted it (suc fuel) j ≡ (true, j)
    unfolding skip_deleted
    skip_kept h = rw (h, skip_deleted)

    skip_end :
        (length j.value == 0) ≡ true
        → (next_entry it j).0 ≡ false
        → skip_deleted it (suc fuel) j ≡ (false, (next_entry it j).1)
    unfolding skip_deleted
    skip_end h e = rw (h, e, skip_deleted)

    skip_on :
        (length j.value == 0) ≡ true
        → (next_entry it j).0 ≡ true
        → skip_deleted it (suc fuel) j ≡ skip_deleted it fuel (next_entry it j).1
    unfolding skip_deleted
    skip_on h e = rw (h, e, skip_deleted)

  -- One turn of the loop, at a deleted entry.
  skip_one :
      (fuel bound : ℕ) (j : JoinIter Iter) (es : Entries)
      → (length j.value == 0) ≡ true
      → Yields it quiet es (next_entry it j)
      → ((k v : List ℕ) (rest : Entries)
          → Stands it quiet (next_entry it j).1 k v rest
          → length rest < length es
          → YieldsLive bound (live ((k, v) ∷ rest)) (skip_deleted it fuel (next_entry it j).1))
      → YieldsLive bound (live es) (skip_deleted it (suc fuel) j)
  unfolding live
  skip_one fuel bound j [] gone over turn = rw (skip_end fuel j gone over) refl
  skip_one fuel bound j ((k, v) ∷ rest) gone (found, s) turn =
      rw (skip_on fuel j gone found) (turn k v rest s (omega arith))

  skip_lem :
      (fuel bound : ℕ) (j : JoinIter Iter) (k v : List ℕ) (es : Entries)
      → Stands it quiet j k v es
      → length es < fuel
      → length es < bound
      → YieldsLive bound (live ((k, v) ∷ es)) (skip_deleted it fuel j)
  skip_lem zero bound j k v es s h b = absurd (omega arith)
  skip_lem (suc fuel) bound j k v es s h b = elim (Bool-cases (length v == 0)) [
    | inr kept ↦
        rw (live_kept k v es kept, skip_kept fuel j (ap (λ x. length x == 0) s.at_value ∙ kept))
          (refl, es, s, refl, b)
    | inl gone ↦ rw (live_deleted k v es gone) (
        skip_one fuel bound j es (ap (λ x. length x == 0) s.at_value ∙ gone)
          (next_of it quiet j k v es s)
          (λ k' v' rest s' shorter.
            skip_lem fuel bound (next_entry it j).1 k' v' rest s' (omega arith) (omega arith)))
  ]

  next_end :
      (fuel : ℕ) (j : JoinIter Iter) → (next_entry it j).0 ≡ false → (next it fuel j).0 ≡ false
  unfolding next
  next_end fuel j h = rw (h, next) refl

  next_on :
      (fuel : ℕ) (j : JoinIter Iter)
      → (next_entry it j).0 ≡ true
      → next it fuel j ≡ skip_deleted it fuel (next_entry it j).1
  unfolding next
  next_on fuel j h = rw (h, next) refl

  first_end :
      (fuel : ℕ) (j : JoinIter Iter) → (first_entry it j).0 ≡ false → (first it fuel j).0 ≡ false
  unfolding first
  first_end fuel j h = rw (h, first) refl

  first_on :
      (fuel : ℕ) (j : JoinIter Iter)
      → (first_entry it j).0 ≡ true
      → first it fuel j ≡ skip_deleted it fuel (first_entry it j).1
  unfolding first
  first_on fuel j h = rw (h, first) refl

  next_lem :
      (fuel : ℕ) (j : JoinIter Iter) (es : Entries)
      → Yields it quiet es (next_entry it j)
      → length es < fuel
      → YieldsLive fuel (live es) (next it fuel j)
  unfolding live
  next_lem fuel j [] over h = next_end fuel j over
  next_lem fuel j ((k, v) ∷ es) (found, s) h =
      rw (next_on fuel j found)
        (skip_lem fuel fuel (next_entry it j).1 k v es s (omega arith) (omega arith))

  pub first_lem :
      (fuel : ℕ) (j : JoinIter Iter) (es : Entries)
      → Yields it quiet es (first_entry it j)
      → length es < fuel
      → YieldsLive fuel (live es) (first it fuel j)
  unfolding live
  first_lem fuel j [] over h = first_end fuel j over
  first_lem fuel j ((k, v) ∷ es) (found, s) h =
      rw (first_on fuel j found)
        (skip_lem fuel fuel (first_entry it j).1 k v es s (omega arith) (omega arith))

  collect_on :
      (turns fuel : ℕ) (r : Bool × JoinIter Iter)
      → r.0 ≡ true
      → collect_from it (suc turns) fuel r
        ≡ (r.1.key, r.1.value) ∷ collect_from it turns fuel (next it fuel r.1)
  unfolding collect_from
  collect_on turns fuel r h = rw (h, collect_from) refl

  collect_end :
      (turns fuel : ℕ) (r : Bool × JoinIter Iter)
      → r.0 ≡ false
      → collect_from it (suc turns) fuel r ≡ []
  unfolding collect_from
  collect_end turns fuel r h = rw (h, collect_from) refl

  pub collect_from_lem :
      (turns fuel : ℕ) (ls : Entries) (r : Bool × JoinIter Iter)
      → YieldsLive fuel ls r
      → length ls < turns
      → collect_from it turns fuel r ≡ ls
  collect_from_lem zero fuel ls r y h = absurd (omega arith)
  collect_from_lem (suc turns) fuel [] r y h = collect_end turns fuel r y
  collect_from_lem (suc turns) fuel ((k, v) ∷ ls) r (found, es, s, e, b) h =
      collect_on turns fuel r found
      ∙ cons_eq r.1.key k r.1.value v _ ls s.at_key s.at_value (
          collect_from_lem turns fuel ls (next it fuel r.1)
            (rw e at (next_lem fuel r.1 es (next_of it quiet r.1 k v es s) b)) (omega arith))
