-- ===== src/Storage/JoinIter/Merge.antt =====
-- evm/storage/overlaydb/iterator.go: the merge of two sorted lists of entries, as a specification.
use web.Base.{
  ℕ, suc, ◌+◌, ◌≤◌, ◌≡◌, refl, true, false, List, [], ◌∷◌, length, ◌==◌, arith, inl, inr,
  Bool-cases,
}
use web.Base.Keys.{compare_bytes, compared, less, same, more}
use web.Storage.SortedMap.{Entries}
use Prim.Native.Nat.{lt, eq, gt}

-- The entries of two sorted lists in order; of a key that both have, the first list's entry.
unfoldable pub merge_with : List ℕ → List ℕ → (Entries → Entries) → Entries → Entries
merge_with k v rest [] = (k, v) ∷ rest []
merge_with k v rest ((j, w) ∷ bs) = elim (compare_bytes k j) [
  | lt ↦ (k, v) ∷ rest ((j, w) ∷ bs)
  | eq ↦ (k, v) ∷ rest bs
  | gt ↦ (j, w) ∷ merge_with k v rest bs
]

unfoldable pub merge : Entries → Entries → Entries
merge [] bs = bs
merge ((k, v) ∷ ms) bs = merge_with k v (merge ms) bs

module _ (e d : List ℕ × List ℕ) (ms bs : Entries) where
  pub merge_less : compare_bytes e.0 d.0 ≡ lt → merge (e ∷ ms) (d ∷ bs) ≡ e ∷ merge ms (d ∷ bs)
  unfolding merge merge_with
  merge_less h = rw (h, merge, merge_with) refl

  pub merge_same : compare_bytes e.0 d.0 ≡ eq → merge (e ∷ ms) (d ∷ bs) ≡ e ∷ merge ms bs
  unfolding merge merge_with
  merge_same h = rw (h, merge, merge_with) refl

  pub merge_more : compare_bytes e.0 d.0 ≡ gt → merge (e ∷ ms) (d ∷ bs) ≡ d ∷ merge (e ∷ ms) bs
  unfolding merge merge_with
  merge_more h = rw (h, merge, merge_with) refl

-- The entries that are not deleted.
unfoldable pub live : Entries → Entries
live [] = []
live ((k, v) ∷ m) = elim (length v == 0) [ true ↦ live m | false ↦ (k, v) ∷ live m ]

pub merge_nil : (e : List ℕ × List ℕ) (ms : Entries) → merge (e ∷ ms) [] ≡ e ∷ merge ms []
unfolding merge merge_with
merge_nil e ms = refl

pub nil_merge : (bs : Entries) → merge [] bs ≡ bs
unfolding merge
nil_merge bs = refl

length-merge_with :
    (k v : List ℕ) (ms bs : Entries)
    → ((xs : Entries) → length (merge ms xs) ≤ length ms + length xs)
    → length (merge_with k v (merge ms) bs) ≤ suc (length ms) + length bs
unfolding merge_with
length-merge_with k v ms [] h = omega (arith, h [])
length-merge_with k v ms ((j, w) ∷ bs) h = elim (compared (compare_bytes k j)) [
  | less e ↦ rw (e, merge_with) (omega (arith, h ((j, w) ∷ bs)))
  | same e ↦ rw (e, merge_with) (omega (arith, h bs))
  | more e ↦ rw (e, merge_with) (omega (arith, length-merge_with k v ms bs h))
]

pub length-merge : (ms bs : Entries) → length (merge ms bs) ≤ length ms + length bs
unfolding merge
length-merge [] bs = omega arith
length-merge ((k, v) ∷ ms) bs = length-merge_with k v ms bs (length-merge ms)

pub length-live : (es : Entries) → length (live es) ≤ length es
unfolding live
length-live [] = omega arith
length-live ((k, v) ∷ es) = elim (Bool-cases (length v == 0)) [
  | inl e ↦ rw (e, live) (omega (arith, length-live es))
  | inr e ↦ rw (e, live) (omega (arith, length-live es))
]
