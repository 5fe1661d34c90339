-- ===== src/Storage/SortedMap.antt =====
-- What evm/storage expects of evm/storage/overlaydb/memdb.go: a map from byte strings to byte
-- strings that keeps its keys in order. An empty value marks a deleted key.
use web.Base.{
  ℕ, ◌≡◌, refl, sym, ap, ◌∙◌, Bool, true, false, List, [], ◌∷◌, if◌then◌else◌, arith, Bool-cases,
  inl, inr, ◌≢◌,
}
use web.Base.Keys.{
  compare_bytes, bytes_eq, bytes_eq_iff, bytes_eq_refl, eq_of_compare_bytes, less, same, more,
  compared, compare_bytes-ne_eq, ◌≺◌, ≺_trans, ≺_of_gt, ≺-ne, bytes_eq_comm,
}
use Prim.Native.Nat.{Ordering, lt, eq, gt}

abbrev pub Entries : Type 0
Entries = List (List ℕ × List ℕ)

-- The value under `k`, and whether the map does not know the key.
unfoldable pub find : List ℕ → Entries → List ℕ × Bool
find k [] = ([], true)
find k ((j, v) ∷ m) = if bytes_eq j k then (v, false) else find k m

unfoldable pub insert : List ℕ → List ℕ → Entries → Entries
insert k v [] = (k, v) ∷ []
insert k v ((j, w) ∷ m) = elim (compare_bytes k j) [
  | lt ↦ (k, v) ∷ (j, w) ∷ m
  | eq ↦ (k, v) ∷ m
  | gt ↦ (j, w) ∷ insert k v m
]

gt_ne_eq : ◌≢◌ {A = Ordering} gt eq
gt_ne_eq h = cc

swap_tests {ℓ} :
    {A : Type ℓ} (p q : Bool) (x y z : A)
    → (p ≡ true → q ≡ false)
    → (if p then x else if q then y else z) ≡ (if q then y else if p then x else z)
swap_tests true q x y z h = rw (h refl)
swap_tests false q x y z h = refl

-- The three places of a new entry.
module _ (k v i w : List ℕ) (m : Entries) where
  pub insert_less : compare_bytes k i ≡ lt → insert k v ((i, w) ∷ m) ≡ (k, v) ∷ (i, w) ∷ m
  unfolding insert
  insert_less e = rw (e, insert)

  pub insert_same : compare_bytes k i ≡ eq → insert k v ((i, w) ∷ m) ≡ (k, v) ∷ m
  unfolding insert
  insert_same e = rw (e, insert)

  pub insert_more : compare_bytes k i ≡ gt → insert k v ((i, w) ∷ m) ≡ (i, w) ∷ insert k v m
  unfolding insert
  insert_more e = rw (e, insert)

-- Two different keys are not both equal to `j`.
exclusive : (k i j : List ℕ) → compare_bytes k i ≡ gt → bytes_eq i j ≡ true → bytes_eq k j ≡ false
exclusive k i j e h =
    rw (← (bytes_eq_iff i j).0 h) (compare_bytes-ne_eq k i (λ p. gt_ne_eq (sym e ∙ p)))

pub find-insert :
    (k j v : List ℕ) (m : Entries)
    → find j (insert k v m) ≡ (if bytes_eq k j then (v, false) else find j m)
unfolding find insert
find-insert k j v [] = refl
find-insert k j v ((i, w) ∷ m) = elim (compared (compare_bytes k i)) [
  | less e ↦ ap (find j) (insert_less k v i w m e)
  | same e ↦ ap (find j) (insert_same k v i w m e) ∙ rw (eq_of_compare_bytes k i e) (ground arith)
  | more e ↦
      ap (find j) (insert_more k v i w m e)
      ∙ rw (find-insert k j v m) (
          swap_tests (bytes_eq i j) (bytes_eq k j) (w, false) (v, false) (find j m)
            (exclusive k i j e))
]

pub find-insert_self : (k v : List ℕ) (m : Entries) → find k (insert k v m) ≡ (v, false)
find-insert_self k v m = find-insert k k v m ∙ rw (bytes_eq_refl k)

pub find-insert_ne : (k j v : List ℕ) (m : Entries) → k ≢ j → find j (insert k v m) ≡ find j m
find-insert_ne k j v m h = elim (Bool-cases (bytes_eq k j)) [
  | inl e ↦ absurd (h ((bytes_eq_iff k j).0 e))
  | inr n ↦ find-insert k j v m ∙ rw n
]

-- Keys strictly above `k`, and keys in strictly ascending order.
abbrev pub Above : List ℕ → Entries → Type 0
Above k [] = Unit
Above k ((j, v) ∷ m) = (k ≺ j) × Above k m

abbrev pub IsSorted : Entries → Type 0
IsSorted [] = Unit
IsSorted ((k, v) ∷ m) = Above k m × IsSorted m

Above-trans : (k j : List ℕ) (m : Entries) → k ≺ j → Above j m → Above k m
Above-trans k j [] h a = tt
Above-trans k j ((i, w) ∷ m) h a = (≺_trans k j i h a.0, Above-trans k j m h a.1)

Above-insert : (j k v : List ℕ) (m : Entries) → j ≺ k → Above j m → Above j (insert k v m)
unfolding insert
Above-insert j k v [] h a = (h, tt)
Above-insert j k v ((i, w) ∷ m) h a = elim (compared (compare_bytes k i)) [
  | less e ↦ rw (insert_less k v i w m e) (h, a)
  | same e ↦ rw (insert_same k v i w m e) (h, a.1)
  | more e ↦ rw (insert_more k v i w m e) (a.0, Above-insert j k v m h a.1)
]

pub insert-IsSorted : (k v : List ℕ) (m : Entries) → IsSorted m → IsSorted (insert k v m)
unfolding insert
insert-IsSorted k v [] h = (tt, tt)
insert-IsSorted k v ((i, w) ∷ m) h = elim (compared (compare_bytes k i)) [
  | less e ↦ rw (insert_less k v i w m e) ((e, Above-trans k i m e h.0), h)
  | same e ↦ rw (insert_same k v i w m e) (rw (eq_of_compare_bytes k i e) h.0, h.1)
  | more e ↦
      rw (insert_more k v i w m e)
        (Above-insert i k v m (≺_of_gt k i e) h.0, insert-IsSorted k v m h.1)
]

-- A key below all others is not among them.
pub find-Above : (k : List ℕ) (m : Entries) → Above k m → find k m ≡ ([], true)
unfolding find
find-Above k [] h = refl
find-Above k ((j, v) ∷ m) h = rw (bytes_eq_comm j k, ≺-ne k j h.0) (find-Above k m h.1)

-- The interface: `entries` is what ForEach visits, and each operation is read off it.
pub record SortedMap : Type 1 where
  pub Db : Type 0
  pub IsValid : Db → Type 0
  pub new : Db
  pub put : List ℕ → List ℕ → Db → Db
  pub get : List ℕ → Db → List ℕ × Bool
  pub entries : Db → Entries
  pub new-IsValid : IsValid new
  pub put-IsValid : (k v : List ℕ) (d : Db) → IsValid d → IsValid (put k v d)
  pub entries-new : entries new ≡ []
  pub entries-put :
      (k v : List ℕ) (d : Db) → IsValid d → entries (put k v d) ≡ insert k v (entries d)
  pub entries-IsSorted : (d : Db) → IsValid d → IsSorted (entries d)
  pub get-find : (k : List ℕ) (d : Db) → IsValid d → get k d ≡ find k (entries d)

-- The specification itself, as the simplest map that meets the interface.
abbrev pub reference : SortedMap
reference = record {
  Db = Entries;
  IsValid = IsSorted;
  new = [];
  put = insert;
  get = find;
  entries = λ d. d;
  new-IsValid = tt;
  put-IsValid = insert-IsSorted;
  entries-new = refl;
  entries-put = λ k v d h. refl;
  entries-IsSorted = λ d h. h;
  get-find = λ k d h. refl;
}

module _ (m : SortedMap) where
  open m use {Db, IsValid, put, get, get-find, entries-put, put-IsValid}

  pub get-put :
      (k j v : List ℕ) (d : Db)
      → IsValid d
      → get j (put k v d) ≡ (if bytes_eq k j then (v, false) else get j d)
  get-put k j v d h =
      get-find j (put k v d) (put-IsValid k v d h)
      ∙ ap (find j) (entries-put k v d h)
      ∙ find-insert k j v (m.entries d)
      ∙ rw (get-find j d h)
