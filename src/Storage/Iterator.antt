-- ===== src/Storage/Iterator.antt =====
-- evm/storage/schema/interface.go: what JoinIter relies on of an iterator over sorted entries.
use web.Base.{ℕ, ◌≡◌, refl, Bool, true, false, List, [], ◌∷◌, Option, none}
use web.Storage.SortedMap.{Entries}
use web.Storage.Store.{Error}

abbrev pub is_some_left : Entries → Bool
is_some_left [] = false
is_some_left (e ∷ m) = true

abbrev pub first_key : Entries → List ℕ
first_key [] = []
first_key ((k, v) ∷ m) = k

abbrev pub first_value : Entries → List ℕ
first_value [] = []
first_value ((k, v) ∷ m) = v

abbrev pub tail : Entries → Entries
tail [] = []
tail (e ∷ m) = m

-- `all` is what the iterator ranges over, `left` the current entry and those behind it.
pub record StoreIterator : Type 1 where
  pub Iter : Type 0
  pub first : Iter → Bool × Iter
  pub next : Iter → Bool × Iter
  pub key : Iter → List ℕ
  pub value : Iter → List ℕ
  pub error : Iter → Option Error
  pub all : Iter → Entries
  pub left : Iter → Entries
  pub left-first : (i : Iter) → left (first i).1 ≡ all i
  pub first_found : (i : Iter) → (first i).0 ≡ is_some_left (all i)
  pub left-next : (i : Iter) → left (next i).1 ≡ tail (left i)
  pub next_found : (i : Iter) → (next i).0 ≡ is_some_left (tail (left i))
  pub key_lem : (i : Iter) → key i ≡ first_key (left i)
  pub value_lem : (i : Iter) → value i ≡ first_value (left i)

-- A list with a place in it.
abbrev pub cursors : StoreIterator
cursors = record {
  Iter = Entries × Entries;
  first = λ c. (is_some_left c.0, (c.0, c.0));
  next = λ c. (is_some_left (tail c.1), (c.0, tail c.1));
  key = λ c. first_key c.1;
  value = λ c. first_value c.1;
  error = λ c. none;
  all = λ c. c.0;
  left = λ c. c.1;
  left-first = λ c. refl;
  first_found = λ c. refl;
  left-next = λ c. refl;
  next_found = λ c. refl;
  key_lem = λ c. refl;
  value_lem = λ c. refl;
}
