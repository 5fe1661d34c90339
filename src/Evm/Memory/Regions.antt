-- ===== src/Evm/Memory/Regions.antt =====
-- evm/memory.go: what is written is read back, and the rest of the memory is not touched.
use web.Base.{
  ℕ, zero, suc, ◌+◌, ◌-◌, ◌%◌, ◌≤◌, ◌<◌, ◌≡◌, refl, sym, ap, ◌∙◌, false, List, [], ◌∷◌, ◌++◌,
  length, take, drop, replicate, copy, copy_at, ltb, leb, ◌==◌, ok, arith, ◌⊎◌, inl, inr,
  length-copy_at, length-append, length-replicate, Bool-cases, lt→ltb, ltb-false, take-length,
  append-nil,
}
use web.Base.Bytes.{u64_mod}
use web.Evm.Word.{Word}
use web.Evm.Memory.{Memory, len, store_at, set_memory, set32, resize, region, get_copy}

-- The bytes from `offset` on.
abbrev pub bytes_at : ℕ → ℕ → List ℕ → List ℕ
bytes_at offset size store = take size (drop offset store)

take-copy_eq : (d p : List ℕ) → length p ≤ length d → take (length p) (copy d p) ≡ p
take-copy_eq [] [] h = refl
take-copy_eq [] (x ∷ p) h = absurd (omega arith)
take-copy_eq (y ∷ d) [] h = refl
take-copy_eq (y ∷ d) (x ∷ p) h = ap (◌∷◌ x) (take-copy_eq d p (omega arith))

bytes_at-copy_at :
    (i : ℕ) (d p : List ℕ) → i + length p ≤ length d → bytes_at i (length p) (copy_at i d p) ≡ p
bytes_at-copy_at zero d p h = take-copy_eq d p (omega arith)
bytes_at-copy_at (suc i) [] [] h = refl
bytes_at-copy_at (suc i) [] (x ∷ p) h = absurd (omega arith)
bytes_at-copy_at (suc i) (y ∷ d) p h = bytes_at-copy_at i d p (omega arith)

bytes_at-copy_at_before :
    (o s i : ℕ) (d p : List ℕ) → o + s ≤ i → bytes_at o s (copy_at i d p) ≡ bytes_at o s d
bytes_at-copy_at_before zero zero i d p h = refl
bytes_at-copy_at_before zero (suc s) zero d p h = absurd (omega arith)
bytes_at-copy_at_before zero (suc s) (suc i) [] p h = refl
bytes_at-copy_at_before zero (suc s) (suc i) (y ∷ d) p h =
    ap (◌∷◌ y) (bytes_at-copy_at_before zero s i d p (omega arith))
bytes_at-copy_at_before (suc o) s zero d p h = absurd (omega arith)
bytes_at-copy_at_before (suc o) s (suc i) [] p h = refl
bytes_at-copy_at_before (suc o) s (suc i) (y ∷ d) p h =
    bytes_at-copy_at_before o s i d p (omega arith)

drop-copy : (o : ℕ) (d p : List ℕ) → length p ≤ o → drop o (copy d p) ≡ drop o d
drop-copy o [] p h = refl
drop-copy o (y ∷ d) [] h = refl
drop-copy zero (y ∷ d) (x ∷ p) h = absurd (omega arith)
drop-copy (suc o) (y ∷ d) (x ∷ p) h = drop-copy o d p (omega arith)

drop-copy_at : (o i : ℕ) (d p : List ℕ) → i + length p ≤ o → drop o (copy_at i d p) ≡ drop o d
drop-copy_at o zero d p h = drop-copy o d p (omega arith)
drop-copy_at o (suc i) [] p h = refl
drop-copy_at zero (suc i) (y ∷ d) p h = absurd (omega arith)
drop-copy_at (suc o) (suc i) (y ∷ d) p h = drop-copy_at o i d p (omega arith)

bytes_at-append :
    (o s : ℕ) (d e : List ℕ) → o + s ≤ length d → bytes_at o s (d ++ e) ≡ bytes_at o s d
bytes_at-append zero zero d e h = refl
bytes_at-append zero (suc s) [] e h = absurd (omega arith)
bytes_at-append zero (suc s) (x ∷ d) e h = ap (◌∷◌ x) (bytes_at-append zero s d e (omega arith))
bytes_at-append (suc o) zero d e h = refl
bytes_at-append (suc o) (suc s) [] e h = absurd (omega arith)
bytes_at-append (suc o) (suc s) (x ∷ d) e h = bytes_at-append o (suc s) d e (omega arith)

copy_nil : (d : List ℕ) → copy d [] ≡ d
copy_nil [] = refl
copy_nil (y ∷ d) = refl

copy_at_nil : (i : ℕ) (d : List ℕ) → copy_at i d [] ≡ d
copy_at_nil zero d = copy_nil d
copy_at_nil (suc i) [] = refl
copy_at_nil (suc i) (y ∷ d) = ap (◌∷◌ y) (copy_at_nil i d)

copy_twice : (d p q : List ℕ) → length q ≡ length p → copy (copy d p) q ≡ copy d q
copy_twice [] p q h = refl
copy_twice (y ∷ d) [] q h = refl
copy_twice (y ∷ d) (x ∷ p) [] h = absurd (omega arith)
copy_twice (y ∷ d) (x ∷ p) (z ∷ q) h = ap (◌∷◌ z) (copy_twice d p q (omega arith))

copy_at_twice :
    (i : ℕ) (d p q : List ℕ) → length q ≡ length p → copy_at i (copy_at i d p) q ≡ copy_at i d q
copy_at_twice zero d p q h = copy_twice d p q h
copy_at_twice (suc i) [] p q h = refl
copy_at_twice (suc i) (y ∷ d) p q h = ap (◌∷◌ y) (copy_at_twice i d p q h)

suc_not_zero : (s : ℕ) → (suc s == 0) ≡ false
suc_not_zero s = ground arith

bytes_at-replicate : (o s k : ℕ) → o + s ≤ k → bytes_at o s (replicate k 0) ≡ replicate s 0
bytes_at-replicate zero zero k h = refl
bytes_at-replicate zero (suc s) zero h = absurd (omega arith)
bytes_at-replicate zero (suc s) (suc k) h = ap (◌∷◌ 0) (bytes_at-replicate zero s k (omega arith))
bytes_at-replicate (suc o) s zero h = absurd (omega arith)
bytes_at-replicate (suc o) s (suc k) h = bytes_at-replicate o s k (omega arith)

drop-append_after : (o : ℕ) (d e : List ℕ) → length d ≤ o → drop o (d ++ e) ≡ drop (o - length d) e
drop-append_after o [] e h = ap (λ x. drop x e) (omega arith)
drop-append_after zero (y ∷ d) e h = absurd (omega arith)
drop-append_after (suc o) (y ∷ d) e h =
    drop-append_after o d e (omega arith) ∙ ap (λ x. drop x e) (omega arith)

-- A read within the length returns the bytes there.
pub get_copy_lem :
    (o s : ℕ) (m : Memory) → o + s ≤ len m → get_copy o s m ≡ ok (bytes_at o s m.store)
unfolding get_copy region
get_copy_lem o zero m h = refl
get_copy_lem o (suc s) m h =
    rw
      (
        suc_not_zero s,
        lt→ltb o (len m) (omega arith),
        ltb-false (len m + length m.spare) (o + suc s) (omega arith),
        bytes_at-append o (suc s) m.store m.spare h,
      )
      refl

-- What a write leaves behind.
pub record Written (offset : ℕ) (value : List ℕ) (m m' : Memory) : Type 0 where
  pub same_len : len m' ≡ len m
  pub here : get_copy offset (length value) m' ≡ ok value
  pub elsewhere :
      (o s : ℕ)
      → o + s ≤ len m
      → (o + s ≤ offset) ⊎ (offset + length value ≤ o)
      → get_copy o s m' ≡ get_copy o s m

Written-copy_at :
    (offset : ℕ) (value : List ℕ) (m m' : Memory)
    → offset + length value ≤ len m
    → m'.store ≡ copy_at offset m.store value
    → Written offset value m m'
Written-copy_at offset value m m' h e = record {
  same_len = long;
  here =
      get_copy_lem offset (length value) m' (omega (arith, long))
      ∙ ap ok (ap (bytes_at offset (length value)) e ∙ bytes_at-copy_at offset m.store value h);
  elsewhere = λ o s within apart.
      get_copy_lem o s m' (omega (arith, long))
      ∙ ap ok (ap (bytes_at o s) e ∙ kept o s apart)
      ∙ sym (get_copy_lem o s m within);
}
  where
    long : len m' ≡ len m
    long = ap length e ∙ length-copy_at offset m.store value

    kept :
        (o s : ℕ)
        → (o + s ≤ offset) ⊎ (offset + length value ≤ o)
        → bytes_at o s (copy_at offset m.store value) ≡ bytes_at o s m.store
    kept o s (inl before) = bytes_at-copy_at_before o s offset m.store value before
    kept o s (inr after) = ap (take s) (drop-copy_at o offset m.store value after)

-- Set of as many bytes as are given, within a memory shorter than 2^64, returns; GetCopy of that
-- region then gives those bytes, GetCopy of every region within the memory that is apart from it
-- what it gave before, and the length is the same.
pub set_memory_lem :
    (offset : ℕ) (value : List ℕ) (m : Memory)
    → offset + length value ≤ len m
    → len m < u64_mod
    → (m' : Memory) × (set_memory offset (length value) value m ≡ ok m') × Written offset value m m'
unfolding set_memory store_at
set_memory_lem offset [] m h small =
    (m, refl, Written-copy_at offset [] m m h (sym (copy_at_nil offset m.store)))
set_memory_lem offset (x ∷ value) m h small = (
  record m { store = copy_at offset m.store (take (suc (length value)) (x ∷ value)) },
  rw
      (
        lt→ltb 0 (suc (length value)) (omega arith),
        whole,
        ltb-false (len m) (offset + suc (length value)) h,
        ltb-false (offset + suc (length value)) offset (omega arith),
      )
      refl,
  Written-copy_at offset (x ∷ value) m _ h (ap (copy_at offset m.store) (take-length (x ∷ value))),
)
  where
    whole : (offset + suc (length value)) % u64_mod ≡ offset + suc (length value)
    whole = omega arith

module _ (w : Word) where
  -- Set32.
  pub set32_lem :
      (offset val : ℕ) (m : Memory)
      → offset + 32 ≤ len m
      → len m < u64_mod
      → (m' : Memory) × (set32 w offset val m ≡ ok m') × Written offset (w.bytes32 val) m m'
  unfolding set32
  set32_lem offset val m h small = (
    record m { store = copy_at offset (copy_at offset m.store (replicate 32 0)) (w.bytes32 val) },
    rw (whole, ltb-false (len m) (offset + 32) h, ltb-false (offset + 32) offset (omega arith))
        refl,
    Written-copy_at offset (w.bytes32 val) m _ (omega (arith, w.length-bytes32 val)) (
        copy_at_twice offset m.store (replicate 32 0) (w.bytes32 val)
          (w.length-bytes32 val ∙ sym (length-replicate {A = ℕ} 32 0))),
  )
    where
      whole : (offset + 32) % u64_mod ≡ offset + 32
      whole = omega arith

resize-store :
    (extra size : ℕ) (m : Memory)
    → (resize extra size m).store ≡ m.store ++ replicate (size - len m) 0
unfolding resize
resize-store extra size m = elim (Bool-cases (ltb (len m) size)) [
  | inr e ↦
      let none_added : size - len m ≡ 0 = ground arith in
      rw (e, none_added) (sym (append-nil m.store))
  | inl e ↦ elim (Bool-cases (leb (size - len m) (length m.spare))) [
    | inl f ↦ rw (e, f) refl
    | inr f ↦ rw (e, f) refl
  ]
]

pub len-resize : (extra size : ℕ) (m : Memory) → len (resize extra size m) ≡ len m + (size - len m)
len-resize extra size m =
    ap length (resize-store extra size m)
    ∙ length-append m.store _
    ∙ ap (λ x. len m + x) (length-replicate {A = ℕ} (size - len m) 0)

pub resize_cost :
    (extra size : ℕ) (m : Memory) → (resize extra size m).last_gas_cost ≡ m.last_gas_cost
unfolding resize
resize_cost extra size m = elim (Bool-cases (ltb (len m) size)) [
  | inr e ↦ rw e refl
  | inl e ↦ elim (Bool-cases (leb (size - len m) (length m.spare))) [
    | inl f ↦ rw (e, f) refl
    | inr f ↦ rw (e, f) refl
  ]
]

-- After Resize the memory is at least as long as asked for and as before, GetCopy of every region
-- of the old memory gives what it gave, and of every region between the old length and the size
-- asked for zeros, whatever the capacity was.
pub resize_lem :
    (extra size : ℕ) (m : Memory)
    → (len m ≤ len (resize extra size m))
      × (size ≤ len (resize extra size m))
      × ((o s : ℕ) → o + s ≤ len m → get_copy o s (resize extra size m) ≡ get_copy o s m)
      × ((o s : ℕ)
          → len m ≤ o
          → o + s ≤ size
          → get_copy o s (resize extra size m) ≡ ok (replicate s 0))
resize_lem extra size m = (
  omega (arith, long),
  omega (arith, long),
  λ o s h.
      get_copy_lem o s (resize extra size m) (omega (arith, long))
      ∙ ap ok (ap (bytes_at o s) e ∙ bytes_at-append o s m.store _ h)
      ∙ sym (get_copy_lem o s m h),
  λ o s h l.
      get_copy_lem o s (resize extra size m) (omega (arith, long))
      ∙ ap ok (
          ap (bytes_at o s) e
          ∙ ap (take s) (drop-append_after o m.store _ h)
          ∙ bytes_at-replicate (o - len m) s (size - len m) (omega arith)),
)
  where
    e : (resize extra size m).store ≡ m.store ++ replicate (size - len m) 0
    e = resize-store extra size m

    long : len (resize extra size m) ≡ len m + (size - len m)
    long = len-resize extra size m
