-- ===== src/Evm/Sizes/Bounds.antt =====
-- evm/common.go: the sizes are exact, or the overflow is reported.
use web.Base.{
  Outcome, panic, ◌^◌, min, take-length, drop-length, lt→ltb, ℕ, zero, suc, ◌+◌, ◌-◌, ◌/◌, ◌%◌, ◌<◌,
  ◌≤◌, ◌≡◌, refl, sym, ap, ◌∙◌, true, false, List, [], ◌∷◌, if◌then◌else◌, length, take, drop, ltb,
  ◌==◌, ok, arith, inl, inr, Bool-cases, length-drop, ◌⊎◌, ltb-false, lt→ltb, ltb→lt,
}
use web.Base.Bytes.{u64_mod}
use web.Evm.Word.{Word}
use web.Base.Int.{pos, int_of}
use web.Evm.Sizes.Padded.{Reads, sliced, from_end}
use web.Evm.Sizes.{
  to_word_size, right_pad_bytes, get_data, calc_mem_size64_with_uint, calc_mem_size64,
}

-- ToWordSize of every uint64 is the exact number of 32-byte words, rounded up, also where size +
-- 31 would wrap.
pub to_word_size_lem : (size : ℕ) → size < u64_mod → to_word_size size ≡ (size + 31) / 32
unfolding to_word_size
to_word_size_lem size h = ground arith

-- What a memory access needs: nothing for no bytes, and all bytes up to its end otherwise.
unfoldable pub needed : ℕ → ℕ → ℕ
needed off l = if l == 0 then 0 else off + l

-- CalcMemSize64 of any offset and length is the end of the access, or 0 for no bytes, without
-- overflow, where that is below 2^64, and reports an overflow where it is not.
pub calc_mem_size64_lem :
    (w : Word) (off l : ℕ)
    → (needed off l < u64_mod → calc_mem_size64 w off l ≡ (needed off l, false))
      × (u64_mod ≤ needed off l → (calc_mem_size64 w off l).1 ≡ true)
unfolding calc_mem_size64 calc_mem_size64_with_uint needed
calc_mem_size64_lem w off l =
    rw (w.is_uint64_lem l, w.is_uint64_lem off, w.uint64_truncates l, w.uint64_truncates off)
      (λ h. ground arith, λ h. ground arith)

-- What getData does with a size that is an int, with one that turns negative, and with one that
-- makes the end wrap.
abbrev pub IsRead : List ℕ → ℕ → ℕ → Outcome (List ℕ) → Type 0
IsRead bytes start size call =
    ((size < 2 ^ 63) × ((out : List ℕ) × (call ≡ ok out) × Reads bytes start size out))
    ⊎ (((2 ^ 63 ≤ size)
          × (min start (length bytes) + size < u64_mod)
          × (call ≡ ok (drop start bytes)))
        ⊎ ((u64_mod ≤ min start (length bytes) + size) × (call ≡ panic)))

int_of-pos : (x : ℕ) → x < 2 ^ 63 → int_of x ≡ pos x
int_of-pos x h = ground arith

right_pad_bytes_negative :
    (slice : List ℕ) (x : ℕ) → 2 ^ 63 ≤ x → right_pad_bytes slice (int_of x) ≡ slice
unfolding right_pad_bytes
right_pad_bytes_negative slice x h = rw (ltb-false x (2 ^ 63) h) refl

-- Where neither the start lies behind the data nor the end wraps.
get_data_whole :
    (bytes : List ℕ) (s size : ℕ)
    → s ≤ length bytes
    → s + size < u64_mod
    → get_data bytes s size
      ≡ ok (
          right_pad_bytes
            (take
              ((if ltb (length bytes) (s + size) then length bytes else s + size) - s)
              (drop s bytes))
            (int_of size))
unfolding get_data
get_data_whole bytes s size h small =
    let whole : (s + size) % u64_mod ≡ s + size = omega arith in
    let ordered : ltb (if ltb (length bytes) (s + size) then length bytes else s + size) s ≡ false =
      ground arith in
    rw (ltb-false (length bytes) s h, whole, ordered) refl

get_data_padded :
    (bytes : List ℕ) (s size : ℕ)
    → length bytes < 2 ^ 63
    → size < 2 ^ 63
    → s ≤ length bytes
    → (out : List ℕ) × (get_data bytes s size ≡ ok out) × Reads bytes s size out
get_data_padded bytes s size int small h =
    let whole = get_data_whole bytes s size h (omega arith) in
    elim (Bool-cases (ltb (length bytes) (s + size))) [
      | inl e ↦ (
        _,
        whole ∙ rw (e, int_of-pos size small) refl,
        sliced bytes s size (length bytes - s) h (ground arith) (inr (omega arith)) (omega arith),
      )
      | inr e ↦ (
        _,
        whole ∙ rw (e, int_of-pos size small) refl,
        sliced bytes s size (s + size - s) h (omega arith) (inl (omega arith)) (ground arith),
      )
    ]

get_data_unpadded :
    (bytes : List ℕ) (s size : ℕ)
    → length bytes < 2 ^ 63
    → 2 ^ 63 ≤ size
    → s ≤ length bytes
    → s + size < u64_mod
    → get_data bytes s size ≡ ok (drop s bytes)
get_data_unpadded bytes s size int large h fits =
    let all : take (length bytes - s) (drop s bytes) ≡ drop s bytes =
      ap (λ n. take n (drop s bytes)) (sym (length-drop s bytes)) ∙ take-length (drop s bytes) in
    get_data_whole bytes s size h fits
    ∙ rw (lt→ltb (length bytes) (s + size) (omega arith), all)
        (ap ok (right_pad_bytes_negative (drop s bytes) size large))

get_data_wrapped :
    (bytes : List ℕ) (s size : ℕ)
    → length bytes < 2 ^ 63
    → size < u64_mod
    → s ≤ length bytes
    → u64_mod ≤ s + size
    → get_data bytes s size ≡ panic
unfolding get_data
get_data_wrapped bytes s size int word h wraps =
    let wrapped : (s + size) % u64_mod ≡ s + size - u64_mod = omega arith in
    rw
      (
        ltb-false (length bytes) s h,
        wrapped,
        ltb-false (length bytes) (s + size - u64_mod) (omega arith),
        lt→ltb (s + size - u64_mod) s (omega arith),
      )
      refl

get_data_within :
    (bytes : List ℕ) (s size : ℕ)
    → length bytes < 2 ^ 63
    → size < u64_mod
    → s ≤ length bytes
    → IsRead bytes s size (get_data bytes s size)
get_data_within bytes s size int word h = elim (Bool-cases (ltb size (2 ^ 63))) [
  | inl e ↦
      let small = ltb→lt size (2 ^ 63) e in inl (small, get_data_padded bytes s size int small h)
  | inr e ↦
      let large : 2 ^ 63 ≤ size = ground (arith, e) in
      elim (Bool-cases (ltb (s + size) u64_mod)) [
        | inl f ↦
            let fits = ltb→lt (s + size) u64_mod f in
            inr (inl (large, omega (arith, fits), get_data_unpadded bytes s size int large h fits))
        | inr f ↦
            let wraps : u64_mod ≤ s + size = ground (arith, f) in
            inr (inr (omega (arith, wraps), get_data_wrapped bytes s size int word h wraps))
      ]
]

get_data-beyond :
    (bytes : List ℕ) (start size : ℕ)
    → length bytes < start
    → get_data bytes start size ≡ get_data bytes (length bytes) size
unfolding get_data
get_data-beyond bytes start size h =
    rw (lt→ltb (length bytes) start h, ltb-false (length bytes) (length bytes) (omega arith)) refl

drop_beyond : (n : ℕ) (bytes : List ℕ) → length bytes ≤ n → drop n bytes ≡ []
drop_beyond zero [] h = refl
drop_beyond zero (x ∷ xs) h = absurd (omega arith)
drop_beyond (suc n) [] h = refl
drop_beyond (suc n) (x ∷ xs) h = drop_beyond n xs (omega arith)

-- A start behind the end is as one at the end.
IsRead-beyond :
    (bytes : List ℕ) (start size : ℕ) (call : Outcome (List ℕ))
    → length bytes < start
    → IsRead bytes (length bytes) size call
    → IsRead bytes start size call
IsRead-beyond bytes start size call far (inl (small, (out, run, r))) =
    inl (small, (out, run, from_end bytes start size out far r))
IsRead-beyond bytes start size call far (inr (inl (large, fits, run))) = inr (
    inl (
      large,
      omega (arith, fits),
      run ∙ ap ok (drop-length bytes ∙ sym (drop_beyond start bytes (omega arith))),
    ))
IsRead-beyond bytes start size call far (inr (inr (wraps, run))) =
    inr (inr (omega (arith, wraps), run))

-- For data shorter than 2^63 bytes, any start and any uint64 size, where memory can be had for
-- the padding: for a size below 2^63 getData returns exactly size bytes, those of the data from
-- start on and zeros behind its end, also where start is behind it; a size from 2^63 on is
-- negative as an int, and getData returns the data from start on without padding if the start, at
-- most the data's length, and the size add up to less than 2^64, and panics if they do not.
pub get_data_lem :
    (bytes : List ℕ) (start size : ℕ)
    → length bytes < 2 ^ 63
    → size < u64_mod
    → IsRead bytes start size (get_data bytes start size)
get_data_lem bytes start size int word = elim (Bool-cases (ltb (length bytes) start)) [
  | inl e ↦
      let far : length bytes < start = ltb→lt _ _ e in
      rw (get_data-beyond bytes start size far) (
        IsRead-beyond bytes start size _ far
          (get_data_within bytes (length bytes) size int word (omega arith)))
  | inr e ↦ get_data_within bytes start size int word (ground (arith, e))
]
