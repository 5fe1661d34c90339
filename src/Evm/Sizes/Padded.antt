-- ===== src/Evm/Sizes/Padded.antt =====
-- evm/common.go: a slice that is padded with zeros.
use web.Base.{
  ℕ, zero, suc, ◌+◌, ◌-◌, ◌<◌, ◌≤◌, ◌≡◌, refl, sym, ap, ◌∙◌, List, [], ◌∷◌, ◌++◌, length, take,
  drop, replicate, leb, arith, inl, inr, Bool-cases, get_or, length-append, length-replicate,
  length-take, length-drop, ◌⊎◌,
}
use web.Base.Int.{pos}
use web.Evm.Sizes.{right_pad_bytes}

get_or-drop : (a i : ℕ) (xs : List ℕ) → get_or (drop a xs) i 0 ≡ get_or xs (a + i) 0
get_or-drop zero i xs = ap (λ x. get_or xs x 0) (omega arith)
get_or-drop (suc a) i [] = refl
get_or-drop (suc a) i (x ∷ xs) =
    get_or-drop a i xs ∙ ap (λ j. get_or (x ∷ xs) j 0) {x = suc (a + i)} (omega arith)

get_or_beyond : (i : ℕ) (xs : List ℕ) → length xs ≤ i → get_or xs i 0 ≡ 0
get_or_beyond i [] h = refl
get_or_beyond zero (x ∷ xs) h = absurd (omega arith)
get_or_beyond (suc i) (x ∷ xs) h = get_or_beyond i xs (omega arith)

get_or-take :
    (n i : ℕ) (xs : List ℕ) → (i < n) ⊎ (length xs ≤ n) → get_or (take n xs) i 0 ≡ get_or xs i 0
get_or-take zero i xs (inl h) = absurd (omega arith)
get_or-take zero i [] (inr h) = refl
get_or-take zero i (x ∷ xs) (inr h) = absurd (omega arith)
get_or-take (suc n) i [] h = refl
get_or-take (suc n) zero (x ∷ xs) h = refl
get_or-take (suc n) (suc i) (x ∷ xs) (inl h) = get_or-take n i xs (inl (omega arith))
get_or-take (suc n) (suc i) (x ∷ xs) (inr h) = get_or-take n i xs (inr (omega arith))

get_or-replicate : (k i : ℕ) → get_or {A = ℕ} (replicate k 0) i 0 ≡ 0
get_or-replicate zero i = refl
get_or-replicate (suc k) zero = refl
get_or-replicate (suc k) (suc i) = get_or-replicate k i

get_or-padded : (xs : List ℕ) (k i : ℕ) → get_or (xs ++ replicate k 0) i 0 ≡ get_or xs i 0
get_or-padded [] k i = get_or-replicate k i
get_or-padded (x ∷ xs) k zero = refl
get_or-padded (x ∷ xs) k (suc i) = get_or-padded xs k i

right_pad_bytes_lem :
    (slice : List ℕ) (l : ℕ)
    → length slice ≤ l
    → (length (right_pad_bytes slice (pos l)) ≡ l)
      × ((i : ℕ) → get_or (right_pad_bytes slice (pos l)) i 0 ≡ get_or slice i 0)
unfolding right_pad_bytes
right_pad_bytes_lem slice l h = elim (Bool-cases (leb l (length slice))) [
  | inl e ↦ rw e (ground arith, λ i. refl)
  | inr e ↦ rw e (
    omega (
      arith,
      length-append slice (replicate (l - length slice) 0),
      length-replicate {A = ℕ} (l - length slice) 0,
    ),
    λ i. get_or-padded slice (l - length slice) i,
  )
]

-- The bytes `out` are those of the data from `start` on, with zeros behind its end.
pub record Reads (bytes : List ℕ) (start size : ℕ) (out : List ℕ) : Type 0 where
  pub exact : length out ≡ size
  pub content : (i : ℕ) → i < size → get_or out i 0 ≡ get_or bytes (start + i) 0

-- The slice that getData pads, for bounds that lie in order.
pub sliced :
    (bytes : List ℕ) (s size n : ℕ)
    → s ≤ length bytes
    → n ≤ size
    → (n ≡ size) ⊎ (s + n ≡ length bytes)
    → s + n ≤ length bytes
    → Reads bytes s size (right_pad_bytes (take n (drop s bytes)) (pos size))
sliced bytes s size n h k full fits = record {
  exact = padded.0;
  content = λ i lt.
      padded.1 i ∙ get_or-take n i (drop s bytes) (in_slice i lt full) ∙ get_or-drop s i bytes;
}
  where
    padded :
        (length (right_pad_bytes (take n (drop s bytes)) (pos size)) ≡ size)
        × ((i : ℕ)
            → get_or (right_pad_bytes (take n (drop s bytes)) (pos size)) i 0
              ≡ get_or (take n (drop s bytes)) i 0)
    padded =
        right_pad_bytes_lem (take n (drop s bytes)) size
          (omega (arith, length-take n (drop s bytes)))

    in_slice :
        (i : ℕ)
        → i < size
        → (n ≡ size) ⊎ (s + n ≡ length bytes)
        → (i < n) ⊎ (length (drop s bytes) ≤ n)
    in_slice i lt (inl e) = inl (omega arith)
    in_slice i lt (inr e) = inr (omega (arith, length-drop s bytes))

-- Where the read starts beyond the end, it is as if it started there.
pub from_end :
    (bytes : List ℕ) (start size : ℕ) (out : List ℕ)
    → length bytes < start
    → Reads bytes (length bytes) size out
    → Reads bytes start size out
from_end bytes start size out h r = record {
  exact = r.exact;
  content = λ i lt.
      r.content i lt
      ∙ get_or_beyond (length bytes + i) bytes (omega arith)
      ∙ sym (get_or_beyond (start + i) bytes (omega arith));
}
