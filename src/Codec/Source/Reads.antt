-- ===== src/Codec/Source/Reads.antt =====
-- What the reads of utils/codec/zero_copy_source.go return, on both branches.
use web.Base.{
  ℕ, ◌+◌, ◌-◌, ◌≤◌, ◌<◌, ◌≡◌, refl, ap, ◌∙◌, true, false, List, [], ◌∷◌, ◌++◌, length, take, drop,
  get_or, length-append, length-drop, take-append_self, drop-append_self, take-length, drop-add,
  get_or-drop, Outcome, ok, arith,
}
use web.Base.Bytes.{max_int, u64_mod, le_value}
use web.Codec.Source.{
  Source, next_bytes, next_byte, next_uint, next_array, read_end, slice, safe_add,
}

-- `rest` is what the source has not read, and its slice has a length that Go can hold.
pub record Holds (rest : List ℕ) (self : Source) : Type 0 where
  pub within : self.off ≤ length self.s
  pub small : length self.s ≤ max_int
  pub ahead : drop self.off self.s ≡ rest

-- A read returns `a` and moves the source to `rest`.
abbrev pub Reads {ℓ} : {A : Type ℓ} → Outcome (A × Source) → A → List ℕ → Source → Type ℓ
Reads r a rest self = (t : Source) × (r ≡ ok (a, t)) × (t.s ≡ self.s) × Holds rest t

-- the bytes left, as a number
pub rest_length :
    (rest : List ℕ) (self : Source) → Holds rest self → self.off + length rest ≡ length self.s
rest_length rest self h = omega (arith, ap length h.ahead, length-drop self.off self.s, h.within)

pub advance :
    (p rest : List ℕ) (self : Source)
    → Holds (p ++ rest) self
    → Holds rest (record self { off = self.off + length p })
advance p rest self h = record {
  within = omega (arith, rest_length (p ++ rest) self h, length-append p rest);
  small = h.small;
  ahead =
      drop-add self.off (length p) self.s ∙ ap (drop (length p)) h.ahead ∙ drop-append_self p rest;
}

read_end-fits :
    (n : ℕ) (self : Source)
    → self.off + n ≤ length self.s
    → length self.s ≤ max_int
    → read_end self n ≡ (self.off + n, false)
unfolding read_end safe_add
read_end-fits n self h k = ground arith

read_end-short :
    (n : ℕ) (self : Source)
    → length self.s < self.off + n
    → n < u64_mod
    → self.off ≤ length self.s
    → length self.s ≤ max_int
    → read_end self n ≡ (length self.s, true)
unfolding read_end safe_add
read_end-short n self h k i j = ground arith

drop-length : (xs : List ℕ) → drop (length xs) xs ≡ []
drop-length [] = refl
drop-length (x ∷ xs) = drop-length xs

slice_rest :
    (rest : List ℕ) (self : Source)
    → Holds rest self
    → slice self.s self.off (length self.s) ≡ ok rest
unfolding slice
slice_rest rest self h = ground (
  arith,
  rest_length rest self h,
  ap (take (length self.s - self.off)) h.ahead,
  take-length rest,
  whole,
)
  where
    whole : length self.s - self.off ≡ length rest
    whole = omega (arith, rest_length rest self h)

slice_ahead :
    (p rest : List ℕ) (self : Source)
    → Holds (p ++ rest) self
    → slice self.s self.off (self.off + length p) ≡ ok p
unfolding slice
slice_ahead p rest self h = ground (
  arith,
  rest_length (p ++ rest) self h,
  length-append p rest,
  ap (take (length p)) h.ahead ∙ take-append_self p rest,
)

-- A read of as many bytes as are at hand returns them.
pub next_bytes-Reads :
    (n : ℕ) (p rest : List ℕ) (self : Source)
    → length p ≡ n
    → Holds (p ++ rest) self
    → Reads (next_bytes n self) (p, false) rest self
unfolding next_bytes
next_bytes-Reads n p rest self e h =
    (record self { off = self.off + length p }, returns, refl, advance p rest self h)
  where
    end : read_end self n ≡ (self.off + length p, false)
    end = rw e (
        read_end-fits n self (omega (arith, rest_length (p ++ rest) self h, length-append p rest))
          h.small)

    returns : next_bytes n self ≡ ok ((p, false), record self { off = self.off + length p })
    returns = rw (end, slice_ahead p rest self h)

-- A read of more bytes than are left, by a 64-bit count, returns all that is left, reports the
-- end of input and moves the source to its end.
pub next_bytes_eof :
    (n : ℕ) (rest : List ℕ) (self : Source)
    → length rest < n
    → n < u64_mod
    → Holds rest self
    → Reads (next_bytes n self) (rest, true) [] self
unfolding next_bytes
next_bytes_eof n rest self short fits h = (record self { off = length self.s }, returns, refl, done)
  where
    left : self.off + length rest ≡ length self.s
    left = rest_length rest self h

    end : read_end self n ≡ (length self.s, true)
    end = read_end-short n self (omega (arith, left)) fits h.within h.small

    data_left : slice self.s self.off (length self.s) ≡ ok rest
    data_left = slice_rest rest self h

    returns : next_bytes n self ≡ ok ((rest, true), record self { off = length self.s })
    returns = rw (end, data_left)

    done : Holds [] (record self { off = length self.s })
    done = record { within = omega arith; small = h.small; ahead = drop-length self.s }

pub next_byte-Reads :
    (b : ℕ) (rest : List ℕ) (self : Source)
    → Holds (b ∷ rest) self
    → Reads (next_byte self) (b, false) rest self
unfolding next_byte
next_byte-Reads b rest self h = (
  record self { off = self.off + 1 },
  ground (
    arith,
    rest_length (b ∷ rest) self h,
    get_or-drop self.off self.s 0 ∙ ap (λ (l : List ℕ). get_or l 0 0) h.ahead,
  ),
  refl,
  advance (b ∷ []) rest self h,
)

pub next_byte_eof : (self : Source) → Holds [] self → Reads (next_byte self) (0, true) [] self
unfolding next_byte
next_byte_eof self h = (self, ground (arith, rest_length [] self h), refl, h)

-- NextUint16, NextUint32 and NextUint64 decode the bytes that they read.
pub next_uint-Reads :
    (width : ℕ) (p rest : List ℕ) (self : Source)
    → length p ≡ width
    → Holds (p ++ rest) self
    → Reads (next_uint width self) (le_value p, false) rest self
unfolding next_uint
next_uint-Reads width p rest self e h =
    let (t, et, same, holds) = next_bytes-Reads width p rest self e h in (t, rw et, same, holds)

pub next_uint_eof :
    (width : ℕ) (rest : List ℕ) (self : Source)
    → length rest < width
    → width < u64_mod
    → Holds rest self
    → Reads (next_uint width self) (0, true) [] self
unfolding next_uint
next_uint_eof width rest self short fits h =
    let (t, et, same, holds) = next_bytes_eof width rest self short fits h in
    (t, rw et, same, holds)

pub next_array-Reads :
    (zero_value p rest : List ℕ) (width : ℕ) (self : Source)
    → length p ≡ width
    → Holds (p ++ rest) self
    → Reads (next_array width zero_value self) (p, false) rest self
unfolding next_array
next_array-Reads zero_value p rest width self e h =
    let (t, et, same, holds) = next_bytes-Reads width p rest self e h in (t, rw et, same, holds)
