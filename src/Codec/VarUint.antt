-- ===== src/Codec/VarUint.antt =====
-- The variable-length integers and byte strings of utils/codec: what the sink writes the source
-- reads back, and the source flags as irregular whatever the sink would not have written.
use web.Base.{
  ℕ, ◌+◌, ◌%◌, ◌<◌, ◌^◌, ◌≡◌, refl, sym, ◌∙◌, true, false, not, List, [], ◌∷◌, ◌++◌, none, ltb, leb,
  length, Outcome, arith, ◌==◌, append_assoc, lt→ltb, Bool-cases, inl, inr,
}
use web.Base.Bytes.{max_int, u64_mod, IsU64, le_bytes, le_value, length-le_bytes, le_value-le_bytes}
use web.Codec.Source.{
  Source, next_var_uint, next_var_uint_wide, next_var_bytes, read_var_bytes, VarUint, VarBytes,
  get_var_uint_size,
}
use web.Codec.Source.Reads.{Holds, Reads, next_byte-Reads, next_uint-Reads, next_bytes-Reads}
use web.Codec.Sink.{var_uint_bytes, var_uint_width}

abbrev pub regular : ℕ → VarUint
regular v = record { value = v; width = var_uint_width v; irregular = false; eof = false }

pub width-eq-size : (v : ℕ) → get_var_uint_size v ≡ var_uint_width v
unfolding get_var_uint_size var_uint_width
width-eq-size v = refl

-- One of the wide forms: a number of `bytes` bytes behind its tag.
wide-Reads :
    (bytes width : ℕ) (p rest : List ℕ) (self : Source)
    → length p ≡ bytes
    → Holds (p ++ rest) self
    → Reads
        (next_var_uint_wide bytes width self)
        (record {
          value = le_value p;
          width = width;
          irregular = not (width == get_var_uint_size (le_value p));
          eof = false;
        })
        rest
        self
unfolding next_var_uint_wide
wide-Reads bytes width p rest self e h =
    let (t, et, same, holds) = next_uint-Reads bytes p rest self e h in (t, rw et, same, holds)

-- The tag decides the form.
abbrev pub Tagged : ℕ → ℕ → ℕ → Type 0
Tagged tag bytes width =
    (p rest : List ℕ) (self : Source)
    → length p ≡ bytes
    → Holds (tag ∷ (p ++ rest)) self
    → Reads (next_var_uint self)
        (record {
          value = le_value p;
          width = width;
          irregular = not (width == get_var_uint_size (le_value p));
          eof = false;
        })
        rest self

pub Tagged-two : Tagged 0xfd 2 3
unfolding next_var_uint
Tagged-two p rest self e h =
    let (t, et, same, holds) = next_byte-Reads 0xfd (p ++ rest) self h in
    let (u, eu, same', holds') = wide-Reads 2 3 p rest t e holds in
    (u, rw et eu, same' ∙ same, holds')

pub Tagged-four : Tagged 0xfe 4 5
unfolding next_var_uint
Tagged-four p rest self e h =
    let (t, et, same, holds) = next_byte-Reads 0xfe (p ++ rest) self h in
    let (u, eu, same', holds') = wide-Reads 4 5 p rest t e holds in
    (u, rw et eu, same' ∙ same, holds')

pub Tagged-eight : Tagged 0xff 8 9
unfolding next_var_uint
Tagged-eight p rest self e h =
    let (t, et, same, holds) = next_byte-Reads 0xff (p ++ rest) self h in
    let (u, eu, same', holds') = wide-Reads 8 9 p rest t e holds in
    (u, rw et eu, same' ∙ same, holds')

pub untagged :
    (b : ℕ) (rest : List ℕ) (self : Source)
    → b < 0xfd
    → Holds (b ∷ rest) self
    → Reads (next_var_uint self) (regular b) rest self
unfolding next_var_uint get_var_uint_size var_uint_width
untagged b rest self small h =
    let (t, et, same, holds) = next_byte-Reads b rest self h in
    (t, rw et (ground arith), same, holds)

-- The value of a wide form is regular exactly if it needs that width.
regular_wide :
    (v width : ℕ)
    → width ≡ var_uint_width v
    → record {
      value = v;
      width = width;
      irregular = not (width == get_var_uint_size v);
      eof = false;
    }
      ≡ regular v
unfolding get_var_uint_size var_uint_width
regular_wide v width e = ground arith

-- The four forms of a number, by its size.
data Form (v : ℕ) : Type 0 where
  one : v < 0xfd → var_uint_bytes v ≡ v ∷ [] → Form v
  two : v < 256 ^ 2 → var_uint_width v ≡ 3 → var_uint_bytes v ≡ 0xfd ∷ le_bytes 2 v → Form v
  four : v < 256 ^ 4 → var_uint_width v ≡ 5 → var_uint_bytes v ≡ 0xfe ∷ le_bytes 4 v → Form v
  eight : v < 256 ^ 8 → var_uint_width v ≡ 9 → var_uint_bytes v ≡ 0xff ∷ le_bytes 8 v → Form v

form : (v : ℕ) → IsU64 v → Form v
unfolding var_uint_bytes var_uint_width
form v h = elim (Bool-cases (ltb v 0xfd)) [
  | inl p ↦ one (ground arith) (ground arith)
  | inr p ↦ elim (Bool-cases (leb v 0xffff)) [
    | inl q ↦ two (ground arith) (ground arith) (ground arith)
    | inr q ↦ elim (Bool-cases (leb v 0xffff_ffff)) [
      | inl r ↦ four (ground arith) (ground arith) (ground arith)
      | inr r ↦ eight (omega arith) (ground arith) (ground arith)
    ]
  ]
]

Reads-eq :
    {r : Outcome (VarUint × Source)} {a b : VarUint} {rest : List ℕ} (self : Source)
    → a ≡ b
    → Reads r a rest self
    → Reads r b rest self
Reads-eq self e (t, et, same, h) = (t, rw (← e) et, same, h)

Tagged-form :
    (v tag bytes width : ℕ) (rest : List ℕ) (self : Source)
    → Tagged tag bytes width
    → v < 256 ^ bytes
    → var_uint_width v ≡ width
    → Holds (tag ∷ (le_bytes bytes v ++ rest)) self
    → Reads (next_var_uint self) (regular v) rest self
Tagged-form v tag bytes width rest self reads small e h =
    Reads-eq self (rw (le_value-le_bytes bytes v small) (regular_wide v width (sym e)))
      (reads (le_bytes bytes v) rest self (length-le_bytes bytes v) h)

-- NextVarUint reads back what WriteVarUint writes, with the same size, and calls it regular.
pub next_var_uint-Reads :
    (v : ℕ) (rest : List ℕ) (self : Source)
    → IsU64 v
    → Holds (var_uint_bytes v ++ rest) self
    → Reads (next_var_uint self) (regular v) rest self
next_var_uint-Reads v rest self small h = elim (form v small) [
  | one p e ↦ untagged v rest self p (rw e at h)
  | two p w e ↦ Tagged-form v 0xfd 2 3 rest self Tagged-two p w (rw e at h)
  | four p w e ↦ Tagged-form v 0xfe 4 5 rest self Tagged-four p w (rw e at h)
  | eight p w e ↦ Tagged-form v 0xff 8 9 rest self Tagged-eight p w (rw e at h)
]

size_small : (n : ℕ) → n < max_int → (var_uint_width n + n) % u64_mod ≡ var_uint_width n + n
unfolding var_uint_width
size_small n h = ground arith

abbrev pub regular_bytes : List ℕ → VarBytes
regular_bytes p = record {
  bytes = p;
  width = var_uint_width (length p) + length p;
  irregular = false;
  eof = false;
}

-- NextVarBytes returns the bytes of WriteVarBytes and the size that it returned.
pub next_var_bytes-Reads :
    (p rest : List ℕ) (self : Source)
    → length p < max_int
    → Holds ((var_uint_bytes (length p) ++ p) ++ rest) self
    → Reads (next_var_bytes self) (regular_bytes p) rest self
unfolding next_var_bytes
next_var_bytes-Reads [] rest self small h =
    let (t, et, same, holds) =
      next_var_uint-Reads 0 rest self (omega arith) (rw append_assoc at h) in
    (t, rw (et, size_small 0 small), same, holds)
next_var_bytes-Reads (x ∷ p) rest self small h =
    let (t, et, same, holds) =
      next_var_uint-Reads (length (x ∷ p)) ((x ∷ p) ++ rest) self (omega arith)
        (rw append_assoc at h) in
    let (u, eu, same', holds') = next_bytes-Reads (length (x ∷ p)) (x ∷ p) rest t refl holds in
    let some_bytes : ltb 0 (length (x ∷ p)) ≡ true = lt→ltb 0 (length (x ∷ p)) (omega arith) in
    (u, rw (et, some_bytes, eu, size_small (length (x ∷ p)) small), same' ∙ same, holds')

pub read_var_bytes-Reads :
    (p rest : List ℕ) (self : Source)
    → length p < max_int
    → Holds ((var_uint_bytes (length p) ++ p) ++ rest) self
    → Reads (read_var_bytes self) (p, none) rest self
unfolding read_var_bytes
read_var_bytes-Reads p rest self small h =
    let (t, et, same, holds) = next_var_bytes-Reads p rest self small h in (t, rw et, same, holds)
