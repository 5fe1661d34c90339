-- ===== src/Codec/Canonical.antt =====
-- utils/codec/zero_copy_source.go: NextVarUint calls a number irregular exactly if its bytes are
-- not those that WriteVarUint writes, and fails at the end of input.
use web.Base.{
  ℕ, ◌≤◌, ◌<◌, ◌≡◌, refl, sym, ap, ◌∙◌, true, false, not, List, [], ◌∷◌, ◌++◌, length, take, drop,
  All, All-append_parts, take-append-drop, length-take, ok, arith, ◌==◌, Bool-cases, inl, inr, ◌⊎◌,
  ok_inj,
}
use mathlib.Core.Bool.{false≢true}
use web.Base.Bytes.{u64_mod, IsByte, le_bytes, le_value, le_bytes-le_value}
use web.Codec.Source.{
  Source, next_var_uint, next_var_uint_wide, VarUint, get_var_uint_size, next_byte,
}
use web.Codec.Source.Reads.{Holds, Reads, next_byte-Reads, next_byte_eof, next_uint_eof}
use web.Codec.Sink.{var_uint_bytes, var_uint_width}
use web.Codec.VarUint.{Tagged, Tagged-two, Tagged-four, Tagged-eight, untagged}

-- The answer at the end of input.
abbrev at_eof : VarUint
at_eof = record { value = 0; width = 0; irregular = false; eof = true }

-- What the bytes `src` decode to: too short, or a number with its bytes and the rest.
abbrev Decodes : List ℕ → Source → Type 0
Decodes src self =
    Reads (next_var_uint self) at_eof [] self
    ⊎ ((v : ℕ) × (p : List ℕ) × (rest : List ℕ) × (width : ℕ) × (src ≡ p ++ rest)
        × (width ≡ var_uint_width v → p ≡ var_uint_bytes v)
        × Reads (next_var_uint self)
            (record {
              value = v;
              width = width;
              irregular = not (width == var_uint_width v);
              eof = false;
            })
            rest self)

-- A wide form decodes to the value of its bytes, which is canonical if it needs that width.
decode_wide :
    (tag bytes width : ℕ) (bs : List ℕ) (self : Source)
    → Tagged tag bytes width
    → ((p : List ℕ)
        → length p ≡ bytes
        → All IsByte p
        → width ≡ var_uint_width (le_value p)
        → tag ∷ p ≡ var_uint_bytes (le_value p))
    → bytes ≤ length bs
    → All IsByte bs
    → Holds (tag ∷ bs) self
    → Decodes (tag ∷ bs) self
unfolding get_var_uint_size var_uint_width
decode_wide tag bytes width bs self reads canonical enough ok_bytes h =
    let p = take bytes bs in
    let rest = drop bytes bs in
    let whole : p ++ rest ≡ bs = take-append-drop bytes bs in
    let lp : length p ≡ bytes = omega (arith, length-take bytes bs) in
    let parts = All-append_parts IsByte p rest (rw whole ok_bytes) in
    inr (
      le_value p,
      tag ∷ p,
      rest,
      width,
      ap (◌∷◌ tag) (sym whole),
      canonical p lp parts.0,
      reads p rest self lp (rw whole h),
    )

wide_short :
    (tag bytes width : ℕ) (bs : List ℕ) (self : Source)
    → length bs < bytes
    → bytes < u64_mod
    → ((t : Source)
        → next_byte self ≡ ok ((tag, false), t)
        → next_var_uint self ≡ next_var_uint_wide bytes width t)
    → Holds (tag ∷ bs) self
    → Decodes (tag ∷ bs) self
unfolding next_var_uint_wide
wide_short tag bytes width bs self short fits dispatch h =
    let (t, et, same, holds) = next_byte-Reads tag bs self h in
    let (u, eu, same', holds') = next_uint_eof bytes bs t short fits holds in
    inl (u, dispatch t et ∙ rw eu, same' ∙ same, holds')

-- The width decides the form.
width_three : (v : ℕ) → 3 ≡ var_uint_width v → var_uint_bytes v ≡ 0xfd ∷ le_bytes 2 v
unfolding var_uint_width var_uint_bytes
width_three v h = ground arith

width_five : (v : ℕ) → 5 ≡ var_uint_width v → var_uint_bytes v ≡ 0xfe ∷ le_bytes 4 v
unfolding var_uint_width var_uint_bytes
width_five v h = ground arith

width_nine : (v : ℕ) → 9 ≡ var_uint_width v → var_uint_bytes v ≡ 0xff ∷ le_bytes 8 v
unfolding var_uint_width var_uint_bytes
width_nine v h = ground arith

rebuilt :
    (tag n : ℕ) (p : List ℕ)
    → length p ≡ n
    → All IsByte p
    → var_uint_bytes (le_value p) ≡ tag ∷ le_bytes n (le_value p)
    → tag ∷ p ≡ var_uint_bytes (le_value p)
rebuilt tag n p e b form = sym (form ∙ ap (◌∷◌ tag) (rw (← e) (le_bytes-le_value p b)))

short_or_long : (n k : ℕ) → (n < k) ⊎ (k ≤ n)
short_or_long n k = omega arith

one_byte : (b : ℕ) → b < 0xfd → (var_uint_bytes b ≡ b ∷ []) × (var_uint_width b ≡ 1)
unfolding var_uint_bytes var_uint_width
one_byte b h = ground arith

decode_two :
    (bs : List ℕ) (self : Source)
    → All IsByte bs
    → Holds (0xfd ∷ bs) self
    → Decodes (0xfd ∷ bs) self
decode_two bs self b h = elim (short_or_long (length bs) 2) [
  | inl short ↦
      wide_short 0xfd 2 3 bs self short (omega arith) (λ t e. unfold next_var_uint in rw e) h
  | inr enough ↦
      decode_wide 0xfd 2 3 bs self Tagged-two
        (λ p e q w. rebuilt 0xfd 2 p e q (width_three (le_value p) w)) enough b h
]

decode_four :
    (bs : List ℕ) (self : Source)
    → All IsByte bs
    → Holds (0xfe ∷ bs) self
    → Decodes (0xfe ∷ bs) self
decode_four bs self b h = elim (short_or_long (length bs) 4) [
  | inl short ↦
      wide_short 0xfe 4 5 bs self short (omega arith) (λ t e. unfold next_var_uint in rw e) h
  | inr enough ↦
      decode_wide 0xfe 4 5 bs self Tagged-four
        (λ p e q w. rebuilt 0xfe 4 p e q (width_five (le_value p) w)) enough b h
]

decode_eight :
    (bs : List ℕ) (self : Source)
    → All IsByte bs
    → Holds (0xff ∷ bs) self
    → Decodes (0xff ∷ bs) self
decode_eight bs self b h = elim (short_or_long (length bs) 8) [
  | inl short ↦
      wide_short 0xff 8 9 bs self short (omega arith) (λ t e. unfold next_var_uint in rw e) h
  | inr enough ↦
      decode_wide 0xff 8 9 bs self Tagged-eight
        (λ p e q w. rebuilt 0xff 8 p e q (width_nine (le_value p) w)) enough b h
]

data Tag (b : ℕ) : Type 0 where
  plain : b < 0xfd → Tag b
  fd : b ≡ 0xfd → Tag b
  fe : b ≡ 0xfe → Tag b
  ff : b ≡ 0xff → Tag b

Tag-of : (b : ℕ) → IsByte b → Tag b
Tag-of b h = elim (short_or_long b 0xfd) [
  | inl p ↦ plain p
  | inr q ↦ elim (Bool-cases (b == 0xfd)) [
    | inl e ↦ fd (ground arith)
    | inr n ↦ elim (Bool-cases (b == 0xfe)) [
      | inl e ↦ fe (ground arith)
      | inr m ↦ ff (ground arith)
    ]
  ]
]

not_eq_false : (a b : ℕ) → not (a == b) ≡ false → a ≡ b
not_eq_false a b h = ground arith

decode_one :
    (b : ℕ) (bs : List ℕ) (self : Source) → b < 0xfd → Holds (b ∷ bs) self → Decodes (b ∷ bs) self
decode_one b bs self small h =
    let (t, et, same, holds) = untagged b bs self small h in
    inr (
      b,
      b ∷ [],
      bs,
      1,
      refl,
      (λ w. sym (one_byte b small).0),
      (t, rw (et, (one_byte b small).1), same, holds),
    )

decode : (src : List ℕ) (self : Source) → All IsByte src → Holds src self → Decodes src self
unfolding next_var_uint
decode [] self b h = let (t, et, same, holds) = next_byte_eof self h in inl (t, rw et, same, holds)
decode (b ∷ bs) self ok_bytes h = elim (Tag-of b ok_bytes.0) [
  | plain p ↦ decode_one b bs self p h
  | fd e ↦ rw e (decode_two bs self ok_bytes.1 (rw e at h))
  | fe e ↦ rw e (decode_four bs self ok_bytes.1 (rw e at h))
  | ff e ↦ rw e (decode_eight bs self ok_bytes.1 (rw e at h))
]

-- On any input of bytes, a number that NextVarUint returns as regular and without end of input
-- was read from exactly the bytes that WriteVarUint writes for it, and the source then stands
-- behind them.
pub next_var_uint_canonical :
    (src : List ℕ) (self t : Source) (r : VarUint)
    → All IsByte src
    → Holds src self
    → next_var_uint self ≡ ok (r, t)
    → r.eof ≡ false
    → r.irregular ≡ false
    → (rest : List ℕ) × (src ≡ var_uint_bytes r.value ++ rest) × Holds rest t
next_var_uint_canonical src self t r b h run no_eof reg = elim (decode src self b h) [
  | inl (u, eu, same, holds) ↦
      let e : r ≡ at_eof = ap (λ (x : VarUint × Source). x.0) (ok_inj (sym run ∙ eu)) in
      absurd (false≢true (sym no_eof ∙ ap (λ (x : VarUint). x.eof) e))
  | inr (v, p, rest, width, split, canonical, (u, eu, same, holds)) ↦
      let e : (r, t) ≡ (
        record {
          value = v;
          width = width;
          irregular = not (width == var_uint_width v);
          eof = false;
        },
        u,
      ) =
        ok_inj (sym run ∙ eu) in
      let value : r.value ≡ v = ap (λ (x : VarUint × Source). x.0.value) e in
      let same_width : width ≡ var_uint_width v =
        not_eq_false width (var_uint_width v)
          (sym (ap (λ (x : VarUint × Source). x.0.irregular) e) ∙ reg) in
      let source : t ≡ u = ap (λ (x : VarUint × Source). x.1) e in
      (rest, rw (value, ← canonical same_width) split, rw source holds)
]
