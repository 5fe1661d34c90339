-- ===== src/Codec/RoundTrip.antt =====
-- utils/codec: a source over a sink's bytes reads back what was written.
use web.Base.{
  ℕ, ◌+◌, ◌*◌, ◌≤◌, ◌<◌, ◌^◌, ◌≡◌, sym, ap, ◌∙◌, false, List, ◌++◌, length, drop, length-append,
  drop-append_at, append_assoc, ok, ok_inj, arith,
}
use web.Base.Bytes.{max_int, IsU64, le_bytes, length-le_bytes, le_value-le_bytes}
use web.Codec.Source.{Source, next_uint, next_var_uint, next_var_bytes}
use web.Codec.Source.Reads.{Holds, Reads, next_uint-Reads}
use web.Codec.Sink.{
  Sink, cap, bytes, write_uint, write_var_uint, write_var_bytes, var_uint_bytes, var_uint_width,
}
use web.Codec.Sink.Append.{
  IsValid, HasRoom, Appends, length-bytes, write_uint-Writes, write_var_uint-Writes,
  write_var_bytes-Writes,
}
use web.Codec.VarUint.{regular, regular_bytes, next_var_uint-Reads, next_var_bytes-Reads}

-- A source over what a sink holds, followed by `rest`, at the place where the sink stood.
abbrev pub source_at : Sink → Sink → List ℕ → Source
source_at self t rest = record { s = bytes t ++ rest; off = self.len }

pub Appends-Holds :
    (n : ℕ) (p rest : List ℕ) (self t : Sink)
    → IsValid self
    → length (bytes t ++ rest) ≤ max_int
    → Appends n p self t
    → Holds (p ++ rest) (source_at self t rest)
Appends-Holds n p rest self t v small a = record {
  within = omega (
    arith,
    length-bytes self v,
    length-append (bytes t) rest,
    length-append (bytes self) p,
    ap length a.content,
  );
  small = small;
  ahead =
      ap (λ (b : List ℕ). drop self.len (b ++ rest)) a.content
      ∙ ap (drop self.len) (append_assoc (bytes self) p rest)
      ∙ drop-append_at self.len (bytes self) (p ++ rest) (length-bytes self v);
}

module _ (rest : List ℕ) (self t : Sink) (valid : IsValid self)
    (small : length (bytes t ++ rest) ≤ max_int) where
  -- If WriteUint16, WriteUint32 or WriteUint64 succeeds on a valid sink with room for the bytes,
  -- for a number that fits the width, NextUint of that width at the place where it starts returns
  -- the number without end of input and leaves the rest of the input ahead.
  pub next_uint-write_uint :
      (width v : ℕ)
      → v < 256 ^ width
      → HasRoom width self
      → write_uint width v self ≡ ok t
      → Reads (next_uint width (source_at self t rest)) (v, false) rest (source_at self t rest)
  next_uint-write_uint width v fits room run =
      let (u, eu, a) = write_uint-Writes width v self valid room in
      let same : u ≡ t = ok_inj (sym eu ∙ run) in
      rw (le_value-le_bytes width v fits) at (
        next_uint-Reads width (le_bytes width v) rest (source_at self t rest)
          (length-le_bytes width v)
          (Appends-Holds width (le_bytes width v) rest self t valid small (rw same at a)))

  -- If WriteVarUint writes a 64-bit number on a valid sink with room for nine bytes, NextVarUint
  -- at the place where it starts returns the number with its width, regular and without end of
  -- input, leaves the rest of the input ahead, and the width is the one that WriteVarUint
  -- returned.
  pub next_var_uint-write_var_uint :
      (v n : ℕ)
      → IsU64 v
      → HasRoom 9 self
      → write_var_uint v self ≡ ok (n, t)
      → Reads (next_var_uint (source_at self t rest)) (regular v) rest (source_at self t rest)
        × (n ≡ var_uint_width v)
  next_var_uint-write_var_uint v n fits room run =
      let (u, eu, a) = write_var_uint-Writes v self valid room in
      let e : (var_uint_width v, u) ≡ (n, t) = ok_inj (sym eu ∙ run) in
      let same : u ≡ t = ap (λ (x : ℕ × Sink). x.1) e in
      (
        next_var_uint-Reads v rest (source_at self t rest) fits
            (Appends-Holds 9 (var_uint_bytes v) rest self t valid small (rw same at a)),
        sym (ap (λ (x : ℕ × Sink). x.0) e),
      )

  -- If WriteVarBytes succeeds on a valid sink with room for the bytes, NextVarBytes at the place
  -- where they start returns them with their size, regular and without end of input, leaves the
  -- rest of the input ahead, and the size is the one that WriteVarBytes returned.
  pub next_var_bytes-write_var_bytes :
      (p : List ℕ) (n : ℕ)
      → 4 * cap self + 18 + length p ≤ max_int
      → write_var_bytes p self ≡ ok (n, t)
      → Reads
          (next_var_bytes (source_at self t rest))
          (regular_bytes p)
          rest
          (source_at self t rest)
        × (n ≡ (regular_bytes p).width)
  next_var_bytes-write_var_bytes p n room run =
      let short : length p < max_int = omega arith in
      let (u, eu, a) = write_var_bytes-Writes p self valid room in
      let e : (var_uint_width (length p) + length p, u) ≡ (n, t) = ok_inj (sym eu ∙ run) in
      let same : u ≡ t = ap (λ (x : ℕ × Sink). x.1) e in
      (
        next_var_bytes-Reads p rest (source_at self t rest) short (
            Appends-Holds _ (var_uint_bytes (length p) ++ p) rest self t valid small
              (rw same at a)),
        sym (ap (λ (x : ℕ × Sink). x.0) e),
      )
