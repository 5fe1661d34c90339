-- ===== src/Codec/Source.antt =====
-- utils/codec/zero_copy_source.go: a cursor over a byte slice.
-- A source is its slice and the reading index; a method returns its results and the new source.
-- Slices hold bytes, and lengths are below 2 ^ 63, as in Go; `off` is a uint64.
pub mod Reads
use web.Base.{
  ℕ, ◌+◌, ◌-◌, ◌%◌, Bool, true, false, ◌||◌, not, List, [], Option, none, some, ltb, leb, ◌==◌,
  if◌then◌else◌, length, take, drop, get_or, Outcome, ok, panic, ◌>>=◌,
}
use web.Base.Bytes.{u64_mod, le_value}

pub record Source : Type 0 where
  pub s : List ℕ
  pub off : ℕ

-- What a method returns: a panic, or its results and the source after the call.
abbrev pub M : Type 0 → Type 0
M A = Source → Outcome (A × Source)

pub data Error : Type 0 where
  irregular_data unexpected_eof : Error

unfoldable pub len : Source → ℕ
len self = let size = length self.s in if leb size self.off then 0 else size - self.off

unfoldable pub pos : Source → ℕ
pos self = self.off

unfoldable pub size : Source → ℕ
size self = length self.s

-- `x + y` in uint64, and whether it wrapped.
unfoldable pub safe_add : ℕ → ℕ → ℕ × Bool
safe_add x y = ((x + y) % u64_mod, ltb (u64_mod - 1 - x) y)

-- `s[lo:hi]` for an `hi` up to len(s), which panics unless lo ≤ hi.
unfoldable pub slice : List ℕ → ℕ → ℕ → Outcome (List ℕ)
slice xs lo hi =
    if leb lo hi
    then (if leb hi (length xs) then ok (take (hi - lo) (drop lo xs)) else panic)
    else panic

-- The end of a read of `n` bytes, and whether the slice is too short for it.
unfoldable pub read_end : Source → ℕ → ℕ × Bool
read_end self n =
    let m = length self.s in
    let (end, overflow) = safe_add self.off n in
    if overflow || ltb m end then (m, true) else (end, false)

unfoldable pub next_bytes : ℕ → M (List ℕ × Bool)
next_bytes n self =
    let (end, eof) = read_end self n in
    slice self.s self.off end >>= λ data_. ok ((data_, eof), record self { off = end })

unfoldable pub skip : ℕ → M Bool
skip n self = let (end, eof) = read_end self n in ok (eof, record self { off = end })

unfoldable pub next_byte : M (ℕ × Bool)
next_byte self =
    if leb (length self.s) self.off
    then ok ((0, true), self)
    else ok ((get_or self.s self.off 0, false), record self { off = self.off + 1 })

unfoldable pub next_uint8 : M (ℕ × Bool)
next_uint8 self = next_byte self

-- The data, whether the byte was neither 0 nor 1, and the end of input.
unfoldable pub next_bool : M (Bool × Bool × Bool)
next_bool self = next_byte self >>= λ r.
    let val = r.0.0 in
    let eof = r.0.1 in
    ok (
      (if val == 0
          then (false, false, eof)
          else if val == 1
          then (true, false, eof)
          else (true, true, eof)),
      r.1,
    )

-- `self.off -= n` wraps.
unfoldable pub back_up : ℕ → Source → Source
back_up n self = record self { off = (self.off + u64_mod - n) % u64_mod }

-- NextUint16, NextUint32 and NextUint64 are this at 2, 4 and 8 bytes.
unfoldable pub next_uint : ℕ → M (ℕ × Bool)
next_uint width self = next_bytes width self >>= λ r.
    if r.0.1 then ok ((0, true), r.1) else ok ((le_value r.0.0, r.0.1), r.1)

unfoldable pub next_uint16 : M (ℕ × Bool)
next_uint16 = next_uint 2

unfoldable pub next_uint32 : M (ℕ × Bool)
next_uint32 = next_uint 4

unfoldable pub next_uint64 : M (ℕ × Bool)
next_uint64 = next_uint 8

-- ReadUint32 and ReadUint64: the end of input becomes an error.
unfoldable pub read_uint : ℕ → M (ℕ × Option Error)
read_uint width self = next_uint width self >>= λ r.
    if r.0.1 then ok ((0, some unexpected_eof), r.1) else ok ((r.0.0, none), r.1)

unfoldable pub read_uint32 : M (ℕ × Option Error)
read_uint32 = read_uint 4

unfoldable pub read_uint64 : M (ℕ × Option Error)
read_uint64 = read_uint 8

-- NextAddress and NextHash: a fixed number of bytes, and the zero value at the end of input.
unfoldable pub next_array : ℕ → List ℕ → M (List ℕ × Bool)
next_array width zero_value self = next_bytes width self >>= λ r.
    if r.0.1 then ok ((zero_value, true), r.1) else ok ((r.0.0, r.0.1), r.1)

unfoldable pub get_var_uint_size : ℕ → ℕ
get_var_uint_size value =
    if ltb value 0xfd
    then 1
    else if leb value 0xffff
    then 3
    else if leb value 0xffff_ffff
    then 5
    else 9

pub record VarUint : Type 0 where
  pub value : ℕ
  pub width : ℕ
  pub irregular : Bool
  pub eof : Bool

-- The part of NextVarUint behind a tag byte: the wide forms, where the first byte was no eof.
unfoldable pub next_var_uint_wide : ℕ → ℕ → M VarUint
next_var_uint_wide bytes width self = next_uint bytes self >>= λ r.
    if r.0.1
    then ok (record { value = 0; width = 0; irregular = false; eof = true }, r.1)
    else ok (
      record {
        value = r.0.0;
        width = width;
        irregular = not (width == get_var_uint_size r.0.0);
        eof = false;
      },
      r.1,
    )

unfoldable pub next_var_uint : M VarUint
next_var_uint self = next_byte self >>= λ r.
    let fb = r.0.0 in
    if r.0.1
    then ok (record { value = 0; width = 0; irregular = false; eof = true }, r.1)
    else if fb == 0xfd
    then next_var_uint_wide 2 3 r.1
    else if fb == 0xfe
    then next_var_uint_wide 4 5 r.1
    else if fb == 0xff
    then next_var_uint_wide 8 9 r.1
    else ok (
      record { value = fb; width = 1; irregular = not (1 == get_var_uint_size fb); eof = false },
      r.1,
    )

pub record VarBytes : Type 0 where
  pub bytes : List ℕ
  pub width : ℕ
  pub irregular : Bool
  pub eof : Bool

-- `size += count` wraps; the eof of the length is replaced by that of the bytes where there are any.
unfoldable pub next_var_bytes : M VarBytes
next_var_bytes self = next_var_uint self >>= λ r.
    let count = r.0.value in
    let width = (r.0.width + count) % u64_mod in
    if ltb 0 count
    then (next_bytes count r.1 >>= λ d.
        ok (record { bytes = d.0.0; width = width; irregular = r.0.irregular; eof = d.0.1 }, d.1))
    else ok (record { bytes = []; width = width; irregular = r.0.irregular; eof = r.0.eof }, r.1)

unfoldable pub read_var_bytes : M (List ℕ × Option Error)
read_var_bytes self = next_var_bytes self >>= λ r.
    if r.0.irregular
    then ok (([], some irregular_data), r.1)
    else if r.0.eof
    then ok (([], some unexpected_eof), r.1)
    else ok ((r.0.bytes, none), r.1)

unfoldable pub new_source : List ℕ → Source
new_source b = record { s = b; off = 0 }
