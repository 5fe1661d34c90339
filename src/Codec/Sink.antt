-- ===== src/Codec/Sink.antt =====
-- utils/codec/zero_copy_sink.go: an append-only buffer.
-- A Go slice is its backing array and its length; its capacity is the array's length. The bytes
-- past the length are what earlier writes left there.
pub mod Append
use web.Base.{
  ℕ, ◌+◌, ◌-◌, ◌*◌, ◌%◌, Bool, List, [], ◌∷◌, Option, none, some, ltb, leb, if◌then◌else◌, length,
  take, replicate, copy_at, Outcome, ok, panic, ◌>>=◌,
}
use web.Base.Bytes.{max_int, u64_mod, le_bytes}

pub record Sink : Type 0 where
  pub array : List ℕ
  pub len : ℕ

abbrev pub cap : Sink → ℕ
cap self = length self.array

-- `Bytes()`: what has been written.
unfoldable pub bytes : Sink → List ℕ
bytes self = take self.len self.array

unfoldable pub size : Sink → ℕ
size self = self.len

-- The index where bytes should be written, if the spare capacity is enough.
unfoldable pub try_grow_by_reslice : ℕ → Sink → Option (ℕ × Sink)
try_grow_by_reslice n self =
    if leb n (cap self - self.len)
    then some (self.len, record self { len = self.len + n })
    else none

-- `make([]byte, 2*c + n)`, `copy(buf, self.buf)`, `buf[:l+n]`; `make` clears the new array.
unfoldable pub grow_alloc : ℕ → Sink → Sink
grow_alloc n self = record {
  array = copy_at 0 (replicate (2 * cap self + n) 0) (take self.len self.array);
  len = self.len + n;
}

unfoldable pub grow : ℕ → Sink → Outcome (ℕ × Sink)
unfolding try_grow_by_reslice grow_alloc
grow n self = elim (try_grow_by_reslice n self) [
  | some r ↦ ok r
  | none ↦ if ltb max_int (2 * cap self + n) then panic else ok (self.len, grow_alloc n self)
]

-- The start of the `n` new bytes. `int(n)` is negative from 2 ^ 63 on, and then either the
-- reslice or `self.buf[m:]` is out of range.
unfoldable pub next_bytes : ℕ → Sink → Outcome (ℕ × Sink)
unfolding try_grow_by_reslice grow
next_bytes n self =
    if ltb max_int n
    then panic
    else elim (try_grow_by_reslice n self) [ some r ↦ ok r | none ↦ grow n self ]

-- `copy(data, p)` into the bytes from `m` on.
unfoldable pub fill : ℕ → List ℕ → Sink → Sink
fill m p self = record self { array = copy_at m self.array p }

unfoldable pub write_bytes : List ℕ → Sink → Outcome Sink
unfolding next_bytes fill
write_bytes p self = next_bytes (length p) self >>= λ r. ok (fill r.0 p r.1)

-- `self.buf[:len - int(n)]`. From 2 ^ 63 on `int(n)` is negative, and the slice grows.
unfoldable pub back_up : ℕ → Sink → Outcome Sink
back_up n self =
    if leb n max_int
    then (if leb n self.len then ok (record self { len = self.len - n }) else panic)
    else if leb (self.len + (u64_mod - n)) (cap self)
    then ok (record self { len = self.len + (u64_mod - n) })
    else panic

unfoldable pub write_uint8 : ℕ → Sink → Outcome Sink
unfolding next_bytes fill
write_uint8 v self = next_bytes 1 self >>= λ r. ok (fill r.0 (v ∷ []) r.1)

unfoldable pub write_bool : Bool → Sink → Outcome Sink
unfolding write_uint8
write_bool v self = if v then write_uint8 1 self else write_uint8 0 self

-- WriteUint16, WriteUint32 and WriteUint64 at 2, 4 and 8 bytes.
unfoldable pub write_uint : ℕ → ℕ → Sink → Outcome Sink
unfolding next_bytes fill
write_uint width v self = next_bytes width self >>= λ r. ok (fill r.0 (le_bytes width v) r.1)

unfoldable pub write_uint16 : ℕ → Sink → Outcome Sink
write_uint16 = write_uint 2

unfoldable pub write_uint32 : ℕ → Sink → Outcome Sink
write_uint32 = write_uint 4

unfoldable pub write_uint64 : ℕ → Sink → Outcome Sink
write_uint64 = write_uint 8

-- The tag byte and the number's bytes; Go writes them into the nine bytes that it has reserved.
unfoldable pub var_uint_bytes : ℕ → List ℕ
var_uint_bytes v =
    if ltb v 0xfd
    then v ∷ []
    else if leb v 0xffff
    then 0xfd ∷ le_bytes 2 v
    else if leb v 0xffff_ffff
    then 0xfe ∷ le_bytes 4 v
    else 0xff ∷ le_bytes 8 v

unfoldable pub var_uint_width : ℕ → ℕ
var_uint_width v =
    if ltb v 0xfd then 1 else if leb v 0xffff then 3 else if leb v 0xffff_ffff then 5 else 9

unfoldable pub write_var_uint : ℕ → Sink → Outcome (ℕ × Sink)
unfolding next_bytes fill back_up var_uint_bytes var_uint_width
write_var_uint v self = next_bytes 9 self >>= λ r.
    let width = var_uint_width v in
    back_up (9 - width) (fill r.0 (var_uint_bytes v) r.1) >>= λ t. ok (width, t)

-- The size returned is `WriteVarUint(l) + l` in uint64.
unfoldable pub write_var_bytes : List ℕ → Sink → Outcome (ℕ × Sink)
unfolding write_var_uint write_bytes
write_var_bytes p self = write_var_uint (length p) self >>= λ r.
    write_bytes p r.1 >>= λ t. ok ((r.0 + length p) % u64_mod, t)

-- A nil slice is replaced by one of capacity 512.
unfoldable pub new_sink : Option (List ℕ) → Sink
new_sink none = record { array = replicate 512 0; len = 0 }
new_sink (some b) = record { array = b; len = length b }

unfoldable pub reset : Sink → Sink
reset self = record self { len = 0 }
