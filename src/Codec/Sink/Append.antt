-- ===== src/Codec/Sink/Append.antt =====
-- What the writes of utils/codec/zero_copy_sink.go leave in the buffer.
use web.Base.{
  ℕ, ◌+◌, ◌-◌, ◌*◌, ◌%◌, ◌≤◌, ◌≡◌, refl, ap, ◌∙◌, List, [], ◌∷◌, ◌++◌, leb, if◌then◌else◌, length,
  take, replicate, copy_at, length-take, length-copy_at, length-replicate, take-copy_at, take-copy,
  Outcome, ok, ◌>>=◌, arith, append_assoc, inl, inr, Bool-cases,
}
use web.Base.Bytes.{max_int, u64_mod, le_bytes, length-le_bytes}
use web.Codec.Sink.{
  Sink, cap, bytes, grow_alloc, next_bytes, fill, write_bytes, back_up, write_uint8, write_uint,
  write_var_uint, var_uint_bytes, var_uint_width, write_var_bytes,
}

-- The invariant of a Go slice: its length is within its capacity.
abbrev pub IsValid : Sink → Type 0
IsValid self = self.len ≤ cap self

-- The array of a growing sink can be made: its length is a Go `int`.
abbrev pub HasRoom : ℕ → Sink → Type 0
HasRoom n self = 2 * cap self + n ≤ max_int

-- The sink after `next_bytes n`, where the array can be made.
pub reserved : ℕ → Sink → Sink
reserved n self =
    if leb n (cap self - self.len) then record self { len = self.len + n } else grow_alloc n self

pub next_bytes-reserved :
    (n : ℕ) (self : Sink) → HasRoom n self → next_bytes n self ≡ ok (self.len, reserved n self)
unfolding next_bytes reserved
next_bytes-reserved n self h = ground arith

pub len-reserved : (n : ℕ) (self : Sink) → (reserved n self).len ≡ self.len + n
unfolding reserved grow_alloc
len-reserved n self = ground arith

-- Reserving keeps what was written, and makes room for the new bytes.
cap-reserved : (n : ℕ) (self : Sink) → IsValid self → self.len + n ≤ length (reserved n self).array
unfolding reserved grow_alloc
cap-reserved n self v = ground (
  arith,
  length-copy_at 0 (replicate (2 * cap self + n) 0) (take self.len self.array),
  length-replicate {A = ℕ} (2 * cap self + n) 0,
)

pub cap-reserved_le : (n : ℕ) (self : Sink) → length (reserved n self).array ≤ 2 * cap self + n
unfolding reserved grow_alloc
cap-reserved_le n self = ground (
  arith,
  length-copy_at 0 (replicate (2 * cap self + n) 0) (take self.len self.array),
  length-replicate {A = ℕ} (2 * cap self + n) 0,
)

pub length-bytes : (self : Sink) → IsValid self → length (bytes self) ≡ self.len
unfolding bytes
length-bytes self v = omega (arith, length-take self.len self.array)

copied : (n : ℕ) (self : Sink) → IsValid self → take self.len (grow_alloc n self).array ≡ bytes self
unfolding grow_alloc bytes
copied n self v =
    let old : List ℕ = take self.len self.array in
    let new : List ℕ = replicate (2 * cap self + n) 0 in
    let long : length old ≤ length new =
      omega
        (arith, length-replicate {A = ℕ} (2 * cap self + n) 0, length-take self.len self.array) in
    let old_len : length old ≡ self.len = length-bytes self v in
    rw old_len at (take-copy new old long)

kept : (n : ℕ) (self : Sink) → IsValid self → take self.len (reserved n self).array ≡ bytes self
unfolding reserved bytes
kept n self v = elim (Bool-cases (leb n (cap self - self.len))) [
  | inl fits ↦ rw fits
  | inr full ↦ rw full (copied n self v)
]

-- `t` is `self` with `p` appended. The capacity at most doubles and takes the reserved bytes.
pub record Appends (n : ℕ) (p : List ℕ) (self t : Sink) : Type 0 where
  pub valid : IsValid t
  pub content : bytes t ≡ bytes self ++ p
  pub bound : cap t ≤ 2 * cap self + n

-- The reserved bytes are overwritten by `p`, and a length behind `p` drops the rest of them.
pub fill-Appends :
    (n : ℕ) (p : List ℕ) (self : Sink)
    → IsValid self
    → length p ≤ n
    → Appends n p self
        (record { array = copy_at self.len (reserved n self).array p; len = self.len + length p })
unfolding bytes
fill-Appends n p self v fits = record {
  valid = omega (arith, length-copy_at self.len (reserved n self).array p, cap-reserved n self v);
  content =
      take-copy_at self.len (reserved n self).array p (omega (arith, cap-reserved n self v))
      ∙ ap (λ (b : List ℕ). b ++ p) (kept n self v);
  bound = omega (arith, length-copy_at self.len (reserved n self).array p, cap-reserved_le n self);
}

abbrev written : ℕ → List ℕ → Sink → Sink
written n p self = record {
  array = copy_at self.len (reserved n self).array p;
  len = self.len + length p;
}

-- A write returns, and the buffer is extended by `p`.
abbrev pub Writes : ℕ → List ℕ → Sink → Outcome Sink → Type 0
Writes n p self r = (t : Sink) × (r ≡ ok t) × Appends n p self t

fill-reserved :
    (n : ℕ) (p : List ℕ) (self : Sink)
    → length p ≡ n
    → fill self.len p (reserved n self) ≡ written n p self
unfolding fill
fill-reserved n p self e = ground (arith, len-reserved n self)

-- Every write of a fixed size: reserve `n` bytes, and fill them all.
reserve_and_fill :
    (n : ℕ) (p : List ℕ) (self : Sink)
    → length p ≡ n
    → IsValid self
    → HasRoom n self
    → Writes n p self (next_bytes n self >>= λ r. ok (fill r.0 p r.1))
reserve_and_fill n p self e v room = (
  written n p self,
  rw (next_bytes-reserved n self room) (ap ok (fill-reserved n p self e)),
  fill-Appends n p self v (omega arith),
)

pub write_bytes-Writes :
    (p : List ℕ) (self : Sink)
    → IsValid self
    → HasRoom (length p) self
    → Writes (length p) p self (write_bytes p self)
unfolding write_bytes
write_bytes-Writes p self = reserve_and_fill (length p) p self refl

pub write_uint-Writes :
    (width v : ℕ) (self : Sink)
    → IsValid self
    → HasRoom width self
    → Writes width (le_bytes width v) self (write_uint width v self)
unfolding write_uint
write_uint-Writes width v self =
    reserve_and_fill width (le_bytes width v) self (length-le_bytes width v)

pub write_uint8-Writes :
    (v : ℕ) (self : Sink)
    → IsValid self
    → HasRoom 1 self
    → Writes 1 (v ∷ []) self (write_uint8 v self)
unfolding write_uint8
write_uint8-Writes v self = reserve_and_fill 1 (v ∷ []) self refl

pub length-var_uint_bytes : (v : ℕ) → length (var_uint_bytes v) ≡ var_uint_width v
unfolding var_uint_bytes var_uint_width
length-var_uint_bytes v =
    ground (arith, length-le_bytes 2 v, length-le_bytes 4 v, length-le_bytes 8 v)

pub var_uint_width-le : (v : ℕ) → (1 ≤ var_uint_width v) × (var_uint_width v ≤ 9)
unfolding var_uint_width
var_uint_width-le v = ground arith

back_up-written :
    (v : ℕ) (self : Sink)
    → back_up (9 - var_uint_width v) (fill self.len (var_uint_bytes v) (reserved 9 self))
      ≡ ok (written 9 (var_uint_bytes v) self)
unfolding back_up fill
back_up-written v self =
    ground (arith, len-reserved 9 self, length-var_uint_bytes v, var_uint_width-le v)

-- WriteVarUint returns the number of bytes that it has added.
pub write_var_uint-Writes :
    (v : ℕ) (self : Sink)
    → IsValid self
    → HasRoom 9 self
    → (t : Sink) × (write_var_uint v self ≡ ok (var_uint_width v, t))
      × Appends 9 (var_uint_bytes v) self t
unfolding write_var_uint
write_var_uint-Writes v self valid room = (
  written 9 (var_uint_bytes v) self,
  rw (next_bytes-reserved 9 self room, back_up-written v self),
  fill-Appends 9 (var_uint_bytes v) self valid
      (omega (arith, length-var_uint_bytes v, var_uint_width-le v)),
)

pub Appends-trans :
    (n m : ℕ) (p q : List ℕ) (self t u : Sink)
    → Appends n p self t
    → Appends m q t u
    → Appends (2 * n + m + 2 * cap self) (p ++ q) self u
Appends-trans n m p q self t u a b = record {
  valid = b.valid;
  content = b.content ∙ ap (λ (x : List ℕ). x ++ q) a.content ∙ append_assoc (bytes self) p q;
  bound = let ba = a.bound in let bb = b.bound in omega arith;
}

-- On a valid sink with room for the bytes in the range of int, WriteVarBytes does not panic,
-- returns the length of what it wrote, appends the length and the bytes and changes nothing
-- before them, leaves the sink valid, and grows the array to a bounded size.
pub write_var_bytes-Writes :
    (p : List ℕ) (self : Sink)
    → IsValid self
    → 4 * cap self + 18 + length p ≤ max_int
    → (t : Sink) × (write_var_bytes p self ≡ ok (var_uint_width (length p) + length p, t))
      × Appends (18 + length p + 2 * cap self) (var_uint_bytes (length p) ++ p) self t
unfolding write_var_bytes
write_var_bytes-Writes p self v room =
    let (t, et, at) = write_var_uint-Writes (length p) self v (omega arith) in
    let (u, eu, au) = write_bytes-Writes p t at.valid (omega (arith, at.bound)) in
    let small : (var_uint_width (length p) + length p) % u64_mod
        ≡ var_uint_width (length p) + length p =
      omega (arith, var_uint_width-le (length p)) in
    (u, rw (et, eu, small), Appends-trans 9 (length p) _ p self t u at au)
