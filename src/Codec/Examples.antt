-- ===== src/Codec/Examples.antt =====
-- Concrete runs of utils/codec, and its theorems at concrete inputs.
use web.Base.{ℕ, ◌+◌, ◌*◌, ◌≡◌, refl, true, false, List, [], ◌∷◌, ◌++◌, replicate, ok, panic, arith}
use web.Base.Bytes.{le_bytes, le_value}
use web.Codec.Source.{
  Source, next_uint, next_var_uint, next_var_uint_wide, next_var_bytes, next_bytes, next_byte,
  read_end, slice, safe_add, get_var_uint_size, new_source, back_up,
}
use web.Codec.Source.Reads.{Holds, Reads, next_bytes_eof}
use web.Codec.Sink.{
  Sink, bytes, write_uint, write_var_uint, write_var_bytes, var_uint_bytes, var_uint_width,
}
use web.Codec.Sink.Append.{Appends, write_var_bytes-Writes}
use web.Codec.VarUint.{regular, regular_bytes}
use web.Codec.Canonical.{next_var_uint_canonical}
use web.Codec.RoundTrip.{
  source_at, next_uint-write_uint, next_var_uint-write_var_uint, next_var_bytes-write_var_bytes,
}

-- A sink of capacity 4 that holds one byte.
abbrev small_sink : Sink
small_sink = record { array = 7 ∷ 0 ∷ 0 ∷ 0 ∷ []; len = 1 }

abbrev grown_sink : Sink
grown_sink = record { array = 7 ∷ 0xfd ∷ 0x2c ∷ 0x01 ∷ replicate 13 0; len = 4 }

write_300 : write_var_uint 300 small_sink ≡ ok (3, grown_sink)
unfolding write_var_uint le_bytes
write_300 = refl

read_300 :
    next_var_uint (new_source (0xfd ∷ 0x2c ∷ 0x01 ∷ []))
    ≡ ok (regular 300, record { s = 0xfd ∷ 0x2c ∷ 0x01 ∷ []; off = 3 })
unfolding next_var_uint next_var_uint_wide next_byte next_uint next_bytes read_end slice safe_add
    le_value get_var_uint_size new_source var_uint_width
read_300 = refl

-- 0xfd 0x05 0x00 is read as 5, and flagged.
read_padded_irregular :
    next_var_uint (new_source (0xfd ∷ 0x05 ∷ 0x00 ∷ []))
    ≡ ok (
      record { value = 5; width = 3; irregular = true; eof = false },
      record { s = 0xfd ∷ 0x05 ∷ 0x00 ∷ []; off = 3 },
    )
unfolding next_var_uint next_var_uint_wide next_byte next_uint next_bytes read_end slice safe_add
    le_value get_var_uint_size new_source
read_padded_irregular = refl

-- Backing up past the start wraps the index, and the next read panics.
back_up_too_far : next_bytes 2 (back_up 1 (new_source (1 ∷ 2 ∷ []))) ≡ panic
unfolding next_bytes back_up new_source read_end slice safe_add
back_up_too_far = refl

next_var_uint-write_var_uint_example :
    Reads
      (next_var_uint (source_at small_sink grown_sink (9 ∷ [])))
      (regular 300)
      (9 ∷ [])
      (source_at small_sink grown_sink (9 ∷ []))
    × (3 ≡ var_uint_width 300)
unfolding bytes
next_var_uint-write_var_uint_example =
    next_var_uint-write_var_uint (9 ∷ []) small_sink grown_sink (omega arith) (omega arith) 300 3
      (omega arith) (omega arith) write_300

write_two_bytes :
    write_uint 2 0x1234 small_sink ≡ ok (record { array = 7 ∷ 0x34 ∷ 0x12 ∷ 0 ∷ []; len = 3 })
unfolding write_uint le_bytes
write_two_bytes = refl

next_uint-write_uint_example :
    Reads
      (next_uint 2 (source_at small_sink (record { array = 7 ∷ 0x34 ∷ 0x12 ∷ 0 ∷ []; len = 3 }) []))
      (0x1234, false)
      []
      (source_at small_sink (record { array = 7 ∷ 0x34 ∷ 0x12 ∷ 0 ∷ []; len = 3 }) [])
unfolding bytes
next_uint-write_uint_example =
    next_uint-write_uint [] small_sink (record { array = 7 ∷ 0x34 ∷ 0x12 ∷ 0 ∷ []; len = 3 })
      (omega arith) (omega arith) 2 0x1234 (omega arith) (omega arith) write_two_bytes

abbrev filled_sink : Sink
filled_sink = record { array = 7 ∷ 2 ∷ 5 ∷ 6 ∷ replicate 13 0; len = 4 }

write_two_var_bytes : write_var_bytes (5 ∷ 6 ∷ []) small_sink ≡ ok (3, filled_sink)
unfolding write_var_bytes
write_two_var_bytes = refl

next_var_bytes-write_var_bytes_example :
    Reads
      (next_var_bytes (source_at small_sink filled_sink []))
      (regular_bytes (5 ∷ 6 ∷ []))
      []
      (source_at small_sink filled_sink [])
    × (3 ≡ (regular_bytes (5 ∷ 6 ∷ [])).width)
unfolding bytes
next_var_bytes-write_var_bytes_example =
    next_var_bytes-write_var_bytes [] small_sink filled_sink (omega arith) (omega arith)
      (5 ∷ 6 ∷ []) 3 (omega arith) write_two_var_bytes

write_var_bytes-Writes_example :
    (t : Sink) × (write_var_bytes (5 ∷ 6 ∷ []) small_sink ≡ ok (var_uint_width 2 + 2, t))
    × Appends (18 + 2 + 2 * 4) (var_uint_bytes 2 ++ 5 ∷ 6 ∷ []) small_sink t
write_var_bytes-Writes_example =
    write_var_bytes-Writes (5 ∷ 6 ∷ []) small_sink (omega arith) (omega arith)

abbrev three_bytes : Source
three_bytes = record { s = 0xfd ∷ 0x2c ∷ 0x01 ∷ []; off = 0 }

next_var_uint_canonical_example :
    (rest : List ℕ) × (0xfd ∷ 0x2c ∷ 0x01 ∷ [] ≡ var_uint_bytes 300 ++ rest)
    × Holds rest (record three_bytes { off = 3 })
unfolding new_source
next_var_uint_canonical_example =
    next_var_uint_canonical (0xfd ∷ 0x2c ∷ 0x01 ∷ []) three_bytes (record three_bytes { off = 3 })
      (regular 300) (omega arith)
      (record { within = omega arith; small = omega arith; ahead = refl }) read_300 refl refl

next_bytes_eof_example :
    Reads (next_bytes 4 three_bytes) (0xfd ∷ 0x2c ∷ 0x01 ∷ [], true) [] three_bytes
next_bytes_eof_example =
    next_bytes_eof 4 (0xfd ∷ 0x2c ∷ 0x01 ∷ []) three_bytes (omega arith) (omega arith)
      (record { within = omega arith; small = omega arith; ahead = refl })
