-- ===== src/Evm/Analysis.antt =====
-- evm/analysis.go: which bytes of a program are instructions, and which are the data of a PUSH.
pub mod Bits
pub mod Marks
pub mod Correct
use web.Base.{
  ℕ, zero, suc, ◌+◌, ◌-◌, ◌*◌, ◌/◌, ◌%◌, ◌^◌, ◌≡◌, Bool, true, false, ◌&&◌, List, [], ◌∷◌, Option,
  none, some, if◌then◌else◌, length, replicate, get_elem?, set, ltb, leb, ◌==◌, Outcome, ok, panic,
  ◌>>=◌,
}
use Prim.Native.Nat.{bit_or, bit_and}

abbrev pub push1 : ℕ
push1 = 0x60

abbrev pub push32 : ℕ
push32 = 0x7f

-- `(*bits)[i] |= mask`: an index out of range panics.
unfoldable pub or_byte : ℕ → ℕ → List ℕ → Outcome (List ℕ)
or_byte i mask bits = elim (get_elem? bits i) [
  | none ↦ panic
  | some b ↦ ok (set bits i (bit_or b mask))
]

unfoldable pub set_bit : ℕ → List ℕ → Outcome (List ℕ)
set_bit pos bits = or_byte (pos / 8) (0x80 / 2 ^ (pos % 8)) bits

-- `^x` of a byte is 255 - x.
unfoldable pub set8 : ℕ → List ℕ → Outcome (List ℕ)
set8 pos bits = or_byte (pos / 8) (0xff / 2 ^ (pos % 8)) bits >>= λ bits'.
    or_byte (pos / 8 + 1) (0xff - 0xff / 2 ^ (pos % 8)) bits'

unfoldable pub code_segment : ℕ → List ℕ → Outcome Bool
code_segment pos bits = elim (get_elem? bits (pos / 8)) [
  | none ↦ panic
  | some b ↦ ok (bit_and b (0x80 / 2 ^ (pos % 8)) == 0)
]

-- The loop of set8, of as many turns as there are whole groups of eight.
unfoldable pub set8_run : ℕ → ℕ → List ℕ → Outcome (List ℕ)
set8_run zero pc bits = ok bits
set8_run (suc k) pc bits = set8 pc bits >>= λ bits'. set8_run k (pc + 8) bits'

unfoldable pub set_run : ℕ → ℕ → List ℕ → Outcome (List ℕ)
set_run zero pc bits = ok bits
set_run (suc k) pc bits = set_bit pc bits >>= λ bits'. set_run k (pc + 1) bits'

-- `numbits`, or 0 where the instruction is no PUSH.
unfoldable pub push_size : ℕ → ℕ
push_size op = if leb push1 op && leb op push32 then op - push1 + 1 else 0

-- The main loop. Every turn moves `pc` on, so that as many turns as there are bytes, and one to
-- find the end, are enough.
unfoldable pub bitmap_loop : ℕ → List ℕ → ℕ → List ℕ → Outcome (List ℕ)
bitmap_loop zero code pc bits = panic
bitmap_loop (suc fuel) code pc bits = elim (get_elem? code pc) [
  | none ↦ ok bits
  | some op ↦
      let n = push_size op in
      set8_run (n / 8) (pc + 1) bits >>= λ bits₁.
      set_run (n % 8) (pc + 1 + 8 * (n / 8)) bits₁ >>= λ bits₂.
      bitmap_loop fuel code (pc + 1 + n) bits₂
]

unfoldable pub code_bitmap : List ℕ → Outcome (List ℕ)
code_bitmap code = bitmap_loop (suc (length code)) code 0 (replicate (length code / 8 + 1 + 4) 0)
