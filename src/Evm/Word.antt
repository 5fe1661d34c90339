-- ===== src/Evm/Word.antt =====
-- What evm uses of the 256-bit integers of utils/common/uint256, which is a copy of the library
-- github.com/holiman/uint256: the lowest 64 bits of a word, and whether that is all of it.
use web.Base.{ℕ, ◌%◌, ◌≡◌, refl, Bool, ltb, List, length}
use web.Base.Bytes.{u64_mod, be_bytes, length-be_bytes}

pub record Word : Type 0 where
  pub uint64 : ℕ → ℕ
  pub is_uint64 : ℕ → Bool
  pub bytes32 : ℕ → List ℕ
  pub uint64_truncates : (x : ℕ) → uint64 x ≡ x % u64_mod
  pub is_uint64_lem : (x : ℕ) → is_uint64 x ≡ ltb x u64_mod
  pub length-bytes32 : (x : ℕ) → length (bytes32 x) ≡ 32

-- The library's documented behaviour.
abbrev pub documented : Word
documented = record {
  uint64 = λ x. x % u64_mod;
  is_uint64 = λ x. ltb x u64_mod;
  bytes32 = be_bytes 32;
  uint64_truncates = λ x. refl;
  is_uint64_lem = λ x. refl;
  length-bytes32 = length-be_bytes 32;
}
