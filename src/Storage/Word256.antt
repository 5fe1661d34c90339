-- ===== src/Storage/Word256.antt =====
-- What evm/storage uses of the 256-bit integers of utils/common/uint256, which is a copy of the
-- library github.com/holiman/uint256: a value is the number that it stands for.
use web.Base.{ℕ, ◌+◌, ◌-◌, ◌%◌, ◌^◌, ◌<◌, ◌≡◌, refl, List, length}
use web.Base.Bytes.{be_bytes, be_value, length-be_bytes, be_value-be_bytes}

abbrev pub u256_mod : ℕ
u256_mod = 2 ^ 256

pub record Word256 : Type 0 where
  pub add : ℕ → ℕ → ℕ
  pub sub : ℕ → ℕ → ℕ
  pub from_big : ℕ → ℕ
  pub bytes32 : ℕ → List ℕ
  pub set_bytes32 : List ℕ → ℕ
  pub add_wraps : (x y : ℕ) → add x y ≡ (x + y) % u256_mod
  pub sub_wraps : (x y : ℕ) → x < u256_mod → y < u256_mod → sub x y ≡ (x + u256_mod - y) % u256_mod
  pub from_big_truncates : (x : ℕ) → from_big x ≡ x % u256_mod
  pub length-bytes32 : (x : ℕ) → length (bytes32 x) ≡ 32
  pub set_bytes32-bytes32 : (x : ℕ) → x < u256_mod → set_bytes32 (bytes32 x) ≡ x

-- The arithmetic that the library documents.
abbrev pub words : Word256
words = record {
  add = λ x y. (x + y) % u256_mod;
  sub = λ x y. (x + u256_mod - y) % u256_mod;
  from_big = λ x. x % u256_mod;
  bytes32 = be_bytes 32;
  set_bytes32 = be_value;
  add_wraps = λ x y. refl;
  sub_wraps = λ x y p q. refl;
  from_big_truncates = λ x. refl;
  length-bytes32 = length-be_bytes 32;
  set_bytes32-bytes32 = λ x h. be_value-be_bytes 32 x h;
}
