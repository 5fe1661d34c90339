-- ===== src/Evm/Contract.antt =====
-- evm/contract.go: the code under execution, its gas, and where it may jump.
pub mod Jumps
use web.Base.{
  ℕ, ◌+◌, ◌-◌, ◌^◌, ◌≡◌, Bool, true, false, ◌&&◌, ◌||◌, not, List, [], Option, some, none,
  if◌then◌else◌, length, get_or, ltb, leb, ◌==◌, Outcome, ok, panic, ◌>>=◌,
}
use web.Base.Keys.{bytes_eq}
use web.Storage.SortedMap.{Entries, find, insert}
use web.Storage.Account.{zero_hash}
use web.Evm.Word.{Word}
use web.Evm.Analysis.{code_bitmap, code_segment}

-- `jumpdests` is the map that a contract shares with the contract that called it; `analysis` is
-- none where it is nil.
pub record Contract : Type 0 where
  pub caller_address : List ℕ
  pub self_address : List ℕ
  pub jumpdests : Entries
  pub analysis : Option (List ℕ)
  pub code : List ℕ
  pub code_hash : List ℕ
  pub code_addr : Option (List ℕ)
  pub input : List ℕ
  pub gas : ℕ
  pub value : ℕ

abbrev pub jumpdest : ℕ
jumpdest = 0x5b

abbrev pub beginsub : ℕ
beginsub = 0x5c

-- `parent` is the caller's map where the caller is itself a contract.
unfoldable pub new_contract : List ℕ → Option Entries → List ℕ → ℕ → ℕ → Contract
new_contract caller parent object value gas = record {
  caller_address = caller;
  self_address = object;
  jumpdests = elim parent [ none ↦ [] | some m ↦ m ];
  analysis = none;
  code = [];
  code_hash = zero_hash;
  code_addr = none;
  input = [];
  gas = gas;
  value = value;
}

-- The analysis that isCode looks up or makes, and the contract that remembers it.
unfoldable pub analysed : Contract → Outcome (List ℕ × Contract)
analysed c = elim c.analysis [
  | some bits ↦ ok (bits, c)
  | none ↦
      if not (bytes_eq c.code_hash zero_hash)
      then (let (bits, unknown) = find c.code_hash c.jumpdests in
          if unknown
          then (code_bitmap c.code >>= λ made. ok (
            made,
            record c { analysis = some made; jumpdests = insert c.code_hash made c.jumpdests },
          ))
          else ok (bits, record c { analysis = some bits }))
      else (code_bitmap c.code >>= λ made. ok (made, record c { analysis = some made }))
]

unfoldable pub is_code : ℕ → Contract → Outcome (Bool × Contract)
is_code udest c = analysed c >>= λ r. code_segment udest r.0 >>= λ b. ok (b, r.1)

module _ (w : Word) where
  open w use {uint64, is_uint64}

  unfoldable pub valid_jumpdest : ℕ → Contract → Outcome (Bool × Contract)
  valid_jumpdest dest c =
      let udest = uint64 dest in
      if not (is_uint64 dest) || leb (length c.code) udest
      then ok (false, c)
      else if not (get_or c.code udest 0 == jumpdest)
      then ok (false, c)
      else is_code udest c

-- `int64(udest) < 0` where the highest bit is set.
unfoldable pub valid_jump_subdest : ℕ → Contract → Outcome (Bool × Contract)
valid_jump_subdest udest c =
    if leb (2 ^ 63) udest || leb (length c.code) udest
    then ok (false, c)
    else if not (get_or c.code udest 0 == beginsub)
    then ok (false, c)
    else is_code udest c

unfoldable pub get_byte : ℕ → Contract → ℕ
get_byte n c = if ltb n (length c.code) then get_or c.code n 0 else 0

unfoldable pub get_op : ℕ → Contract → ℕ
get_op n c = get_byte n c

unfoldable pub use_gas : ℕ → Contract → Bool × Contract
use_gas gas c = if ltb c.gas gas then (false, c) else (true, record c { gas = c.gas - gas })

unfoldable pub set_call_code : List ℕ → List ℕ → List ℕ → Contract → Contract
set_call_code addr hash code c = record c { code = code; code_hash = hash; code_addr = some addr }
