-- ===== src/Evm/Memory.antt =====
-- evm/memory.go: the byte-addressed memory of a call.
pub mod Regions
use web.Base.{
  ℕ, ◌+◌, ◌-◌, ◌%◌, ◌≤◌, ◌≡◌, Bool, true, false, List, [], ◌++◌, if◌then◌else◌, length, take, drop,
  replicate, copy_at, ltb, leb, ◌==◌, Outcome, ok, panic,
}
use web.Base.Bytes.{u64_mod}
use web.Evm.Word.{Word}

-- `store` is the slice, `spare` the bytes that lie between its length and its capacity.
pub record Memory : Type 0 where
  pub store : List ℕ
  pub spare : List ℕ
  pub last_gas_cost : ℕ

abbrev pub new_memory : Memory
new_memory = record { store = []; spare = []; last_gas_cost = 0 }

abbrev pub len : Memory → ℕ
len m = length m.store

-- `copy(m.store[offset:offset+n], value)`, where `offset+n` is in uint64; a slice whose end is
-- before its start panics.
unfoldable pub store_at : ℕ → ℕ → List ℕ → Memory → Outcome Memory
store_at offset n value m =
    if ltb ((offset + n) % u64_mod) offset
    then panic
    else ok (record m { store = copy_at offset m.store (take n value) })

-- Set.
unfoldable pub set_memory : ℕ → ℕ → List ℕ → Memory → Outcome Memory
set_memory offset size value m =
    if ltb 0 size
    then (if ltb (len m) ((offset + size) % u64_mod) then panic else store_at offset size value m)
    else ok m

module _ (w : Word) where
  -- Set32. The word is written over 32 zeros.
  unfoldable pub set32 : ℕ → ℕ → Memory → Outcome Memory
  set32 offset val m =
      if ltb (len m) ((offset + 32) % u64_mod)
      then panic
      else if ltb ((offset + 32) % u64_mod) offset
      then panic
      else ok (record m {
        store = copy_at offset (copy_at offset m.store (replicate 32 0)) (w.bytes32 val);
      })

-- Resize. `extra` is the capacity that the runtime adds where it has to allocate.
unfoldable pub resize : ℕ → ℕ → Memory → Memory
resize extra size m =
    let grown = size - len m in
    if ltb (len m) size
    then (if leb grown (length m.spare)
        then record m { store = m.store ++ replicate grown 0; spare = drop grown m.spare }
        else record m { store = m.store ++ replicate grown 0; spare = replicate extra 0 })
    else m

-- `m.store[offset:offset+size]`, which may reach into the capacity and not past it.
unfoldable pub region : ℕ → ℕ → Memory → Outcome (List ℕ)
region offset size m =
    if ltb (len m + length m.spare) (offset + size)
    then panic
    else ok (take size (drop offset (m.store ++ m.spare)))

-- GetCopy and GetPtr, which differ in whether the bytes are shared. A nil slice is an empty one.
unfoldable pub get_copy : ℕ → ℕ → Memory → Outcome (List ℕ)
get_copy offset size m =
    if size == 0 then ok [] else if ltb offset (len m) then region offset size m else ok []
