-- ===== src/Results.antt =====
-- types.go: the result of running a message, and the reason that a revert gives.
-- The error is any type, of which the text is a parameter. A revert's data is a slice: behind its
-- bytes, `spare` holds those between its length and its capacity.
pub mod Reasons
mod Examples
use web.Base.{
  ℕ, ◌+◌, ◌^◌, Bool, true, false, ◌&&◌, List, [], ◌∷◌, ◌++◌, Option, none, some, ltb, leb,
  if◌then◌else◌, length, take, drop, Outcome, ok, panic, ◌>>=◌,
}
use web.Base.Bytes.{be_value}
use web.Base.Keys.{bytes_eq}

-- Error(string).
abbrev pub revert_signature : List ℕ
revert_signature = 0x08 ∷ 0xc3 ∷ 0x79 ∷ 0xa0 ∷ []

-- The length in the first 32 bytes, of which DecodeRevert has as many, if it is in bounds.
unfoldable pub read_length : List ℕ → Option ℕ
read_length bytes =
    let value = be_value (take 32 bytes) in
    if leb (2 ^ 63) value then none else (if ltb (length bytes) value then none else some value)

-- `utils.Ensure(err)` panics on an error.
unfoldable pub ensure {ℓ} : {A : Type ℓ} → Option A → Outcome A
ensure none = panic
ensure (some a) = ok a

-- `data[32 : 32+length]`, which may reach into the capacity.
unfoldable pub string_at : List ℕ → List ℕ → ℕ → Outcome (List ℕ)
string_at spare bytes len =
    if ltb (length bytes + length spare) (32 + len)
    then panic
    else ok (take len (drop 32 (bytes ++ spare)))

unfoldable pub decode_revert : List ℕ → List ℕ → Outcome (Option (List ℕ))
unfolding read_length ensure string_at
decode_revert spare ret =
    if leb 68 (length ret) && bytes_eq (take 4 ret) revert_signature
    then (do
      let bytes = drop 36 ret
      len ← ensure (read_length bytes)
      text ← string_at spare bytes len
      ok (some text))
    else ok none

module _ {ℓ} (VmFault : Type ℓ) (message : VmFault → List ℕ) where
  pub record ExecutionResult : Type ℓ where
    pub used_gas : ℕ
    pub err : Option VmFault
    pub return_data : List ℕ
    pub revert_reason : List ℕ

  unfoldable pub revert_reason : List ℕ → VmFault → List ℕ → Outcome (List ℕ)
  unfolding decode_revert
  revert_reason spare e ret = do
    reason ← decode_revert spare ret
    ok (elim reason [ some text ↦ text | none ↦ message e ])

  unfoldable pub new_execution_result :
      List ℕ → ℕ → Option VmFault → List ℕ → Outcome ExecutionResult
  unfolding revert_reason
  new_execution_result spare used_gas none ret =
      ok (record { used_gas = used_gas; err = none; return_data = ret; revert_reason = [] })
  new_execution_result spare used_gas (some e) ret = do
    reason ← revert_reason spare e ret
    ok (record { used_gas = used_gas; err = some e; return_data = ret; revert_reason = reason })
