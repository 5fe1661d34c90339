-- ===== src/Executor/Transition/Fees.antt =====
-- executor/state_transition.go, TransitionDb: what is charged, returned and paid.
use web.Base.{
  ℕ, ◌+◌, ◌*◌, ◌/◌, ◌%◌, ◌≤◌, ◌<◌, ◌≡◌, ◌⊎◌, refl, sym, List, [], ◌==◌, ltb, ltb→lt, Post,
  Post-bind, Post-imp, arith, inl, inr, Bool-cases, Option-cases,
}
use native.Mathlib.Nat.{div-lt_iff_lt-mul}
use web.Base.Bytes.{u64_mod}
use web.Storage.SortedMap.{SortedMap}
use web.Storage.Word256.{Word256}
use web.Storage.StateDb.{StateDb}
use web.Storage.StateDb.Operations.{get_nonce, set_nonce}
use web.Evm.Calls.{Ran, Evm, account}
use web.Evm.Calls.Leads.{Leads, Leads-trans, Keeps, IsContained}
use web.Evm.Calls.Contained.{calls-Keeps}
use web.Evm.Creation.{Created}
use web.Evm.Creation.Contained.{creations-Keeps, get_nonce-Leads, set_nonce-Leads}
use web.Executor.Transition.{
  Message, TxError, charge, bump_nonce, Performed, from_run, run_message, not_run,
}

quotient-lt : (have gas price : ℕ) → 0 < price → have < gas * price → have / price < gas
quotient-lt have gas price positive below = (div-lt_iff_lt-mul positive).1 below

module _ (keccak : List ℕ → List ℕ) (w : Word256) (m : SortedMap) where
  open m use {Db}

  -- What was charged for the gas that was bought: its price, or, from a balance that does not cover
  -- the limit, the number of units of gas that it pays for.
  abbrev pub IsCharged : Message → ℕ → ℕ → ℕ → Type 0
  IsCharged msg have bought paid =
      ((msg.gas * msg.gas_price ≤ have) × (bought ≡ msg.gas) × (paid ≡ msg.gas * msg.gas_price))
      ⊎ ((have < msg.gas * msg.gas_price) × (bought ≡ have / msg.gas_price) × (paid ≡ bought))

  pub charge-IsCharged :
      (msg : Message) (have : ℕ)
      → msg.gas < u64_mod
      → Post
          (λ (r : ℕ × ℕ). IsCharged msg have r.0 r.1 × (r.0 ≤ msg.gas))
          (charge keccak w m have msg.gas msg.gas_price)
  unfolding charge
  charge-IsCharged msg have small = elim (Bool-cases (ltb have (msg.gas * msg.gas_price))) [
    | inr enough ↦ rw enough (inl (ground arith, refl, refl), omega arith)
    | inl poor ↦ rw poor (elim (Bool-cases (msg.gas_price == 0)) [
      | inl free ↦ rw free tt
      | inr price ↦ rw price (
          let below : have / msg.gas_price < msg.gas =
            quotient-lt have msg.gas msg.gas_price (ground (arith, price))
              (ltb→lt have (msg.gas * msg.gas_price) poor) in
          let fits : (have / msg.gas_price) % u64_mod ≡ have / msg.gas_price =
            omega (arith, below) in
          (
            inr (ltb→lt have (msg.gas * msg.gas_price) poor, fits, sym fits),
            omega (arith, below, fits),
          ))
    ])
  ]

  module _ (evm : Evm keccak w m) (contained : IsContained keccak w m evm)
      (create_address : List ℕ → ℕ → List ℕ) where
    -- What performing a message leaves of the gas behind the intrinsic gas.
    abbrev pub Leaves : StateDb Db → ℕ → Performed keccak w m → Type 0
    Leaves s gas p = Leads keccak w m 0 s p.state × (p.gas_left ≤ gas)

    bump_nonce-Leads :
        (addr : List ℕ) (s : StateDb Db)
        → Post (Leads keccak w m 0 s) (bump_nonce keccak w m addr s)
    unfolding bump_nonce
    bump_nonce-Leads addr s =
        Post-bind (λ (r : ℕ × StateDb Db). Leads keccak w m 0 s r.1) (Leads keccak w m 0 s)
          (get_nonce keccak w m addr s) _ (get_nonce-Leads keccak w m 0 s addr (omega arith))
          λ (nonce, t) leads.
            Post-imp _ (Leads keccak w m 0 s) (set_nonce keccak w m addr ((nonce + 1) % u64_mod) t)
              (set_nonce-Leads keccak w m 0 t addr ((nonce + 1) % u64_mod) (omega arith))
              (λ u more. Leads-trans keccak w m leads more)

    pub not_run-Leaves :
        (e : TxError) (msg : Message) (gas : ℕ) (s t : StateDb Db)
        → Leads keccak w m 0 s t
        → Post (Leaves s gas) (not_run keccak w m evm create_address e msg gas t)
    unfolding not_run
    not_run-Leaves e msg gas s t leads =
        Post-bind (Leads keccak w m 0 t) (Leaves s gas) (bump_nonce keccak w m msg.from t) _
          (bump_nonce-Leads msg.from t) λ u more. (Leads-trans keccak w m leads more, omega arith)

    from_run-Leaves :
        (gas : ℕ) (s t : StateDb Db) (r : Ran Db)
        → Leads keccak w m 0 s t
        → Keeps keccak w m 0 t gas r
        → Leaves s gas (from_run keccak w m r)
    unfolding from_run
    from_run-Leaves gas s t r leads kept = (Leads-trans keccak w m leads kept.0, kept.1)

    pub run_message-Leaves :
        (msg : Message) (gas : ℕ) (s t : StateDb Db)
        → Leads keccak w m 0 s t
        → Post (Leaves s gas) (run_message keccak w m evm create_address msg gas t)
    unfolding run_message
    run_message-Leaves msg gas s t leads = elim (Option-cases msg.to) [
      | inl creation ↦ rw creation (
          Post-bind (λ (r : Created keccak w m). Keeps keccak w m 0 t gas r.1) (Leaves s gas) _ _
            (creations-Keeps keccak w m evm contained 0 create_address (λ a x h. [])
              (account msg.from) msg.input [] gas msg.value t (omega arith)).0
            (λ (addr, r) kept. from_run-Leaves gas s t r leads kept))
      | inr (to, known) ↦ rw known (
          Post-bind (Leads keccak w m 0 t) (Leaves s gas) (bump_nonce keccak w m msg.from t) _
            (bump_nonce-Leads msg.from t)
            λ u more.
              Post-bind (Keeps keccak w m 0 u gas) (Leaves s gas) _ _
                (calls-Keeps keccak w m evm contained 0 (account msg.from) to msg.input gas
                  msg.value u (omega arith)).0
                (λ r kept. from_run-Leaves gas s u r (Leads-trans keccak w m leads more) kept))
    ]
