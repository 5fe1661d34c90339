-- ===== src/Executor/Transition/Settled.antt =====
-- executor/state_transition.go, TransitionDb: the gas that was bought is settled.
use web.Base.{
  ℕ, ◌+◌, ◌-◌, ◌*◌, ◌≤◌, ◌<◌, ◌≡◌, ◌⊎◌, refl, Bool, true, false, List, Option, none, some, ltb, ok,
  ◌>>=◌, Post, Post-bind, Post-bind_eq, Post-imp, arith, inl, inr, Bool-cases,
}
use web.Base.Bytes.{u64_mod}
use web.Storage.SortedMap.{SortedMap}
use web.Storage.Word256.{Word256}
use web.Storage.StateDb.{StateDb}
use web.Storage.StateDb.Operations.{get_balance, sub_balance, add_balance}
use web.Evm.Calls.{Evm}
use web.Evm.Calls.Leads.{either, Leads, Leads-refl, IsContained, can_transfer-Leads}
use web.Executor.Transition.{
  Message, Gas, gas_used, NonceError, Result, refused, executed, charge, buy_gas, check_nonce,
  affords, perform, refunded, pay, transition_bought, transition_db, intrinsic_gas,
  insufficient_funds_for_transfer, intrinsic_gas_too_low,
}
use web.Executor.Transition.Fees.{
  IsCharged, charge-IsCharged, Leaves, not_run-Leaves, run_message-Leaves,
}

least_used :
    (bought left used intrinsic : ℕ)
    → left ≤ bought - intrinsic
    → bought ≤ left + 2 * used
    → (intrinsic ≤ 2 * used) ⊎ (bought ≤ 2 * used)
least_used bought left used intrinsic behind half = elim (Bool-cases (ltb bought intrinsic)) [
  | inl low ↦ inr (ground (arith, low))
  | inr high ↦ inl (ground (arith, high))
]

module _ (keccak : List ℕ → List ℕ) (w : Word256) (m : SortedMap) where
  open m use {Db}

  -- How the gas of a message was bought from the state `start`, and how the price of what was used
  -- and of what was left reached the receiver and the sender.
  pub record Settled (msg : Message) (receiver : List ℕ) (intrinsic : ℕ) (start : StateDb Db)
      (used : ℕ) (final : StateDb Db) : Type 0 where
    pub have : ℕ
    pub bought : ℕ
    pub paid : ℕ
    pub left : ℕ
    pub read : StateDb Db
    pub charged : StateDb Db
    pub performed : StateDb Db
    pub returned : StateDb Db
    pub balance : get_balance keccak w m msg.from start ≡ ok (have, read)
    pub price : IsCharged keccak w m msg have bought paid
    pub taken : sub_balance keccak w m msg.from paid read ≡ ok charged
    pub runs : Leads keccak w m 0 charged performed
    pub back : add_balance keccak w m msg.from (left * msg.gas_price) performed ≡ ok returned
    pub fee : add_balance keccak w m receiver (used * msg.gas_price) returned ≡ ok final
    pub whole : left + used ≡ bought
    pub least : (intrinsic ≤ 2 * used) ⊎ (bought ≤ 2 * used)

  -- A message is refused for its nonce, or its gas is settled.
  abbrev pub IsSettled : Bool → Bool → Message → List ℕ → StateDb Db → Result × StateDb Db → Type 0
  IsSettled homestead istanbul msg receiver s (refused e, t) =
      check_nonce keccak w m msg s ≡ ok (some e, t)
  IsSettled homestead istanbul msg receiver s (executed used e output, t) =
      (start : StateDb Db) × (intrinsic : ℕ) × (check_nonce keccak w m msg s ≡ ok (none, start))
      × (intrinsic_gas msg.input (elim msg.to [ none ↦ true | some to ↦ false ]) homestead istanbul
          ≡ ok intrinsic)
      × Settled msg receiver intrinsic start used t

  -- What buyGas leaves: the gas, and the state in which it is paid.
  Bought : Message → StateDb Db → Gas × StateDb Db → Type 0
  Bought msg start (g, charged) =
      (have : ℕ) × (paid : ℕ) × (read : StateDb Db) × (get_balance keccak w m msg.from start
        ≡ ok (have, read))
      × IsCharged keccak w m msg have g.initial paid
      × (sub_balance keccak w m msg.from paid read ≡ ok charged)
      × (g.left ≡ g.initial)
      × (g.initial < u64_mod)

  buy_gas-Bought :
      (msg : Message) (start : StateDb Db)
      → msg.gas < u64_mod
      → Post (Bought msg start) (buy_gas keccak w m msg start)
  unfolding buy_gas Bought
  buy_gas-Bought msg start small =
      Post-bind_eq (Bought msg start) (get_balance keccak w m msg.from start) _
        λ (have, read) balance.
          Post-bind (λ (r : ℕ × ℕ). IsCharged keccak w m msg have r.0 r.1 × (r.0 ≤ msg.gas))
            (Bought msg start) (charge keccak w m have msg.gas msg.gas_price) _
            (charge-IsCharged keccak w m msg have small)
            λ (gas, paid) (price, le).
              Post-bind_eq (Bought msg start) (sub_balance keccak w m msg.from paid read) _
                λ charged taken.
                  (have, paid, read, balance, price, taken, refl, omega (arith, le, small))

  module _ (evm : Evm keccak w m) (contained : IsContained keccak w m evm)
      (create_address : List ℕ → ℕ → List ℕ) where
    affords-Leads :
        (msg : Message) (s : StateDb Db)
        → Post (λ (r : Bool × StateDb Db). Leads keccak w m 0 s r.1) (affords keccak w m msg s)
    unfolding affords
    affords-Leads msg s =
        either (ltb 0 msg.value) (λ (r : Bool × StateDb Db). Leads keccak w m 0 s r.1) _ _
          (can_transfer-Leads keccak w m 0 s (omega arith) msg.from msg.value)
          (Leads-refl keccak w m 0 s (omega arith))

    perform-Leaves :
        (intrinsic : ℕ) (msg : Message) (gas : ℕ) (s : StateDb Db)
        → Post
            (Leaves keccak w m evm contained create_address s (gas - intrinsic))
            (perform keccak w m evm create_address intrinsic msg gas s)
    unfolding perform
    perform-Leaves intrinsic msg gas s = elim (Bool-cases (ltb gas intrinsic)) [
      | inl low ↦ rw low (
          Post-imp _ (Leaves keccak w m evm contained create_address s (gas - intrinsic)) _
            (not_run-Leaves keccak w m evm contained create_address intrinsic_gas_too_low msg 0 s s
              (Leads-refl keccak w m 0 s (omega arith)))
            (λ p kept. (kept.0, omega (arith, kept.1))))
      | inr enough ↦ rw enough (
          Post-bind (λ (r : Bool × StateDb Db). Leads keccak w m 0 s r.1)
            (Leaves keccak w m evm contained create_address s (gas - intrinsic)) _ _
            (affords-Leads msg s)
            (λ (funded, t) leads.
              either funded (Leaves keccak w m evm contained create_address s (gas - intrinsic)) _ _
                (run_message-Leaves keccak w m evm contained create_address msg (gas - intrinsic) s
                  t leads)
                (not_run-Leaves keccak w m evm contained create_address
                  insufficient_funds_for_transfer msg (gas - intrinsic) s t leads)))
    ]

    refunded_lem :
        (g : Gas) (s : StateDb Db)
        → g.left ≤ g.initial
        → g.initial < u64_mod
        → let g' = refunded keccak w m evm create_address g s in
          (g'.left + gas_used g' ≡ g.initial) × (g.initial ≤ g.left + 2 * gas_used g')
    unfolding refunded gas_used
    refunded_lem g s le small = (ground arith, ground arith)

    transition_bought-IsSettled :
        (homestead istanbul : Bool) (msg : Message) (receiver : List ℕ) (s start : StateDb Db)
        (b : Gas × StateDb Db)
        → check_nonce keccak w m msg s ≡ ok (none, start)
        → Bought msg start b
        → Post
            (IsSettled homestead istanbul msg receiver s)
            (transition_bought keccak w m evm create_address homestead istanbul msg receiver b)
    unfolding transition_bought pay Bought
    transition_bought-IsSettled homestead istanbul msg receiver s start (g, charged) asked
          (have, paid, read, balance, price, taken, full, small) =
        let Q = IsSettled homestead istanbul msg receiver s in
        Post-bind_eq Q
          (intrinsic_gas msg.input (elim msg.to [ none ↦ true | some to ↦ false ]) homestead
            istanbul)
          _
          λ intrinsic cost.
            Post-bind (Leaves keccak w m evm contained create_address charged (g.left - intrinsic))
              Q (perform keccak w m evm create_address intrinsic msg g.left charged) _
              (perform-Leaves intrinsic msg g.left charged)
              λ p kept.
                let g1 : Gas = record g { left = p.gas_left } in
                let g' = refunded keccak w m evm create_address g1 p.state in
                let sums = refunded_lem g1 p.state (omega (arith, kept.1, full)) small in
                Post-bind_eq Q (add_balance keccak w m msg.from (g'.left * msg.gas_price) p.state) _
                  λ returned back.
                    Post-bind_eq Q
                      (add_balance keccak w m receiver (gas_used g' * msg.gas_price) returned) _
                      λ final fee. (
                        start,
                        intrinsic,
                        asked,
                        cost,
                        record {
                          have = have;
                          bought = g.initial;
                          paid = paid;
                          left = g'.left;
                          read = read;
                          charged = charged;
                          performed = p.state;
                          returned = returned;
                          balance = balance;
                          price = price;
                          taken = taken;
                          runs = kept.0;
                          back = back;
                          fee = fee;
                          whole = sums.0;
                          least =
                              least_used g.initial p.gas_left (gas_used g') intrinsic
                                (rw full at kept.1) sums.1;
                        },
                      )

    -- For a message with a 64-bit gas limit, where the interpreter's runs change the state by
    -- operations that do not revert below the snapshots they found, and leave no more gas than
    -- they got, a TransitionDb that returns has refused the message for its nonce, or it took
    -- from the sender the price of its whole gas limit or, if the balance is lower, bought the
    -- gas that the balance pays for and took only the number of its units; the gas bought is the
    -- sum of what is used and what is left, whose price the sender gets back, and then the
    -- receiver the price of what is used, at the end, and at least half of the intrinsic gas, or
    -- of the gas bought, is used.
    pub transition_db-IsSettled :
        (homestead istanbul : Bool) (msg : Message) (receiver : List ℕ) (s : StateDb Db)
        → msg.gas < u64_mod
        → Post
            (IsSettled homestead istanbul msg receiver s)
            (transition_db keccak w m evm create_address homestead istanbul msg receiver s)
    unfolding transition_db
    transition_db-IsSettled homestead istanbul msg receiver s small =
        Post-bind_eq (IsSettled homestead istanbul msg receiver s) (check_nonce keccak w m msg s) _
          λ (wrong, start) asked. checked wrong start asked
      where
        checked :
            (wrong : Option NonceError) (start : StateDb Db)
            → check_nonce keccak w m msg s ≡ ok (wrong, start)
            → Post (IsSettled homestead istanbul msg receiver s) (elim wrong [
              | some e ↦ ok (refused e, start)
              | none ↦ buy_gas keccak w m msg start >>= λ bought.
                  transition_bought keccak w m evm create_address homestead istanbul msg receiver
                    bought
            ])
        checked (some e) start asked = asked
        checked none start asked =
            Post-bind (Bought msg start) (IsSettled homestead istanbul msg receiver s)
              (buy_gas keccak w m msg start) _ (buy_gas-Bought msg start small)
              (λ b paid.
                transition_bought-IsSettled homestead istanbul msg receiver s start b asked paid)
