-- ===== src/Evm/Gas/Refunds.antt =====
-- evm/gas_table.go: the refund counter under the SSTORE metering.
use web.Base.{
  ℕ, ◌+◌, ◌-◌, ◌≤◌, ◌<◌, ◌≡◌, refl, sym, ap, ◌∙◌, Bool, true, false, not, ◌&&◌, List, if◌then◌else◌,
  Outcome, ok, arith, inl, inr, ◌⊎◌, Bool-cases, ltb-false,
}
use mathlib.Core.Bool.{true≢false}
use web.Base.Keys.{bytes_eq, bytes_eq_iff}
use web.Base.Bytes.{u64_mod}
use web.Storage.SortedMap.{SortedMap}
use web.Storage.Account.{zero_hash}
use web.Storage.StateDb.{StateDb, get_state, get_committed_state, add_refund, sub_refund}
use web.Storage.Word256
use web.Evm.Gas.Sstore.{Prices, is_zero, clearing, resetting, metered, net_gas}

module _ (v : Word256.Word256) (m : SortedMap) (prices : Prices) where
  open m use {Db}

  -- What the counter still owes for a slot that was cleared: SubRefund takes it back when the slot
  -- is written again.
  unfoldable pub pending : List ℕ → List ℕ → ℕ
  pending original current =
      if not (is_zero original) && is_zero current then prices.clear_refund else 0

  -- A write returns, and the counter grows by at least the change of what is owed.
  abbrev pub Settles : List ℕ → List ℕ → List ℕ → StateDb Db → Outcome (ℕ × StateDb Db) → Type 0
  Settles original current value s call =
      (gas : ℕ) × (t : StateDb Db) × (call ≡ ok (gas, t))
      × (s.refund + pending original value ≤ t.refund + pending original current)

  pending_lem :
      (original current : List ℕ) (a b : Bool)
      → is_zero original ≡ a
      → is_zero current ≡ b
      → pending original current ≡ (if not a && b then prices.clear_refund else 0)
  unfolding pending
  pending_lem original current a b e e' = rw (e, e') refl

  -- Two different values are not both zero.
  not_both :
      (current value : List ℕ)
      → bytes_eq current value ≡ false
      → is_zero current ≡ true
      → is_zero value ≡ true
      → ⊥
  unfolding is_zero
  not_both current value differ c z =
      let same : current ≡ value =
        (bytes_eq_iff current zero_hash).0 c ∙ sym ((bytes_eq_iff value zero_hash).0 z) in
      true≢false (sym ((bytes_eq_iff current value).1 same) ∙ differ)

  add_refund_lem :
      (gas : ℕ) (s : StateDb Db)
      → s.refund + gas < u64_mod
      → (add_refund v m gas s).refund ≡ s.refund + gas
  unfolding add_refund
  add_refund_lem gas s room = omega arith

  sub_refund_lem :
      (gas : ℕ) (s : StateDb Db)
      → gas ≤ s.refund
      → (t : StateDb Db) × (sub_refund v m gas s ≡ ok t) × (t.refund + gas ≡ s.refund)
  unfolding sub_refund
  sub_refund_lem gas s h =
      (record s { refund = s.refund - gas }, rw (ltb-false s.refund gas h) refl, omega arith)

  -- What a step of the metering does to the counter.
  abbrev Moves : List ℕ → List ℕ → List ℕ → StateDb Db → Outcome (StateDb Db) → Type 0
  Moves original current value s call =
      (t : StateDb Db) × (call ≡ ok t)
      × (s.refund + pending original value ≤ t.refund + pending original current)
      × (t.refund ≤ s.refund + prices.clear_refund)

  clearing_lem :
      (original current value : List ℕ) (s : StateDb Db)
      → bytes_eq current value ≡ false
      → pending original current ≤ s.refund
      → s.refund + prices.clear_refund < u64_mod
      → Moves original current value s (clearing v m prices original current value s)
  unfolding clearing
  clearing_lem original current value s differ owed room =
      go (is_zero original) (is_zero current) (is_zero value) refl refl refl
    where
      go :
          (a b c : Bool)
          → is_zero original ≡ a
          → is_zero current ≡ b
          → is_zero value ≡ c
          → Moves original current value s (clearing v m prices original current value s)
      go true b c e₁ e₂ e₃ = (
        s,
        rw e₁ refl,
        omega (
          arith,
          pending_lem original current true b e₁ e₂,
          pending_lem original value true c e₁ e₃,
        ),
        omega arith,
      )
      go false true true e₁ e₂ e₃ = absurd (not_both current value differ e₂ e₃)
      go false true false e₁ e₂ e₃ =
          let now = pending_lem original current false true e₁ e₂ in
          let then_ = pending_lem original value false false e₁ e₃ in
          let (t, run, less) = sub_refund_lem prices.clear_refund s (omega (arith, now)) in
          (t, rw (e₁, e₂) run, omega (arith, now, then_), omega arith)
      go false false true e₁ e₂ e₃ =
          let now = pending_lem original current false false e₁ e₂ in
          let then_ = pending_lem original value false true e₁ e₃ in
          let more = add_refund_lem prices.clear_refund s room in
          (
            add_refund v m prices.clear_refund s,
            rw (e₁, e₂, e₃) refl,
            omega (arith, now, then_, more),
            omega (arith, more),
          )
      go false false false e₁ e₂ e₃ =
          let now = pending_lem original current false false e₁ e₂ in
          let then_ = pending_lem original value false false e₁ e₃ in
          (s, rw (e₁, e₂, e₃) refl, omega (arith, now, then_), omega arith)

  -- Setting a slot back only adds.
  resetting_lem :
      (original value : List ℕ) (s : StateDb Db)
      → s.refund + prices.reset_clear_refund + prices.reset_refund < u64_mod
      → s.refund ≤ (resetting v m prices original value s).refund
  unfolding resetting
  resetting_lem original value s room = elim (Bool-cases (bytes_eq original value)) [
    | inr e ↦ rw e (omega arith)
    | inl e ↦ elim (Bool-cases (is_zero original)) [
      | inl z ↦ rw (e, z) (omega (arith, add_refund_lem prices.reset_clear_refund s (omega arith)))
      | inr z ↦ rw (e, z) (omega (arith, add_refund_lem prices.reset_refund s (omega arith)))
    ]
  ]

  abbrev pub HasRoom : StateDb Db → Type 0
  HasRoom s =
      s.refund + prices.clear_refund + prices.reset_clear_refund + prices.reset_refund < u64_mod

  metered_clean :
      (original current value : List ℕ) (s : StateDb Db)
      → bytes_eq original current ≡ true
      → HasRoom s
      → Settles original current value s (metered v m prices original current value s)
  unfolding metered
  metered_clean original current value s same room = go (is_zero original) (is_zero value) refl refl
    where
      zero_too : (a : Bool) → is_zero original ≡ a → is_zero current ≡ a
      zero_too a e = ap is_zero (sym ((bytes_eq_iff original current).0 same)) ∙ e

      go :
          (a c : Bool)
          → is_zero original ≡ a
          → is_zero value ≡ c
          → Settles original current value s (metered v m prices original current value s)
      go true c e₁ e₃ = (
        prices.init,
        s,
        rw (same, e₁) refl,
        omega (
          arith,
          pending_lem original current true true e₁ (zero_too true e₁),
          pending_lem original value true c e₁ e₃,
        ),
      )
      go false true e₁ e₃ = (
        prices.clean,
        add_refund v m prices.clear_refund s,
        rw (same, e₁, e₃) refl,
        omega (
          arith,
          pending_lem original current false false e₁ (zero_too false e₁),
          pending_lem original value false true e₁ e₃,
          add_refund_lem prices.clear_refund s (omega arith),
        ),
      )
      go false false e₁ e₃ = (
        prices.clean,
        s,
        rw (same, e₁, e₃) refl,
        omega (
          arith,
          pending_lem original current false false e₁ (zero_too false e₁),
          pending_lem original value false false e₁ e₃,
        ),
      )

  metered_dirty :
      (original current value : List ℕ) (s : StateDb Db)
      → bytes_eq original current ≡ false
      → bytes_eq current value ≡ false
      → pending original current ≤ s.refund
      → HasRoom s
      → Settles original current value s (metered v m prices original current value s)
  unfolding metered
  metered_dirty original current value s dirty differ owed room =
      let (t, run, settles, bound) =
        clearing_lem original current value s differ owed (omega arith) in
      (
        prices.dirty,
        resetting v m prices original value t,
        rw (dirty, run) refl,
        omega (arith, settles, resetting_lem original value t (omega (arith, bound))),
      )

  refund-get_state :
      (address slot : List ℕ) (s : StateDb Db) → (get_state v m address slot s).1.refund ≡ s.refund
  unfolding get_state
  refund-get_state address slot s = refl

  refund-get_committed_state :
      (address slot : List ℕ) (s : StateDb Db)
      → (get_committed_state v m address slot s).1.refund ≡ s.refund
  unfolding get_committed_state
  refund-get_committed_state address slot s = refl

  -- The values of a slot at a write: now, and before the transaction.
  abbrev pub current_of : List ℕ → List ℕ → StateDb Db → List ℕ
  current_of address slot s = (get_state v m address slot s).0

  abbrev pub original_of : List ℕ → List ℕ → StateDb Db → List ℕ
  original_of address slot s =
      (get_committed_state v m address slot (get_state v m address slot s).1).0

  -- For any prices, where the refund counter covers what is still owed for a slot (the clearing
  -- refund if the slot was not zero before the transaction and is zero now) and has room for the
  -- refunds below 2^64, the net metering of an SSTORE to it returns, SubRefund does not panic,
  -- and the counter grows by at least the change of what is owed.
  pub net_gas_lem :
      (address slot value : List ℕ) (s : StateDb Db)
      → pending (original_of address slot s) (current_of address slot s) ≤ s.refund
      → HasRoom s
      → Settles
          (original_of address slot s)
          (current_of address slot s)
          value
          s
          (net_gas v m prices address slot value s)
  unfolding net_gas
  net_gas_lem address slot value s owed room =
      elim (Bool-cases (bytes_eq (current_of address slot s) value)) [
        | inl e ↦
            let same : current_of address slot s ≡ value = (bytes_eq_iff _ value).0 e in
            (
              prices.noop,
              (get_state v m address slot s).1,
              rw e refl,
              omega (
                arith,
                ap (pending (original_of address slot s)) same,
                refund-get_state address slot s,
              ),
            )
        | inr e ↦
            let (gas, t, run, settles) =
              write (Bool-cases (bytes_eq (original_of address slot s) (current_of address slot s)))
                e in
            (gas, t, rw e run, settles)
      ]
    where
      s₁ : StateDb Db
      s₁ = (get_state v m address slot s).1

      s₂ : StateDb Db
      s₂ = (get_committed_state v m address slot s₁).1

      kept : s₂.refund ≡ s.refund
      kept = refund-get_committed_state address slot s₁ ∙ refund-get_state address slot s

      o : List ℕ
      o = original_of address slot s

      c : List ℕ
      c = current_of address slot s

      write :
          (bytes_eq o c ≡ true) ⊎ (bytes_eq o c ≡ false)
          → bytes_eq c value ≡ false
          → Settles o c value s (metered v m prices o c value s₂)
      write (inl clean) differ = rw kept at (metered_clean o c value s₂ clean (rw kept room))
      write (inr dirty) differ =
          rw kept at (metered_dirty o c value s₂ dirty differ (rw kept owed) (rw kept room))
