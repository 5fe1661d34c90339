-- ===== src/Tracker/Reconcile/Ends.antt =====
-- tracker/tracker.go, handleReconcileImpl: the search for a known parent ends.
use web.Base.{
  ℕ, zero, suc, ◌+◌, ◌%◌, ◌≤◌, ◌<◌, ◌≡◌, ◌≢◌, List, [], ◌∷◌, ◌++◌, none, some, ltb, arith, inl, inr,
  Bool-cases, Option-cases, ◌==◌,
}
use mathlib.Core.List.{reverse}
use web.Base.Bytes.{u64_mod}
use web.Tracker.Chain.{Block, block_at_index, last?}
use web.Tracker.Provider.{Reply, refused, missing, found, Fetch}
use web.Tracker.Reconcile.{
  Reconciled, extended, rejected, crashed, unfinished, backfill, join, handle_reconcile_impl,
}

abbrev Ends : Reconciled → Type 0
Ends unfinished = ⊥
Ends _ = Unit {0}

module _ (fetch : Fetch) (limit : ℕ) (fits : limit + 1 < u64_mod) (blocks : List Block) where
  backfill-Ends :
      (fuel count : ℕ) (block : Block) (added : List Block)
      → limit + 1 < fuel + count
      → count ≤ limit + 1
      → Ends (backfill fetch limit blocks fuel count block added)
  unfolding backfill
  backfill-Ends zero count block added enough small = absurd (omega arith)
  backfill-Ends (suc fuel) count block added enough small = elim (Bool-cases (ltb limit count)) [
    | inl over ↦ rw over tt
    | inr more ↦ rw more (
        go (fetch count block.parent_hash) λ parent.
          let step : (count + 1) % u64_mod ≡ count + 1 = ground arith in
          rw step (
            backfill-Ends fuel (count + 1) parent (added ++ parent ∷ []) (omega arith)
              (ground arith)))
  ]
    where
      go :
          (reply : Reply)
          → ((parent : Block)
              → Ends (
                  backfill fetch limit blocks fuel
                    ((count + 1) % u64_mod)
                    parent
                    (added ++ parent ∷ [])))
          → Ends (elim reply [
            | refused ↦ rejected
            | missing ↦ crashed
            | found parent ↦ elim (block_at_index parent.parent_hash blocks) [
              | some indx ↦ extended (reverse (added ++ parent ∷ [])) (some indx)
              | none ↦
                  backfill fetch limit blocks fuel
                    ((count + 1) % u64_mod)
                    parent
                    (added ++ parent ∷ [])
            ]
          ])
      go refused next = tt
      go missing next = tt
      go (found parent) next = elim (Option-cases (block_at_index parent.parent_hash blocks)) [
        | inl gap ↦ rw gap (next parent)
        | inr (j, closed) ↦ rw closed tt
      ]

  join-Ends : (top block : Block) → Ends (join fetch limit blocks top block)
  unfolding join
  join-Ends top block = elim (Bool-cases (top.hash == block.parent_hash)) [
    | inl head ↦ rw head tt
    | inr other ↦ rw other (elim (Option-cases (block_at_index block.parent_hash blocks)) [
      | inr (j, fork) ↦ rw fork tt
      | inl gap ↦
          rw gap (backfill-Ends (limit + 2) 0 block (block ∷ []) (omega arith) (omega arith))
    ])
  ]

  handle_reconcile_impl-Ends :
      (block : Block) → Ends (handle_reconcile_impl fetch limit blocks block)
  unfolding handle_reconcile_impl
  handle_reconcile_impl-Ends block = elim (Option-cases (block_at_index block.hash blocks)) [
    | inr (i, old) ↦ rw (old, handle_reconcile_impl) tt
    | inl new ↦
        rw (new, handle_reconcile_impl)
          (elim (Option-cases (last? blocks)) [
            | inl empty ↦ rw empty tt
            | inr (top, h) ↦ rw h (join-Ends top block)
          ])
  ]

  -- Whatever the node replies, the search of handleReconcileImpl for a known parent ends within
  -- two turns more than the backlog limit, where that limit and one fit in a uint64.
  pub handle_reconcile_impl-ends :
      (block : Block) → handle_reconcile_impl fetch limit blocks block ≢ unfinished
  handle_reconcile_impl-ends block e = rw e at (handle_reconcile_impl-Ends block)
