-- ===== src/Tracker/Reconcile.antt =====
-- tracker/tracker.go, handleReconcileImpl and handleBlockEvent: a new head joins the backlog.
pub mod Links
pub mod Keeps
pub mod Ends
use web.Base.{
  ℕ, zero, suc, ◌+◌, ◌%◌, List, [], ◌∷◌, ◌++◌, Bool, true, false, Option, none, some, ◌==◌, ltb,
  if◌then◌else◌, length, take, drop, Outcome, ok, panic, ◌>>=◌,
}
use web.Base.Bytes.{u64_mod}
use web.Tracker.Chain.{Block, BlockEvent, block_at_index, last?, add_blocks}
use web.Tracker.Provider.{Reply, refused, missing, found, Fetch}
use mathlib.Core.List.{reverse}

-- What handleReconcileImpl returns: nothing for a known block; the blocks to add behind an index,
-- none for -1; an error; a panic on a nil block; or no result, as the fuel ran out.
pub data Reconciled : Type 0 where
  known : Reconciled
  extended : List Block → Option ℕ → Reconciled
  rejected : Reconciled
  crashed : Reconciled
  unfinished : Reconciled

module _ (fetch : Fetch) (limit : ℕ) (blocks : List Block) where
  unfoldable pub backfill : ℕ → ℕ → Block → List Block → Reconciled
  backfill zero count block added = unfinished
  backfill (suc fuel) count block added =
      if ltb limit count then rejected else elim (fetch count block.parent_hash) [
        | refused ↦ rejected
        | missing ↦ crashed
        | found parent ↦ elim (block_at_index parent.parent_hash blocks) [
          | some indx ↦ extended (reverse (added ++ parent ∷ [])) (some indx)
          | none ↦ backfill fuel ((count + 1) % u64_mod) parent (added ++ parent ∷ [])
        ]
      ]

  -- The tests behind those for a known block and for an empty backlog.
  unfoldable pub join : Block → Block → Reconciled
  unfolding backfill
  join top block =
      if top.hash == block.parent_hash
      then extended (block ∷ []) none
      else (elim (block_at_index block.parent_hash blocks) [
        | some indx ↦ extended (block ∷ []) (some indx)
        | none ↦ backfill (limit + 2) 0 block (block ∷ [])
      ])

  unfoldable pub handle_reconcile_impl : Block → Reconciled
  unfolding join
  handle_reconcile_impl block = elim (block_at_index block.hash blocks) [
    | some indx ↦ known
    | none ↦ elim (last? blocks) [ none ↦ extended (block ∷ []) none | some top ↦ join top block ]
  ]

-- What handleBlockEvent returns beside the blocks that it leaves.
pub data Handled : Type 0 where
  unchanged : Handled
  emitted : BlockEvent → Handled
  failed : Handled
  running : Handled

-- The blocks that stay, and those that are removed.
unfoldable pub cut_behind : Option ℕ → List Block → List Block × List Block
cut_behind none blocks = (blocks, [])
cut_behind (some indx) blocks = (take (indx + 1) blocks, drop (indx + 1) blocks)

unfoldable pub apply_reconciled : ℕ → List Block → Reconciled → Outcome (List Block × Handled)
unfolding cut_behind
apply_reconciled limit blocks known = ok (blocks, unchanged)
apply_reconciled limit blocks rejected = ok (blocks, failed)
apply_reconciled limit blocks crashed = panic
apply_reconciled limit blocks unfinished = ok (blocks, running)
apply_reconciled limit blocks (extended [] indx) = ok (blocks, unchanged)
apply_reconciled limit blocks (extended (b ∷ bs) indx) = do
  let (kept, removed) = cut_behind indx blocks
  (blocks', done) ← add_blocks limit kept (b ∷ bs)
  ok (blocks', if done then emitted (record { added = b ∷ bs; removed = removed }) else failed)

unfoldable pub handle_block_event : Fetch → ℕ → List Block → Block → Outcome (List Block × Handled)
unfolding handle_reconcile_impl apply_reconciled
handle_block_event fetch limit blocks block =
    apply_reconciled limit blocks (handle_reconcile_impl fetch limit blocks block)
