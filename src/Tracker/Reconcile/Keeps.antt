-- ===== src/Tracker/Reconcile/Keeps.antt =====
-- tracker/tracker.go, handleBlockEvent: what the backlog is after a new head.
use web.Base.{
  ℕ, zero, suc, ◌+◌, ◌≤◌, ◌<◌, ◌≡◌, ◌≢◌, ◌⊎◌, inl, inr, refl, sym, Bool, true, false, List, [], ◌∷◌,
  ◌++◌, Option, none, some, if◌then◌else◌, take, Outcome, ok, panic, ◌>>=◌, arith, append-nil, All,
  take-append-drop, length-take,
}
use web.Base.Bytes.{u64_mod}
use native.Mathlib.Decide.{dec_lt}
use web.Tracker.Chain.{Block, BlockEvent, block_at_index, last?, add_blocks}
use web.Tracker.Chain.Backlog.{
  IsNumbered, IsBacklog, IsLinked-take, IsNumbered-take, newest, Added, add_blocks_lem,
}
use web.Tracker.Chain.Numbers.{NumberedIf, add_blocks-NumberedIf}
use web.Tracker.Provider.{missing, Fetch, IsHonest}
use web.Tracker.Reconcile.{
  Reconciled, known, extended, rejected, crashed, unfinished, handle_reconcile_impl, cut_behind,
  Handled, unchanged, emitted, failed, running, apply_reconciled, handle_block_event,
}
use web.Tracker.Reconcile.Links.{Joins, handle_reconcile_impl-Joins}

some_or_none : (blocks : List Block) → (blocks ≢ []) ⊎ (blocks ≡ [])
some_or_none [] = inr refl
some_or_none (b ∷ blocks) = inl (λ e. cc)

take-ne-nil : (n : ℕ) (blocks : List Block) → 0 < n → (take n blocks ≢ []) ⊎ (blocks ≡ [])
take-ne-nil zero blocks h = absurd (omega arith)
take-ne-nil (suc n) [] h = inr refl
take-ne-nil (suc n) (b ∷ blocks) h = inl (λ e. cc)

module _ (Known : Block → Type 0) (fetch : Fetch) (limit : ℕ) (blocks : List Block)
    (block : Block) where
  -- A new head splits the old blocks in those kept, some if there are any, and those removed. It
  -- ends the blocks added, which are numbered on from those kept if there is room for two blocks.
  abbrev pub Moves : List Block → BlockEvent → Type 0
  Moves blocks' event =
      (kept : List Block) × (blocks ≡ kept ++ event.removed)
      × (blocks' ≡ newest limit (kept ++ event.added))
      × (last? event.added ≡ some block)
      × ((kept ≢ []) ⊎ (blocks ≡ []))
      × ((limit ≤ 1) ⊎ IsNumbered (kept ++ event.added))
      × All Known event.added

  abbrev pub Handles : Outcome (List Block × Handled) → Type 0
  Handles panic = (call : ℕ) × (hash : ℕ) × (fetch call hash ≡ missing)
  Handles (ok (blocks', unchanged)) =
      (blocks' ≡ blocks) × ((i : ℕ) × (block_at_index block.hash blocks ≡ some i))
  Handles (ok (blocks', failed)) = IsBacklog limit blocks'
  Handles (ok (blocks', running)) = ⊥
  Handles (ok (blocks', emitted event)) = IsBacklog limit blocks' × Moves blocks' event

module _ (Known : Block → Type 0) (fetch : Fetch) (honest : IsHonest Known fetch) (limit : ℕ)
    (pos : 0 < limit) (fits : limit + 1 < u64_mod) (blocks : List Block)
    (inv : IsBacklog limit blocks) (block : Block) (genuine : Known block) where
  cut_behind_lem :
      (indx : Option ℕ)
      → let (kept, removed) = cut_behind indx blocks in
        (blocks ≡ kept ++ removed) × IsBacklog limit kept × ((kept ≢ []) ⊎ (blocks ≡ []))
  unfolding cut_behind
  cut_behind_lem none = (sym (append-nil blocks), inv, some_or_none blocks)
  cut_behind_lem (some j) = (
    sym (take-append-drop (j + 1) blocks),
    record {
      linked = IsLinked-take (j + 1) blocks inv.linked;
      numbered = IsNumbered-take (j + 1) blocks inv.numbered;
      bounded = omega (arith, length-take (j + 1) blocks, inv.bounded);
    },
    take-ne-nil (j + 1) blocks (omega arith),
  )

  apply_reconciled-Handles :
      (r : Reconciled)
      → Joins Known fetch honest limit fits blocks inv.linked block r
      → Handles Known fetch limit blocks block (apply_reconciled limit blocks r)
  unfolding apply_reconciled
  apply_reconciled-Handles known h = (refl, h)
  apply_reconciled-Handles rejected h = inv
  apply_reconciled-Handles crashed h = h
  apply_reconciled-Handles unfinished h = h
  apply_reconciled-Handles (extended [] indx) h = cc (h.1)
  apply_reconciled-Handles (extended (b ∷ bs) indx) h =
      let (kept, removed) = cut_behind indx blocks in
      let (split, inv', some_kept) = cut_behind_lem indx in
      go (add_blocks limit kept (b ∷ bs)) (add_blocks_lem limit pos kept (b ∷ bs) inv' h.0)
        (elim (dec_lt 1 limit) [
          | yes roomy ↦ inr (roomy, add_blocks-NumberedIf limit roomy kept (b ∷ bs) inv' h.0)
          | no tight ↦ inl (omega arith)
        ])
    where
      go :
          (r : Outcome (List Block × Bool))
          → Added limit pos ((cut_behind indx blocks).0 ++ b ∷ bs) r
          → (limit ≤ 1)
            ⊎ ((roomy : 1 < limit) × NumberedIf limit roomy
                  ((cut_behind indx blocks).0 ++ b ∷ bs)
                  r)
          → Handles Known fetch limit blocks block (
              r >>= λ (blocks', done). ok (
                blocks',
                if done
                    then emitted (record { added = b ∷ bs; removed = (cut_behind indx blocks).1 })
                    else failed,
              ))
      go panic a n = absurd a
      go (ok (blocks', false)) a n = a.0
      go (ok (blocks', true)) a n = (
        a.0,
        (
          (cut_behind indx blocks).0,
          (cut_behind_lem indx).0,
          a.1 refl,
          h.1,
          (cut_behind_lem indx).2,
          numbered n,
          h.2,
        ),
      )
        where
          numbered :
              (limit ≤ 1)
                ⊎ ((roomy : 1 < limit) × NumberedIf limit roomy
                      ((cut_behind indx blocks).0 ++ b ∷ bs)
                      (ok (blocks', true)))
              → (limit ≤ 1) ⊎ IsNumbered ((cut_behind indx blocks).0 ++ b ∷ bs)
          numbered (inl tight) = inl tight
          numbered (inr (roomy, h')) = inr (h' refl)

  -- Where the node returns the block that was asked for, the limit is positive and it and one are
  -- below 2^64, the new head is known to the node, and the backlog is linked and consecutive
  -- blocks within the limit, handleBlockEvent changes nothing for a block that is in the backlog;
  -- else it returns an error and leaves such a backlog, or it splits the old blocks in those kept
  -- and those removed and leaves the newest of those kept and those added, linked, consecutive
  -- and within the limit, where the blocks added end in the new head and are known to the node,
  -- some block is kept unless there was none, and for a limit of two or more the numbers go on
  -- from those kept; it panics only on a nil block and never runs out of fuel.
  pub handle_block_event_lem :
      Handles Known fetch limit blocks block (handle_block_event fetch limit blocks block)
  unfolding handle_block_event
  handle_block_event_lem =
      apply_reconciled-Handles (handle_reconcile_impl fetch limit blocks block)
        (handle_reconcile_impl-Joins Known fetch honest limit fits blocks inv.linked block genuine)
