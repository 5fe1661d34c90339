-- ===== src/Tracker/Sync/Populate.antt =====
-- tracker/tracker.go, populateBlocks: the backlog that a tracker starts with.
use web.Base.{
  ℕ, zero, suc, ◌+◌, ◌%◌, ◌<◌, ◌≡◌, ◌⊎◌, refl, sym, List, [], ◌∷◌, Option, none, some, ◌==◌, ==_iff,
  length, All, Outcome, ok, panic, arith, inl, inr, Bool-cases,
}
use web.Base.Bytes.{u64_mod}
use web.Tracker.Chain.{Block, last?}
use web.Tracker.Chain.Backlog.{LinkedFrom, NumberedFrom, IsBacklog}
use web.Tracker.Provider.{Reply, refused, missing, found, Fetch, IsHonest}
use web.Tracker.Sync.{returned, populate_from, populate_blocks}

abbrev pub StartsAtGenesis : List Block → Type 0
StartsAtGenesis [] = ⊥
StartsAtGenesis (b ∷ blocks) = b.number ≡ 0

-- The blocks, if there are any, end in `top`.
abbrev EndsIn : Block → List Block → Type 0
EndsIn top [] = Unit {0}
EndsIn top (b ∷ blocks) = last? (b ∷ blocks) ≡ some top

-- The node numbers a block after its parent.
abbrev pub IsConsecutive : (Block → Type 0) → Type 0
IsConsecutive Known =
    (b p : Block) → Known b → Known p → b.parent_hash ≡ p.hash → (p.number + 1) % u64_mod ≡ b.number

module _ (Known : Block → Type 0) (fetch : Fetch) (limit : ℕ) where
  -- What the latest block starts.
  abbrev pub Populated : Reply → Outcome (Option (List Block)) → Type 0
  Populated refused r = r ≡ ok none
  Populated missing r = r ≡ panic
  Populated (found top) panic = (call : ℕ) × (hash : ℕ) × (fetch call hash ≡ missing)
  Populated (found top) (ok none) = Unit {0}
  Populated (found top) (ok (some blocks)) =
      IsBacklog limit blocks
      × All Known blocks
      × (((blocks ≡ []) × (top.number ≡ 0))
          ⊎ ((last? blocks ≡ some top) × ((length blocks ≡ limit) ⊎ StartsAtGenesis blocks)))

module _ (Known : Block → Type 0) (consecutive : IsConsecutive Known) (fetch : Fetch)
    (honest : IsHonest Known fetch) (limit : ℕ) where
  abbrev Filled : Block → Outcome (Option (List Block)) → Type 0
  Filled top panic = (call : ℕ) × (hash : ℕ) × (fetch call hash ≡ missing)
  Filled top (ok none) = Unit {0}
  Filled top (ok (some blocks)) =
      IsBacklog limit blocks
      × All Known blocks
      × EndsIn top blocks
      × ((length blocks ≡ limit) ⊎ StartsAtGenesis blocks)

  -- What is read next comes before the blocks that were read.
  abbrev Precedes : Block → List Block → Option Block → Type 0
  Precedes top blocks none = (call : ℕ) × (hash : ℕ) × (fetch call hash ≡ missing)
  Precedes top blocks (some b) =
      LinkedFrom b blocks × NumberedFrom b blocks × Known b × EndsIn top (b ∷ blocks)

  populate_from-Filled :
      (top : Block) (left call : ℕ) (next : Option Block) (blocks : List Block)
      → left + length blocks ≡ limit
      → IsBacklog limit blocks
      → All Known blocks
      → EndsIn top blocks
      → Precedes top blocks next
      → Filled top (populate_from fetch left call next blocks)
  unfolding populate_from
  populate_from-Filled top zero call next blocks size inv known ends h =
      (inv, known, ends, inl (omega arith))
  populate_from-Filled top (suc left) call none blocks size inv known ends h = h
  populate_from-Filled top (suc left) call (some b) blocks size inv known ends h =
      elim (Bool-cases (b.number == 0)) [
        | inl genesis ↦ rw genesis (inv', (h.2, known), h.3, inr ((==_iff b.number 0).0 genesis))
        | inr more ↦ rw more (
            go (fetch call b.parent_hash) refl λ next.
              populate_from-Filled top left (call + 1) next (b ∷ blocks) (omega arith) inv'
                (h.2, known) h.3)
      ]
    where
      inv' : IsBacklog limit (b ∷ blocks)
      inv' = record {
        linked = (h.0, inv.linked);
        numbered = (h.1, inv.numbered);
        bounded = omega arith;
      }

      go :
          (reply : Reply)
          → fetch call b.parent_hash ≡ reply
          → ((next : Option Block)
              → Precedes top (b ∷ blocks) next
              → Filled top (populate_from fetch left (call + 1) next (b ∷ blocks)))
          → Filled top (elim (returned reply) [
            | none ↦ ok none
            | some b' ↦ populate_from fetch left (call + 1) b' (b ∷ blocks)
          ])
      go refused asked rest = tt
      go missing asked rest = rest none (call, b.parent_hash, asked)
      go (found p) asked rest =
          let (same, genuine) = honest call b.parent_hash p asked in
          rest (some p) (sym same, consecutive b p h.2 genuine (sym same), genuine, h.3)

  Populated-Filled :
      (top : Block) (r : Outcome (Option (List Block)))
      → 0 < limit
      → Filled top r
      → Populated Known fetch limit (found top) r
  Populated-Filled top panic pos h = h
  Populated-Filled top (ok none) pos h = tt
  Populated-Filled top (ok (some [])) pos h = elim h.3 [
    | inl full ↦ absurd (omega arith)
    | inr genesis ↦ absurd genesis
  ]
  Populated-Filled top (ok (some (b ∷ blocks))) pos h = (h.0, h.1, inr (h.2, h.3))

  -- Where the node returns the block that was asked for and numbers each block after its parent,
  -- and the limit is positive, populateBlocks returns linked and consecutive blocks within the
  -- limit, none if the latest block is the genesis block, and else ending in the latest block and
  -- as many as the limit or starting at number 0; it returns an error if the latest block cannot
  -- be had, and panics only on a nil block.
  pub populate_blocks_lem :
      (reply : Reply)
      → 0 < limit
      → ((top : Block) → reply ≡ found top → Known top)
      → Populated Known fetch limit reply (populate_blocks fetch limit reply)
  unfolding populate_blocks
  populate_blocks_lem refused pos known = refl
  populate_blocks_lem missing pos known = refl
  populate_blocks_lem (found top) pos known = elim (Bool-cases (top.number == 0)) [
    | inl genesis ↦ rw genesis (
      record { linked = tt; numbered = tt; bounded = omega arith },
      tt,
      inl (refl, (==_iff top.number 0).0 genesis),
    )
    | inr more ↦ rw more (
        Populated-Filled top (populate_from fetch limit 0 (some top) []) pos (
          populate_from-Filled top limit 0 (some top) [] (omega arith)
            (record { linked = tt; numbered = tt; bounded = omega arith }) tt tt
            (tt, tt, known top refl, refl)))
  ]
