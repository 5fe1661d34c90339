-- ===== src/Tracker/Sync/Ancestor.antt =====
-- tracker/tracker.go, findAncestor: the first block that two chains of one height have in common.
use web.Base.{ℕ, zero, suc, ◌+◌, ◌≤◌, ◌<◌, ◌≡◌, ◌≢◌, refl, some, false, ◌==◌, ==_iff, ok, arith}
use web.Tracker.Chain.{Block}
use web.Tracker.Provider.{found, Fetch}
use web.Tracker.Sync.{find_ancestor}

ne-test : (a b : ℕ) → a ≢ b → (a == b) ≡ false
ne-test a b h = ground arith

-- The block `k` heights below, where `at` is the block with a hash.
unfoldable pub up : (ℕ → Block) → ℕ → Block → Block
up at zero b = b
up at (suc k) b = up at k (at b.parent_hash)

-- A node that knows each block's parent.
module _ (fetch : Fetch) (at : ℕ → Block)
    (knows : (call hash : ℕ) → fetch call hash ≡ found (at hash)) where
  find_ancestor_step :
      (rounds call : ℕ) (b p : Block)
      → b.number ≡ p.number
      → b.hash ≢ p.hash
      → find_ancestor fetch (suc rounds) call (some b) (some p)
        ≡ find_ancestor fetch rounds (call + 2) (some (at b.parent_hash)) (some (at p.parent_hash))
  unfolding find_ancestor
  find_ancestor_step rounds call b p level differ =
      rw
        (
          (==_iff b.number p.number).1 level,
          ne-test b.hash p.hash differ,
          knows call b.parent_hash,
          knows (call + 1) p.parent_hash,
        )
        refl

  find_ancestor_here :
      (rounds call : ℕ) (b p : Block)
      → b.number ≡ p.number
      → b.hash ≡ p.hash
      → find_ancestor fetch (suc rounds) call (some b) (some p) ≡ ok (some b.number)
  unfolding find_ancestor
  find_ancestor_here rounds call b p level same =
      rw ((==_iff b.number p.number).1 level, (==_iff b.hash p.hash).1 same) refl

  -- Where the node knows every block, two blocks have equal numbers at each height down to one
  -- below the backlog limit, and their hashes differ above it and agree at it, findAncestor
  -- returns the number of the block there.
  pub find_ancestor_lem :
      (k rounds call : ℕ) (b p : Block)
      → k < rounds
      → ((j : ℕ) → j ≤ k → (up at j b).number ≡ (up at j p).number)
      → ((j : ℕ) → j < k → (up at j b).hash ≢ (up at j p).hash)
      → (up at k b).hash ≡ (up at k p).hash
      → find_ancestor fetch rounds call (some b) (some p) ≡ ok (some (up at k b).number)
  unfolding up
  find_ancestor_lem k zero call b p enough level differ same = absurd (omega arith)
  find_ancestor_lem zero (suc rounds) call b p enough level differ same =
      find_ancestor_here rounds call b p (level 0 (omega arith)) same
  find_ancestor_lem (suc k) (suc rounds) call b p enough level differ same =
      rw (find_ancestor_step rounds call b p (level 0 (omega arith)) (differ 0 (omega arith))) (
        find_ancestor_lem k rounds (call + 2) (at b.parent_hash) (at p.parent_hash) (omega arith)
          (λ j h. level (suc j) (omega arith)) (λ j h. differ (suc j) (omega arith)) same)
