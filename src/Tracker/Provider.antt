-- ===== src/Tracker/Provider.antt =====
-- tracker/tracker.go, Provider: the node that the tracker asks for blocks.
use web.Base.{ℕ, ◌≡◌}
use web.Tracker.Chain.{Block}

-- A call fails, or returns a block or a nil pointer.
pub data Reply : Type 0 where
  refused : Reply
  missing : Reply
  found : Block → Reply

-- GetBlockByHash: the reply to a call, by its number in the sequence of calls and by the hash.
abbrev pub Fetch : Type 0
Fetch = ℕ → ℕ → Reply

-- The node's documented behaviour: a block that is returned has the hash that was asked for, and
-- whatever else holds of the blocks that the node knows.
abbrev pub IsHonest : (Block → Type 0) → Fetch → Type 0
IsHonest Known fetch =
    (call hash : ℕ) (b : Block) → fetch call hash ≡ found b → (b.hash ≡ hash) × Known b
