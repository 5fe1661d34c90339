-- ===== src/Tracker/Chain.antt =====
-- tracker/tracker.go: the backlog of recent blocks, the oldest first, and how a block is added.
pub mod Backlog
pub mod Numbers
use web.Base.{
  ℕ, suc, ◌+◌, ◌-◌, ◌%◌, ◌≡◌, Bool, true, false, List, [], ◌∷◌, ◌++◌, Option, none, some, ◌==◌,
  if◌then◌else◌, length, drop, Outcome, ok, panic, ◌>>=◌,
}
use web.Base.Bytes.{u64_mod}

-- The fields of a web3.Block that the tracker reads. A hash is the number that its 32 bytes write.
pub record Block : Type 0 where
  pub number : ℕ
  pub hash : ℕ
  pub parent_hash : ℕ

pub record BlockEvent : Type 0 where
  pub added : List Block
  pub removed : List Block

-- The index of the first block with the hash; none is the -1 of the source.
unfoldable pub index_from : ℕ → ℕ → List Block → Option ℕ
index_from hash i [] = none
index_from hash i (b ∷ blocks) = if b.hash == hash then some i else index_from hash (suc i) blocks

unfoldable pub block_at_index : ℕ → List Block → Option ℕ
unfolding index_from
block_at_index hash blocks = index_from hash 0 blocks

abbrev pub last? : List Block → Option Block
last? [] = none
last? (b ∷ []) = some b
last? (b ∷ c ∷ blocks) = last? (c ∷ blocks)

-- `blocks[1:]` panics on an empty slice.
unfoldable pub make_room : ℕ → List Block → Outcome (List Block)
make_room limit [] = if 0 == limit then panic else ok []
make_room limit (b ∷ blocks) = if length (b ∷ blocks) == limit then ok blocks else ok (b ∷ blocks)

-- The blocks, and whether no error was returned.
unfoldable pub append_next : List Block → Block → List Block × Bool
append_next blocks b = elim (last? blocks) [
  | none ↦ (blocks ++ b ∷ [], true)
  | some top ↦
      if (top.number + 1) % u64_mod == b.number then (blocks ++ b ∷ [], true) else (blocks, false)
]

unfoldable pub add_block : ℕ → List Block → Block → Outcome (List Block × Bool)
unfolding make_room append_next
add_block limit blocks b = do kept ← make_room limit blocks; ok (append_next kept b)

unfoldable pub add_blocks : ℕ → List Block → List Block → Outcome (List Block × Bool)
add_blocks limit blocks [] = ok (blocks, true)
add_blocks limit blocks (b ∷ bs) = do
  (blocks', done) ← add_block limit blocks b
  if done then add_blocks limit blocks' bs else ok (blocks', false)
