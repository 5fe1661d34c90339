-- ===== src/Tracker/Sync.antt =====
-- tracker/tracker.go: how a tracker and its filters catch up with the chain.
pub mod Batch
mod Examples
pub mod Ancestor
pub mod Populate
use web.Base.{
  ℕ, zero, suc, ◌+◌, ◌/◌, ◌%◌, List, [], ◌∷◌, Bool, true, false, not, ◌&&◌, Option, none, some,
  ◌==◌, ltb, leb, min, if◌then◌else◌, Outcome, ok, panic, ◌>>=◌,
}
use web.Base.Bytes.{u64_mod}
use web.Tracker.Chain.{Block}
use web.Tracker.Provider.{Reply, refused, missing, found, Fetch}
use web.Tracker.Entry.{Log, Entry}

-- What a call returns if it returns no error: a block or a nil pointer.
unfoldable pub returned : Reply → Option (Option Block)
returned refused = none
returned missing = some none
returned (found b) = some (some b)

-- The height of a block that both chains have; none is an error. `call` numbers the calls of the
-- node, and a nil block is dereferenced in the next round, if there is one.
module _ (fetch : Fetch) where
  unfoldable pub find_ancestor : ℕ → ℕ → Option Block → Option Block → Outcome (Option ℕ)
  unfolding returned
  find_ancestor zero call block pivot = ok none
  find_ancestor (suc rounds) call none pivot = panic
  find_ancestor (suc rounds) call (some block) none = panic
  find_ancestor (suc rounds) call (some block) (some pivot) =
      if not (block.number == pivot.number)
      then ok none
      else (if block.hash == pivot.hash
          then ok (some block.number)
          else (elim (returned (fetch call block.parent_hash)) [
            | none ↦ ok none
            | some block' ↦ (elim (returned (fetch (call + 1) pivot.parent_hash)) [
              | none ↦ ok none
              | some pivot' ↦ find_ancestor rounds (call + 2) block' pivot'
            ])
          ]))

  -- The loop of populateBlocks, which fills the slice from its end; none is an error.
  unfoldable pub populate_from : ℕ → ℕ → Option Block → List Block → Outcome (Option (List Block))
  unfolding returned
  populate_from zero call block blocks = ok (some blocks)
  populate_from (suc left) call none blocks = panic
  populate_from (suc left) call (some b) blocks =
      if b.number == 0
      then ok (some (b ∷ blocks))
      else (elim (returned (fetch call b.parent_hash)) [
        | none ↦ ok none
        | some b' ↦ populate_from left (call + 1) b' (b ∷ blocks)
      ])

  unfoldable pub populate_blocks : ℕ → Reply → Outcome (Option (List Block))
  unfolding populate_from
  populate_blocks limit refused = ok none
  populate_blocks limit missing = panic
  populate_blocks limit (found b) =
      if b.number == 0 then ok (some []) else populate_from limit 0 (some b) []

-- What the node replies to a query of the logs between two blocks.
pub data RangeReply : Type 0 where
  too_much : RangeReply
  failed : RangeReply
  logs : List Log → RangeReply

pub data Synced (State : Type 0) : Type 0 where
  done : State → Synced State
  stopped : State → Synced State
  unfinished : Synced State

-- What syncBatch asks for: the logs between two blocks and the block at a height, by the number of
-- the turn; whether its context was cancelled; the factor of the increase, which is a tenth of the
-- batch size in floating point; and whether the last block could be stored.
pub record Source : Type 0 where
  pub get_logs : ℕ → ℕ → ℕ → RangeReply
  pub get_block : ℕ → ℕ → Reply
  pub cancelled : ℕ → Bool
  pub additive_factor : ℕ
  pub save : Block → Bool

-- storeLastBlock of the block that the node returned, which dereferences it.
unfoldable pub save_reply : (Block → Bool) → Reply → Outcome Bool
save_reply save refused = ok false
save_reply save missing = panic
save_reply save (found b) = ok (save b)

module _ (entry : Entry) (source : Source) (batch_limit : ℕ) (to : ℕ) where
  open source use {get_logs, get_block, cancelled, additive_factor, save}

  unfoldable pub increased : ℕ → ℕ
  increased batch =
      if ltb batch batch_limit then min batch_limit ((batch + additive_factor) % u64_mod) else batch

  -- The loop of syncBatch: it goes back to START on fuel.
  unfoldable pub sync_from : ℕ → ℕ → ℕ → ℕ → entry.State → Outcome (Synced entry.State)
  unfolding increased save_reply
  sync_from zero turn i batch s = ok unfinished
  sync_from (suc fuel) turn i batch s =
      let dst = min to ((i + batch) % u64_mod) in
      let next = (i + (batch + 1)) % u64_mod in
      let smaller = sync_from fuel (turn + 1) i (batch / 2) s in
      let again = λ (s' : entry.State). sync_from fuel (turn + 1) next (increased batch) s' in
      elim (get_logs turn i dst) [
        | too_much ↦ smaller
        | failed ↦ ok (stopped s)
        | logs found_logs ↦ elim (entry.store_logs s found_logs) [
          | none ↦ ok (stopped s)
          | some s' ↦ do
            saved ← save_reply save (get_block turn dst)
            (if saved && not (cancelled turn)
                then (if leb next to then again s' else ok (done s'))
                else ok (stopped s'))
        ]
      ]

  unfoldable pub sync_batch : ℕ → ℕ → entry.State → Outcome (Synced entry.State)
  unfolding sync_from
  sync_batch fuel from s = sync_from fuel 0 from batch_limit s
