-- ===== src/Tracker/Logs.antt =====
-- tracker/tracker.go: the logs of a filter, cut behind a block that is left and filled again.
pub mod Walk
pub mod History
use web.Base.{
  ℕ, zero, suc, ◌+◌, ◌≡◌, List, [], ◌∷◌, ◌++◌, Bool, true, false, not, ◌||◌, ◌&&◌, Option, none,
  some, ◌==◌, ltb, if◌then◌else◌, Outcome, ok, panic, ◌>>=◌,
}
use web.Tracker.Chain.{Block, last?}
use web.Tracker.Entry.{Log, Entry}

-- The tests that end the walk of removeLogs.
unfoldable pub other_hash : Option ℕ → Log → Bool
other_hash none log = false
other_hash (some hash) log = not (log.block_hash == hash)

unfoldable pub stays : ℕ → Option ℕ → Log → Bool
unfolding other_hash
stays number hash log =
    if log.block_number == number && other_hash hash log then true else ltb log.block_number number

-- revertLogs, which appends from the last index down.
unfoldable pub revert_logs : List Log → List Log
revert_logs [] = []
revert_logs (log ∷ logs) = revert_logs logs ++ log ∷ []

pub record Event : Type 0 where
  pub added : List Log
  pub removed : List Log

-- GetLogs for the logs of one block, by the number of the attempt and the block's hash.
abbrev pub GetLogs : Type 0
GetLogs = ℕ → ℕ → Option (List Log)

-- At most five attempts.
unfoldable pub attempts : ℕ
attempts = 5

unfoldable pub retry : GetLogs → ℕ → ℕ → ℕ → Option (List Log)
retry get_logs zero attempt hash = none
retry get_logs (suc left) attempt hash = elim (get_logs attempt hash) [
  | some logs ↦ some logs
  | none ↦ retry get_logs left (attempt + 1) hash
]

module _ (entry : Entry) where
  open entry use {State, last_index, store_logs, remove_logs as cut_logs, get_log}

  -- The loop of removeLogs, from the index down: where it ends, and the logs that it passed.
  unfoldable pub walk_back : State → ℕ → Option ℕ → ℕ → List Log → Outcome (Option (ℕ × List Log))
  walk_back s number hash zero removed = ok (some (0, removed))
  walk_back s number hash (suc i) removed = do
    read ← get_log s i
    (elim read [
      | none ↦ ok none
      | some log ↦ elim (stays number hash log) [
        | true ↦ ok (some (suc i, removed))
        | false ↦ walk_back s number hash i (removed ++ log ∷ [])
      ]
    ])

  -- Cuts the entry where the walk ended.
  unfoldable pub cut_at : State → Option (ℕ × List Log) → Outcome (Option (State × List Log))
  cut_at s none = ok none
  cut_at s (some (index, removed)) = do
    cut ← cut_logs s index
    ok (elim cut [ none ↦ none | some s' ↦ some (s', removed) ])

  unfoldable pub remove_logs : State → ℕ → Option ℕ → Outcome (Option (State × List Log))
  unfolding walk_back cut_at
  remove_logs s number hash = elim (last_index s) [
    | none ↦ ok none
    | some index ↦
        if index == 0
        then ok (some (s, []))
        else (do walked ← walk_back s number hash index []; cut_at s walked)
  ]

  unfoldable pub remove_blocks : State → List Block → Outcome (Option (State × List Log))
  unfolding remove_logs
  remove_blocks s [] = ok (some (s, []))
  remove_blocks s (pivot ∷ removed) = remove_logs s pivot.number (some pivot.hash)

  -- The logs of the blocks that are added are fetched and stored; none is an error.
  unfoldable pub add_logs : GetLogs → State → List Block → List Log → Option (State × List Log)
  unfolding retry attempts
  add_logs get_logs s [] found = some (s, found)
  add_logs get_logs s (b ∷ added) found = elim (retry get_logs attempts 0 b.hash) [
    | none ↦ none
    | some logs ↦ elim (store_logs s logs) [
      | none ↦ none
      | some s' ↦ add_logs get_logs s' added (found ++ logs)
    ]
  ]

  -- storeLastBlock of the last block added; there is none in an empty list.
  unfoldable pub save_last : (Block → Bool) → List Block → Outcome Bool
  save_last save added = elim (last? added) [ none ↦ panic | some b ↦ ok (save b) ]

  unfoldable pub add_blocks_logs :
      GetLogs
      → (Block → Bool)
      → List Block
      → Option (State × List Log)
      → Outcome (Option (State × Event))
  unfolding add_logs save_last revert_logs
  add_blocks_logs get_logs save added none = ok none
  add_blocks_logs get_logs save added (some (s, gone)) = elim (add_logs get_logs s added []) [
    | none ↦ ok none
    | some (s', found) ↦ do
      saved ← save_last save added
      ok (if saved then some (s', record { added = found; removed = revert_logs gone }) else none)
  ]

  unfoldable pub do_filter :
      GetLogs → (Block → Bool) → State → List Block → List Block → Outcome (Option (State × Event))
  unfolding remove_blocks add_blocks_logs
  do_filter get_logs save s added removed = do
    cut ← remove_blocks s removed
    add_blocks_logs get_logs save added cut
