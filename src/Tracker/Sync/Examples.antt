-- ===== src/Tracker/Sync/Examples.antt =====
-- tracker: catching up with a small chain.
use web.Base.{
  ℕ, zero, suc, ◌+◌, ◌-◌, ◌≤◌, ◌<◌, ◌≡◌, ◌≢◌, refl, List, [], ◌∷◌, true, false, some, ◌==◌, ltb,
  ◌&&◌, if◌then◌else◌, ok, arith,
}
use web.Tracker.Chain.{Block}
use web.Tracker.Provider.{found, refused, Fetch, IsHonest}
use web.Tracker.Entry.{Log}
use web.Tracker.Inmem
use web.Tracker.Sync.{find_ancestor, populate_blocks, too_much, logs, Source, sync_batch, done}
use web.Tracker.Sync.Ancestor.{up, find_ancestor_lem}
use web.Tracker.Sync.Populate.{IsConsecutive, Populated, populate_blocks_lem}
use web.Tracker.Sync.Batch.{logs_from, Syncs, sync_batch_lem}

abbrev block : ℕ → ℕ → ℕ → Block
block number hash parent = record { number = number; hash = hash; parent_hash = parent }

-- A chain in which a block's hash is its number and ten.
abbrev straight : Fetch
straight call hash =
    if ltb 9 hash && ltb hash 1000 then found (block (hash - 10) hash (hash - 1)) else refused

abbrev IsStraight : Block → Type 0
IsStraight b = (b.hash ≡ b.number + 10) × (b.parent_hash + 1 ≡ b.hash) × (b.number < 1000)

straight-IsHonest : IsHonest IsStraight straight
straight-IsHonest call hash b h = ground arith

IsStraight-IsConsecutive : IsConsecutive IsStraight
IsStraight-IsConsecutive b p known known' same = omega arith

populate_blocks_example :
    Populated IsStraight straight 3
      (found (block 7 17 16))
      (populate_blocks straight 3 (found (block 7 17 16)))
populate_blocks_example =
    populate_blocks_lem IsStraight IsStraight-IsConsecutive straight straight-IsHonest 3
      (found (block 7 17 16)) (omega arith) (λ top h. ground arith)

populate_blocks-genesis :
    populate_blocks straight 10 (found (block 2 12 11))
    ≡ ok (some (block 0 10 9 ∷ block 1 11 10 ∷ block 2 12 11 ∷ []))
unfolding populate_blocks
populate_blocks-genesis = refl

-- A branch with the hashes from 20 on leaves the chain behind the block 11.
abbrev forked : ℕ → Block
forked hash =
    if ltb hash 20
    then block (hash - 10) hash (hash - 1)
    else block (hash - 20) hash (if hash == 22 then 11 else hash - 1)

level :
    (j : ℕ) → j ≤ 2 → (up forked j (block 3 13 12)).number ≡ (up forked j (block 3 23 22)).number
unfolding up
level zero h = refl
level (suc zero) h = refl
level (suc (suc zero)) h = refl
level (suc (suc (suc j))) h = absurd (omega arith)

differ : (j : ℕ) → j < 2 → (up forked j (block 3 13 12)).hash ≢ (up forked j (block 3 23 22)).hash
unfolding up
differ zero h e = omega arith
differ (suc zero) h e = omega arith
differ (suc (suc j)) h e = absurd (omega arith)

common : (up forked 2 (block 3 13 12)).hash ≡ (up forked 2 (block 3 23 22)).hash
unfolding up
common = refl

find_ancestor_example :
    find_ancestor (λ c h. found (forked h)) 10 0 (some (block 3 13 12)) (some (block 3 23 22))
    ≡ ok (some (up forked 2 (block 3 13 12)).number)
find_ancestor_example =
    find_ancestor_lem (λ c h. found (forked h)) forked (λ c h. refl) 2 10 0 (block 3 13 12)
      (block 3 23 22) (omega arith) level differ common

abbrev log_of : ℕ → List Log
log_of height = record { block_number = height; block_hash = height + 10; log_index = 0 } ∷ []

-- A node that refuses to return the logs of more than two blocks.
abbrev small_replies : Source
small_replies = record {
  get_logs = λ turn a b. if ltb (a + 1) b then too_much else logs (logs_from log_of a (b + 1 - a));
  get_block = λ turn height. found (block height (height + 10) (height + 9));
  cancelled = λ turn. false;
  additive_factor = 0;
  save = λ b. true;
}

sync_batch_example :
    Syncs Inmem.entry small_replies log_of [] 1 5 (sync_batch Inmem.entry small_replies 4 5 40 1 [])
sync_batch_example =
    sync_batch_lem Inmem.entry small_replies 4 5 (omega arith) log_of
      (λ turn a b ls h. ground arith) (λ turn a h. ground arith) [] 1 (omega arith) 40 []
      (omega arith) refl

sync_batch-small_replies :
    sync_batch Inmem.entry small_replies 4 5 40 1 [] ≡ ok (done (logs_from log_of 1 5))
unfolding sync_batch Inmem.store_logs
sync_batch-small_replies = refl
