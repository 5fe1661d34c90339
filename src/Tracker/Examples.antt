-- ===== src/Tracker/Examples.antt =====
-- tracker: a fork, a node that knows its blocks, and the theorems at it.
use web.Base.{
  ℕ, ◌≡◌, ◌≢◌, refl, List, [], ◌∷◌, Bool, true, some, ◌==◌, ==_iff, if◌then◌else◌, All, ok, arith,
  inl, inr, Bool-cases,
}
use web.Tracker.Chain.{Block, block_at_index, add_block, add_blocks}
use web.Tracker.Chain.Backlog.{IsBacklog}
use web.Tracker.Provider.{found, refused, Fetch, IsHonest}
use web.Tracker.Reconcile.{handle_block_event, handle_reconcile_impl, unfinished}
use web.Tracker.Reconcile.Keeps.{Handles, handle_block_event_lem}
use web.Tracker.Reconcile.Ends.{handle_reconcile_impl-ends}
use web.Tracker.Entry.{Log}
use web.Tracker.Inmem
use web.Tracker.Logs.{GetLogs, do_filter, stays}
use web.Tracker.Follow.{Filter, follow, handle_reconcile}
use web.Tracker.Follow.Heads.{IsSound, AllMirror, Reconciles, handle_reconcile_lem}

abbrev block : ℕ → ℕ → ℕ → Block
block number hash parent = record { number = number; hash = hash; parent_hash = parent }

-- Two branches from the block 11: the old one, and one of three blocks.
abbrev old_chain : List Block
old_chain = block 1 11 10 ∷ block 2 12 11 ∷ block 3 13 12 ∷ []

abbrev new_head : Block
new_head = block 4 24 23

abbrev node : Fetch
node call hash =
    if hash == 23
    then found (block 3 23 22)
    else (if hash == 22 then found (block 2 22 11) else refused)

abbrev node_logs : ℕ → ℕ → List Log
node_logs query hash =
    if hash == 12
    then record { block_number = 2; block_hash = 12; log_index = 0 } ∷ []
    else (if hash == 22
        then record { block_number = 2; block_hash = 22; log_index = 0 } ∷ []
        else [])

abbrev get_logs : ℕ → GetLogs
get_logs query attempt hash = some (node_logs query hash)

abbrev save : ℕ → Block → Bool
save query b = true

abbrev earlier : Log
earlier = record { block_number = 0; block_hash = 10; log_index = 0 }

abbrev filters : List (Filter Inmem.entry)
filters =
    record {
      synced = true;
      query = 0;
      logs = earlier ∷ record { block_number = 2; block_hash = 12; log_index = 0 } ∷ [];
    }
    ∷ []

old_chain-IsBacklog : IsBacklog 10 old_chain
old_chain-IsBacklog = record { linked = omega arith; numbered = omega arith; bounded = omega arith }

node-IsHonest : IsHonest (IsSound node_logs) node
node-IsHonest call hash b h = elim (Bool-cases (hash == 23)) [
  | inl first ↦ at_23 ((==_iff hash 23).0 first) (rw first at h)
  | inr other ↦ elim (Bool-cases (hash == 22)) [
    | inl second ↦ at_22 ((==_iff hash 22).0 second) (rw (other, second) at h)
    | inr none_else ↦ cc (rw (other, none_else) at h)
  ]
]
  where
    at_23 : hash ≡ 23 → found (block 3 23 22) ≡ found b → (b.hash ≡ hash) × IsSound node_logs b
    at_23 e h' = let same : block 3 23 22 ≡ b = cc in rw (e, ← same) (refl, (omega arith, λ q. tt))

    at_22 : hash ≡ 22 → found (block 2 22 11) ≡ found b → (b.hash ≡ hash) × IsSound node_logs b
    at_22 e h' =
        let same : block 2 22 11 ≡ b = cc in
        rw (e, ← same) (refl, (omega arith, λ q. ((refl, refl), tt)))

get_logs-honest :
    (query attempt hash : ℕ) (logs : List Log)
    → get_logs query attempt hash ≡ some logs
    → logs ≡ node_logs query hash
get_logs-honest query attempt hash logs h = cc

old_chain-IsSound : All (IsSound node_logs) old_chain
old_chain-IsSound =
    ((omega arith, λ q. tt), ((omega arith, λ q. ((refl, refl), tt)), ((omega arith, λ q. tt), tt)))

earlier_log-mirrors : AllMirror node_logs Inmem.entry filters old_chain
earlier_log-mirrors = (inr (earlier ∷ [], refl, (omega arith, tt)), tt)

handle_reconcile_example :
    Reconciles node_logs Inmem.entry node 10
      (handle_reconcile Inmem.entry get_logs save node 10 old_chain filters new_head)
handle_reconcile_example =
    handle_reconcile_lem node_logs Inmem.entry get_logs get_logs-honest save node node-IsHonest 10
      (omega arith) (omega arith) old_chain old_chain-IsBacklog (λ e. cc) old_chain-IsSound new_head
      (omega arith, λ q. tt) filters earlier_log-mirrors

-- The two blocks of the old branch go, and their log with them; three blocks come.
handle_reconcile-new_head :
    handle_reconcile Inmem.entry get_logs save node 10 old_chain filters new_head
    ≡ ok (
      block 1 11 10 ∷ block 2 22 11 ∷ block 3 23 22 ∷ new_head ∷ [],
      some (
        record {
          synced = true;
          query = 0;
          logs = earlier ∷ record { block_number = 2; block_hash = 22; log_index = 0 } ∷ [];
        }
            ∷ [],
        record {
          added = record { block_number = 2; block_hash = 22; log_index = 0 } ∷ [];
          removed = record { block_number = 2; block_hash = 12; log_index = 0 } ∷ [];
        }
            ∷ [],
      ),
    )
unfolding handle_reconcile handle_block_event follow do_filter block_at_index add_blocks add_block
    Inmem.last_index Inmem.store_logs Inmem.remove_logs Inmem.get_log stays
handle_reconcile-new_head = refl

handle_block_event_example :
    Handles
      (IsSound node_logs)
      node
      10
      old_chain
      new_head
      (handle_block_event node 10 old_chain new_head)
handle_block_event_example =
    handle_block_event_lem (IsSound node_logs) node node-IsHonest 10 (omega arith) (omega arith)
      old_chain old_chain-IsBacklog new_head (omega arith, λ q. tt)

handle_reconcile_impl_example : handle_reconcile_impl node 10 old_chain new_head ≢ unfinished
handle_reconcile_impl_example = handle_reconcile_impl-ends node 10 (omega arith) old_chain new_head
