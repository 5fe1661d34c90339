-- ===== src/Tracker/Follow/Heads.antt =====
-- tracker/tracker.go, handleReconcile: every synced filter mirrors the chain after each new head.
use web.Base.{
  ℕ, ◌+◌, ◌≤◌, ◌<◌, ◌≡◌, ◌≢◌, ◌⊎◌, refl, Bool, false, List, [], ◌∷◌, ◌++◌, Option, none, some, All,
  Outcome, ok, panic, ◌>>=◌, arith, inl, inr, Bool-cases, All-append, All-append_parts,
}
use web.Base.Bytes.{u64_mod}
use web.Tracker.Chain.{Block, BlockEvent}
use web.Tracker.Chain.Backlog.{IsBacklog, IsNumbered, newest}
use web.Tracker.Chain.Numbers.{IsCounted, HasNext, IsCounted-of}
use web.Tracker.Provider.{Fetch, IsHonest, missing}
use web.Tracker.Reconcile.{Handled, unchanged, emitted, failed, running, handle_block_event}
use web.Tracker.Reconcile.Keeps.{Moves, Handles, handle_block_event_lem}
use web.Tracker.Entry.{Log, Entry}
use web.Tracker.Logs.{Event, GetLogs, do_filter}
use web.Tracker.Logs.History
use web.Tracker.Logs.History.{HasItsLogs}
use web.Tracker.Follow.{Filter, follow_one, then_others, follow, follow_handled, handle_reconcile}
use web.Tracker.Follow.Mirror.{Mirrors, Mirrored, do_filter-Mirrored, Mirrors-newest}

-- A node's block: its number is not the last uint64, and its logs, for each query, are its own.
abbrev pub IsSound : (ℕ → ℕ → List Log) → Block → Type 0
IsSound logs_of b = HasNext b × ((query : ℕ) → HasItsLogs (logs_of query) b)

module _ (logs_of : ℕ → ℕ → List Log) where
  All-HasNext : (blocks : List Block) → All (IsSound logs_of) blocks → All HasNext blocks
  All-HasNext [] h = tt
  All-HasNext (b ∷ blocks) h = (h.0.0, All-HasNext blocks h.1)

  All-HasItsLogs :
      (query : ℕ) (blocks : List Block)
      → All (IsSound logs_of) blocks
      → All (HasItsLogs (logs_of query)) blocks
  All-HasItsLogs query [] h = tt
  All-HasItsLogs query (b ∷ blocks) h = (h.0.1 query, All-HasItsLogs query blocks h.1)

  module _ (entry : Entry) where
    -- The filter is not synced, or it mirrors the blocks.
    abbrev pub FilterMirrors : List Block → Filter entry → Type 0
    FilterMirrors blocks f = (f.synced ≡ false) ⊎ Mirrors (logs_of f.query) entry f.logs blocks

    abbrev pub AllMirror : List (Filter entry) → List Block → Type 0
    AllMirror filters blocks = All (FilterMirrors blocks) filters

    abbrev pub FollowsTo : List Block → Outcome (Option (List (Filter entry) × List Event)) → Type 0
    FollowsTo blocks panic = ⊥
    FollowsTo blocks (ok none) = Unit {0}
    FollowsTo blocks (ok (some (filters, events))) = AllMirror filters blocks

    module _ (fetch : Fetch) (limit : ℕ) where
      -- A panic comes of a nil block. Else a backlog is left, and if no error is returned, every
      -- synced filter mirrors it.
      abbrev pub Reconciles :
          Outcome (List Block × Option (List (Filter entry) × List Event)) → Type 0
      Reconciles panic = (call : ℕ) × (hash : ℕ) × (fetch call hash ≡ missing)
      Reconciles (ok (blocks', none)) = IsBacklog limit blocks'
      Reconciles (ok (blocks', some (filters, events))) =
          IsBacklog limit blocks' × AllMirror filters blocks'

    module _ (get_logs : ℕ → GetLogs)
        (honest_logs : (query : ℕ) → History.IsHonest (logs_of query) (get_logs query))
        (save : ℕ → Block → Bool) (kept : List Block) (event : BlockEvent) (some_kept : kept ≢ [])
        (some_added : event.added ≢ []) (counted : IsCounted (kept ++ event.removed))
        (sound : All (IsSound logs_of) (kept ++ event.removed)) where
      abbrev TurnsTo : Outcome (Option (Filter entry × List Event)) → Type 0
      TurnsTo panic = ⊥
      TurnsTo (ok none) = Unit {0}
      TurnsTo (ok (some (f, events))) = FilterMirrors (kept ++ event.added) f

      then_others-FollowsTo :
          (turn : Outcome (Option (Filter entry × List Event)))
          (rest : Outcome (Option (List (Filter entry) × List Event)))
          → TurnsTo turn
          → FollowsTo (kept ++ event.added) rest
          → FollowsTo (kept ++ event.added) (turn >>= then_others entry get_logs save rest)
      unfolding then_others
      then_others-FollowsTo panic rest h r = h
      then_others-FollowsTo (ok none) rest h r = tt
      then_others-FollowsTo (ok (some (f, events))) panic h r = r
      then_others-FollowsTo (ok (some (f, events))) (ok none) h r = tt
      then_others-FollowsTo (ok (some (f, events))) (ok (some (filters, events'))) h r = (h, r)

      follow_one-TurnsTo :
          (f : Filter entry)
          → FilterMirrors (kept ++ event.removed) f
          → TurnsTo (follow_one entry get_logs save event f)
      unfolding follow_one
      follow_one-TurnsTo f (inl not_yet) = rw not_yet (inl refl)
      follow_one-TurnsTo f (inr mirrors) = elim (Bool-cases f.synced) [
        | inr not_yet ↦ rw not_yet (inl refl)
        | inl synced ↦ rw synced (
            go (do_filter entry (get_logs f.query) (save f.query) f.logs event.added event.removed)
              (do_filter-Mirrored (logs_of f.query) (get_logs f.query) (honest_logs f.query) entry
                (save f.query) f.logs kept event some_kept some_added counted
                (All-HasItsLogs f.query (kept ++ event.removed) sound) mirrors))
      ]
        where
          go :
              (r : Outcome (Option (entry.State × Event)))
              → Mirrored (logs_of f.query) entry (kept ++ event.added) r
              → TurnsTo (
                  r >>= λ filtered. ok (elim filtered [
                    | none ↦ none
                    | some (s, emission) ↦ some (record f { logs = s }, emission ∷ [])
                  ]))
          go panic m = m
          go (ok none) m = tt
          go (ok (some (s, emission))) m = inr m

      follow-FollowsTo :
          (filters : List (Filter entry))
          → AllMirror filters (kept ++ event.removed)
          → FollowsTo (kept ++ event.added) (follow entry get_logs save event filters)
      unfolding follow
      follow-FollowsTo [] h = tt
      follow-FollowsTo (f ∷ filters) h =
          then_others-FollowsTo (follow_one entry get_logs save event f)
            (follow entry get_logs save event filters) (follow_one-TurnsTo f h.0)
            (follow-FollowsTo filters h.1)

    module _ (get_logs : ℕ → GetLogs)
        (honest_logs : (query : ℕ) → History.IsHonest (logs_of query) (get_logs query))
        (save : ℕ → Block → Bool) (fetch : Fetch) (honest : IsHonest (IsSound logs_of) fetch)
        (limit : ℕ) (roomy : 1 < limit) (fits : limit + 1 < u64_mod) (blocks : List Block)
        (inv : IsBacklog limit blocks) (some_blocks : blocks ≢ [])
        (sound : All (IsSound logs_of) blocks) (block : Block)
        (genuine : IsSound logs_of block) where
      pos : 0 < limit
      pos = omega arith

      FilterMirrors-newest :
          (f : Filter entry) (whole : List Block)
          → IsCounted whole
          → All (IsSound logs_of) whole
          → FilterMirrors whole f
          → FilterMirrors (newest limit whole) f
      FilterMirrors-newest f whole counted logs (inl not_yet) = inl not_yet
      FilterMirrors-newest f whole counted logs (inr mirrors) = inr (
          Mirrors-newest (logs_of f.query) entry f.logs limit whole counted
            (All-HasItsLogs f.query whole logs) mirrors)

      AllMirror-newest :
          (filters : List (Filter entry)) (whole : List Block)
          → IsCounted whole
          → All (IsSound logs_of) whole
          → AllMirror filters whole
          → AllMirror filters (newest limit whole)
      AllMirror-newest [] whole counted logs h = tt
      AllMirror-newest (f ∷ filters) whole counted logs h = (
        FilterMirrors-newest f whole counted logs h.0,
        AllMirror-newest filters whole counted logs h.1,
      )

      finish :
          (blocks' : List Block) (whole : List Block)
          → blocks' ≡ newest limit whole
          → IsBacklog limit blocks'
          → IsCounted whole
          → All (IsSound logs_of) whole
          → (r : Outcome (Option (List (Filter entry) × List Event))) → FollowsTo whole r
          → Reconciles fetch limit (r >>= λ followed. ok (blocks', followed))
      finish blocks' whole e inv' counted logs panic h = absurd h
      finish blocks' whole e inv' counted logs (ok none) h = inv'
      finish blocks' whole e inv' counted logs (ok (some (filters, events))) h =
          (inv', rw e (AllMirror-newest filters whole counted logs h))

      -- The blocks removed and added may be any that link up with those that are kept.
      follow-Reconciles :
          (filters : List (Filter entry)) (blocks' : List Block) (event : BlockEvent)
          → AllMirror filters blocks
          → IsBacklog limit blocks'
          → Moves (IsSound logs_of) fetch limit blocks block blocks' event
          → Reconciles fetch limit
              (follow entry get_logs save event filters >>= λ followed. ok (blocks', followed))
      follow-Reconciles filters blocks' event h inv'
            (kept, split, moved, last_added, some_kept, numbered, known) =
          let sound' : All (IsSound logs_of) (kept ++ event.removed) = rw (← split) sound in
          let old : IsCounted (kept ++ event.removed) =
            IsCounted-of (kept ++ event.removed) (rw (← split) inv.numbered)
              (All-HasNext (kept ++ event.removed) sound') in
          let whole : All (IsSound logs_of) (kept ++ event.added) =
            All-append _ kept event.added (All-append_parts _ kept event.removed sound').0 known in
          let counted : IsCounted (kept ++ event.added) =
            IsCounted-of (kept ++ event.added) (numbers numbered)
              (All-HasNext (kept ++ event.added) whole) in
          let added : event.added ≢ [] = λ none_added. cc (rw none_added at last_added) in
          finish blocks' (kept ++ event.added) moved inv' counted whole _ (
            follow-FollowsTo get_logs honest_logs save kept event (keeps some_kept) added old sound'
              filters (rw split at h))
        where
          keeps : (kept ≢ []) ⊎ (blocks ≡ []) → kept ≢ []
          keeps (inl some_kept) = some_kept
          keeps (inr none_left) = absurd (some_blocks none_left)

          numbers :
              (limit ≤ 1) ⊎ IsNumbered (kept ++ event.added) → IsNumbered (kept ++ event.added)
          numbers (inl tight) = absurd (omega arith)
          numbers (inr h) = h

      follow_handled-Reconciles :
          (filters : List (Filter entry))
          → AllMirror filters blocks
          → (handled : Outcome (List Block × Handled))
          → Handles (IsSound logs_of) fetch limit blocks block handled
          → Reconciles fetch limit (handled >>= follow_handled entry get_logs save filters)
      unfolding follow_handled
      follow_handled-Reconciles filters h panic m = m
      follow_handled-Reconciles filters h (ok (blocks', unchanged)) m = rw m.0 (inv, h)
      follow_handled-Reconciles filters h (ok (blocks', failed)) m = m
      follow_handled-Reconciles filters h (ok (blocks', running)) m = absurd m
      follow_handled-Reconciles filters h (ok (blocks', emitted event)) m =
          follow-Reconciles filters blocks' event h m.0 m.1

      -- Where the node returns the block that was asked for, its blocks have logs with their own
      -- number and hash and numbers below the last uint64, and a query returns the logs of the
      -- block, handleReconcile, with a backlog limit of two or more, which with one is below
      -- 2^64, and a backlog that is not empty and is a chain of consecutive blocks, leaves such a
      -- backlog; if it returns no error, every synced filter whose store held the logs of the
      -- backlog's blocks behind older ones holds those of the new backlog's blocks; it panics
      -- only on a nil block.
      pub handle_reconcile_lem :
          (filters : List (Filter entry))
          → AllMirror filters blocks
          → Reconciles fetch limit
              (handle_reconcile entry get_logs save fetch limit blocks filters block)
      unfolding handle_reconcile
      handle_reconcile_lem filters h =
          follow_handled-Reconciles filters h (handle_block_event fetch limit blocks block) (
            handle_block_event_lem (IsSound logs_of) fetch honest limit pos fits blocks inv block
              genuine)
