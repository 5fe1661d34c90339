-- ===== src/Tracker/Follow/Mirror.antt =====
-- tracker/tracker.go, handleReconcile: a filter's store mirrors the logs of the chain's blocks.
use web.Base.{
  ℕ, ◌-◌, ◌<◌, ◌≡◌, ◌≢◌, refl, sym, ap, ◌∙◌, Bool, List, [], ◌∷◌, ◌++◌, append-nil, append_assoc,
  Option, none, some, length, take, drop, take-append-drop, All, All-append, All-append_parts,
  Outcome, ok, panic, arith,
}
use web.Tracker.Chain.{Block, BlockEvent}
use web.Tracker.Chain.Backlog.{newest}
use web.Tracker.Chain.Numbers.{CountedFrom, IsCounted}
use web.Tracker.Entry.{Log, Entry}
use web.Tracker.Logs.{Event, GetLogs, do_filter}
use web.Tracker.Logs.History
use web.Tracker.Logs.History.{
  IsLogOf, IsBefore, Below, HasItsLogs, history, history-append, Filtered, do_filter-Filtered,
}

module _ (logs_of : ℕ → List Log) where
  All-IsBefore :
      (b c : Block) (logs : List Log)
      → b.number < c.number
      → All (IsBefore b) logs
      → All (IsBefore c) logs
  All-IsBefore b c [] lt h = tt
  All-IsBefore b c (log ∷ logs) lt h = (omega (arith, h.0), All-IsBefore b c logs lt h.1)

  logs-IsBefore :
      (b c : Block) (logs : List Log)
      → b.number < c.number
      → All (IsLogOf b) logs
      → All (IsBefore c) logs
  logs-IsBefore b c [] lt h = tt
  logs-IsBefore b c (log ∷ logs) lt h = (omega (arith, h.0.0), logs-IsBefore b c logs lt h.1)

  -- The logs of earlier blocks join those that stand before the later ones.
  Below-history :
      (old : List Log) (xs ys : List Block)
      → IsCounted (xs ++ ys)
      → All (HasItsLogs logs_of) xs
      → Below old (xs ++ ys)
      → Below (old ++ history logs_of xs) ys
  Below-history old [] [] counted logs h = tt
  Below-history old [] (y ∷ ys) counted logs h = rw (append-nil old) h
  Below-history old (x ∷ xs) ys counted logs h =
      rw (← append_assoc old (logs_of x.hash) (history logs_of xs))
        (Below-history (old ++ logs_of x.hash) xs ys counted.1 logs.1 (next (xs ++ ys) counted.0))
    where
      next : (rest : List Block) → CountedFrom x rest → Below (old ++ logs_of x.hash) rest
      next [] c = tt
      next (y ∷ rest) c =
          All-append _ old (logs_of x.hash) (All-IsBefore x y old (omega (arith, c)) h)
            (logs-IsBefore x y (logs_of x.hash) (omega (arith, c)) logs.0)

  -- A store that holds the logs of the blocks behind older logs.
  abbrev pub Mirrors : (entry : Entry) → entry.State → List Block → Type 0
  Mirrors entry s blocks =
      (old : List Log) × (entry.logs s ≡ old ++ history logs_of blocks) × Below old blocks

  pub Mirrors-newest :
      (entry : Entry) (s : entry.State) (limit : ℕ) (blocks : List Block)
      → IsCounted blocks
      → All (HasItsLogs logs_of) blocks
      → Mirrors entry s blocks
      → Mirrors entry s (newest limit blocks)
  Mirrors-newest entry s limit blocks counted logs (old, holds, below) =
      let cut = length blocks - limit in
      let split : take cut blocks ++ drop cut blocks ≡ blocks = take-append-drop cut blocks in
      let parts : All (HasItsLogs logs_of) (take cut blocks)
          × All (HasItsLogs logs_of) (drop cut blocks) =
        All-append_parts _ (take cut blocks) (drop cut blocks) (rw split logs) in
      (
        old ++ history logs_of (take cut blocks),
        holds
            ∙ ap (λ l. old ++ history logs_of l) (sym split)
            ∙ ap (λ l. old ++ l) (history-append logs_of (take cut blocks) (drop cut blocks))
            ∙ sym (
                append_assoc old (history logs_of (take cut blocks))
                  (history logs_of (drop cut blocks))),
        Below-history old (take cut blocks) (drop cut blocks) (rw split counted) parts.0
            (rw split below),
      )

  IsCounted-suffix : (xs ys : List Block) → IsCounted (xs ++ ys) → IsCounted ys
  IsCounted-suffix [] ys h = h
  IsCounted-suffix (x ∷ xs) ys h = IsCounted-suffix xs ys h.1

  Below-swap :
      (old : List Log) (kept xs ys : List Block)
      → kept ≢ []
      → Below old (kept ++ xs)
      → Below old (kept ++ ys)
  Below-swap old [] xs ys some_kept h = absurd (some_kept refl)
  Below-swap old (b ∷ kept) xs ys some_kept h = h

  -- What doFilter leaves, if it returns no error: a store that mirrors the blocks.
  abbrev pub Mirrored :
      (entry : Entry) → List Block → Outcome (Option (entry.State × Event)) → Type 0
  Mirrored entry blocks panic = ⊥
  Mirrored entry blocks (ok none) = Unit {0}
  Mirrored entry blocks (ok (some (s, emission))) = Mirrors entry s blocks

  module _ (get_logs : GetLogs) (honest : History.IsHonest logs_of get_logs) (entry : Entry) where
    Mirrored-Filtered :
        (old : List Log) (kept : List Block) (event : BlockEvent)
        → kept ≢ []
        → Below old (kept ++ event.removed)
        → (r : Outcome (Option (entry.State × Event)))
        → Filtered logs_of get_logs honest entry
            (old ++ history logs_of kept)
            event.added
            event.removed
            r
        → Mirrored entry (kept ++ event.added) r
    Mirrored-Filtered old kept event some_kept below panic h = h
    Mirrored-Filtered old kept event some_kept below (ok none) h = tt
    Mirrored-Filtered old kept event some_kept below (ok (some (s, emission))) h = (
      old,
      h.0
          ∙ append_assoc old (history logs_of kept) (history logs_of event.added)
          ∙ ap (λ l. old ++ l) (sym (history-append logs_of kept event.added)),
      Below-swap old kept event.removed event.added some_kept below,
    )

    -- One filter: where blocks are kept, its store mirrors what joins them.
    pub do_filter-Mirrored :
        (save : Block → Bool) (s : entry.State) (kept : List Block) (event : BlockEvent)
        → kept ≢ []
        → event.added ≢ []
        → IsCounted (kept ++ event.removed)
        → All (HasItsLogs logs_of) (kept ++ event.removed)
        → Mirrors entry s (kept ++ event.removed)
        → Mirrored entry
            (kept ++ event.added)
            (do_filter entry get_logs save s event.added event.removed)
    do_filter-Mirrored save s kept event some_kept some_added counted logs (old, holds, below) =
        let split : All (HasItsLogs logs_of) kept × All (HasItsLogs logs_of) event.removed =
          All-append_parts _ kept event.removed logs in
        let holds' : entry.logs s ≡ (old ++ history logs_of kept) ++ history logs_of event.removed =
          holds
          ∙ ap (λ l. old ++ l) (history-append logs_of kept event.removed)
          ∙ sym (append_assoc old (history logs_of kept) (history logs_of event.removed)) in
        Mirrored-Filtered old kept event some_kept below _ (
          do_filter-Filtered logs_of get_logs honest entry save s (old ++ history logs_of kept)
            event.added event.removed some_added holds'
            (Below-history old kept event.removed counted split.0 below)
            (IsCounted-suffix kept event.removed counted) split.1)
