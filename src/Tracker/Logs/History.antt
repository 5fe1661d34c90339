-- ===== src/Tracker/Logs/History.antt =====
-- tracker/tracker.go, doFilter: the logs of the blocks removed give way to those of the blocks added.
use web.Base.{
  ℕ, zero, suc, ◌+◌, ◌≤◌, ◌<◌, ◌≡◌, ◌≢◌, refl, sym, ap, ◌∙◌, List, [], ◌∷◌, ◌++◌, append-nil,
  append_assoc, Bool, true, false, Option, none, some, if◌then◌else◌, Outcome, ok, panic, ◌>>=◌,
  arith, inl, inr, Option-cases, All, All-append,
}
use web.Tracker.Chain.{Block}
use web.Tracker.Chain.Numbers.{IsCounted}
use web.Tracker.Entry.{Log, Entry}
use web.Tracker.Logs.{
  stays, revert_logs, Event, GetLogs, attempts, retry, remove_blocks, add_logs, save_last,
  add_blocks_logs, do_filter,
}
use web.Tracker.Logs.Walk.{Cut, remove_logs_lem, revert_logs-reverse}

-- A log of the block.
abbrev pub IsLogOf : Block → Log → Type 0
IsLogOf b log = (log.block_number ≡ b.number) × (log.block_hash ≡ b.hash)

-- A log of an earlier block.
abbrev pub IsBefore : Block → Log → Type 0
IsBefore b log = log.block_number < b.number

-- The logs stand before the first of the blocks, if there is one.
abbrev pub Below : List Log → List Block → Type 0
Below logs [] = Unit {0}
Below logs (b ∷ blocks) = All (IsBefore b) logs

stays_before :
    (b : Block) (logs : List Log)
    → All (IsBefore b) logs
    → All (λ log. stays b.number (some b.hash) log ≡ true) logs
unfolding stays
stays_before b [] h = tt
stays_before b (log ∷ logs) h = (ground arith, stays_before b logs h.1)

leaves_at :
    (b : Block) (logs : List Log)
    → All (IsLogOf b) logs
    → All (λ log. stays b.number (some b.hash) log ≡ false) logs
unfolding stays
leaves_at b [] h = tt
leaves_at b (log ∷ logs) h = (ground arith, leaves_at b logs h.1)

leaves_after :
    (b c : Block) (logs : List Log)
    → b.number < c.number
    → All (IsLogOf c) logs
    → All (λ log. stays b.number (some b.hash) log ≡ false) logs
unfolding stays
leaves_after b c [] lt h = tt
leaves_after b c (log ∷ logs) lt h = (ground arith, leaves_after b c logs lt h.1)

-- `logs_of` is the node's record: the logs of the block with a hash.
module _ (logs_of : ℕ → List Log) where
  abbrev pub HasItsLogs : Block → Type 0
  HasItsLogs b = All (IsLogOf b) (logs_of b.hash)

  -- The logs of the blocks, in order.
  abbrev pub history : List Block → List Log
  history [] = []
  history (b ∷ blocks) = logs_of b.hash ++ history blocks

  pub history-append : (xs ys : List Block) → history (xs ++ ys) ≡ history xs ++ history ys
  history-append [] ys = refl
  history-append (b ∷ xs) ys =
      ap (λ l. logs_of b.hash ++ l) (history-append xs ys)
      ∙ sym (append_assoc (logs_of b.hash) (history xs) (history ys))

  leaves_later :
      (pivot b : Block) (blocks : List Block)
      → pivot.number ≤ b.number
      → IsCounted (b ∷ blocks)
      → All HasItsLogs blocks
      → All (λ log. stays pivot.number (some pivot.hash) log ≡ false) (history blocks)
  leaves_later pivot b [] le counted logs = tt
  leaves_later pivot b (c ∷ blocks) le counted logs =
      All-append _ (logs_of c.hash) (history blocks)
        (leaves_after pivot c (logs_of c.hash) (omega (arith, counted.0)) logs.0)
        (leaves_later pivot c blocks (omega (arith, counted.0)) counted.1 logs.1)

  leaves_history :
      (pivot : Block) (blocks : List Block)
      → IsCounted (pivot ∷ blocks)
      → All HasItsLogs (pivot ∷ blocks)
      → All (λ log. stays pivot.number (some pivot.hash) log ≡ false) (history (pivot ∷ blocks))
  leaves_history pivot blocks counted logs =
      All-append _ (logs_of pivot.hash) (history blocks)
        (leaves_at pivot (logs_of pivot.hash) logs.0)
        (leaves_later pivot pivot blocks (omega arith) counted logs.1)

  -- GetLogs' documented behaviour: it returns the logs of the block with the hash.
  abbrev pub IsHonest : GetLogs → Type 0
  IsHonest get_logs =
      (attempt hash : ℕ) (logs : List Log) → get_logs attempt hash ≡ some logs → logs ≡ logs_of hash

  module _ (get_logs : GetLogs) (honest : IsHonest get_logs) (entry : Entry) where
    retry_lem :
        (left attempt hash : ℕ) (logs : List Log)
        → retry get_logs left attempt hash ≡ some logs
        → logs ≡ logs_of hash
    unfolding retry
    retry_lem zero attempt hash logs h = cc
    retry_lem (suc left) attempt hash logs h = elim (Option-cases (get_logs attempt hash)) [
      | inl refused ↦ retry_lem left (attempt + 1) hash logs (rw (refused, retry) at h)
      | inr (got, e) ↦
          let same : got ≡ logs = cc (rw (e, retry) at h) in sym same ∙ honest attempt hash got e
    ]

    -- What is found is what was found before and the logs of the blocks, which are stored.
    abbrev Stored : entry.State → List Block → List Log → Option (entry.State × List Log) → Type 0
    Stored s blocks found none = Unit {0}
    Stored s blocks found (some (s', found')) =
        (entry.logs s' ≡ entry.logs s ++ history blocks) × (found' ≡ found ++ history blocks)

    Stored-step :
        (s s' : entry.State) (b : Block) (blocks : List Block) (found logs : List Log)
        → logs ≡ logs_of b.hash
        → entry.logs s' ≡ entry.logs s ++ logs
        → (r : Option (entry.State × List Log)) → Stored s' blocks (found ++ logs) r
        → Stored s (b ∷ blocks) found r
    Stored-step s s' b blocks found logs of_b grown none h = tt
    Stored-step s s' b blocks found logs of_b grown (some (s'', found')) h = (
      h.0
          ∙ ap (λ l. l ++ history blocks) grown
          ∙ append_assoc (entry.logs s) logs (history blocks)
          ∙ ap (λ l. entry.logs s ++ (l ++ history blocks)) of_b,
      h.1
          ∙ append_assoc found logs (history blocks)
          ∙ ap (λ l. found ++ (l ++ history blocks)) of_b,
    )

    add_logs-Stored :
        (s : entry.State) (blocks : List Block) (found : List Log)
        → Stored s blocks found (add_logs entry get_logs s blocks found)
    unfolding add_logs
    add_logs-Stored s [] found = (sym (append-nil (entry.logs s)), sym (append-nil found))
    add_logs-Stored s (b ∷ blocks) found = elim (Option-cases (retry get_logs attempts 0 b.hash)) [
      | inl refused ↦ rw refused tt
      | inr (logs, got) ↦ rw got (elim (Option-cases (entry.store_logs s logs)) [
        | inl full ↦ rw full tt
        | inr (s', e) ↦ rw e (
            Stored-step s s' b blocks found logs (retry_lem attempts 0 b.hash logs got)
              (entry.store_logs_lem s s' logs e) (add_logs entry get_logs s' blocks (found ++ logs))
              (add_logs-Stored s' blocks (found ++ logs)))
      ])
    ]

    -- What doFilter leaves and reports, if it returns no error.
    abbrev pub Filtered :
        List Log → List Block → List Block → Outcome (Option (entry.State × Event)) → Type 0
    Filtered old added removed panic = ⊥
    Filtered old added removed (ok none) = Unit {0}
    Filtered old added removed (ok (some (s, event))) =
        (entry.logs s ≡ old ++ history added)
        × (event.added ≡ history added)
        × (event.removed ≡ history removed)

    save_last_lem :
        (save : Block → Bool) (added : List Block)
        → added ≢ []
        → (saved : Bool) × (save_last entry save added ≡ ok saved)
    unfolding save_last
    save_last_lem save [] h = absurd (h refl)
    save_last_lem save (b ∷ []) h = (save b, refl)
    save_last_lem save (b ∷ c ∷ added) h = save_last_lem save (c ∷ added) (λ e. cc)

    add_blocks_logs-Filtered :
        (save : Block → Bool) (old : List Log) (added removed : List Block)
        → added ≢ []
        → (cut : Outcome (Option (entry.State × List Log))) → Cut entry old (history removed) cut
        → Filtered old added removed (cut >>= add_blocks_logs entry get_logs save added)
    unfolding add_blocks_logs
    add_blocks_logs-Filtered save old added removed some_added panic h = h
    add_blocks_logs-Filtered save old added removed some_added (ok none) h = tt
    add_blocks_logs-Filtered save old added removed some_added (ok (some (s, gone))) h =
        go (add_logs entry get_logs s added []) (add_logs-Stored s added [])
      where
        go :
            (r : Option (entry.State × List Log))
            → Stored s added [] r
            → Filtered old added removed (elim r [
              | none ↦ ok none
              | some (s', found) ↦
                  (save_last entry save added >>= λ saved. ok (
                    if saved
                    then some (s', record { added = found; removed = revert_logs gone })
                    else none))
            ])
        go none stored = tt
        go (some (s', found)) stored =
            let (saved, e) = save_last_lem save added some_added in rw e (close saved)
          where
            close :
                (saved : Bool)
                → Filtered old added removed (
                    ok (
                      if saved
                      then some (s', record { added = found; removed = revert_logs gone })
                      else none))
            close false = tt
            close true = (
              stored.0 ∙ ap (λ l. l ++ history added) h.0,
              stored.1,
              ap revert_logs h.1 ∙ revert_logs-reverse (history removed),
            )

    remove_blocks-Cut :
        (s : entry.State) (old : List Log) (removed : List Block)
        → entry.logs s ≡ old ++ history removed
        → Below old removed
        → IsCounted removed
        → All HasItsLogs removed
        → Cut entry old (history removed) (remove_blocks entry s removed)
    unfolding remove_blocks
    remove_blocks-Cut s old [] holds below counted logs = (holds ∙ append-nil old, refl)
    remove_blocks-Cut s old (pivot ∷ removed) holds below counted logs =
        remove_logs_lem entry s pivot.number (some pivot.hash) old (history (pivot ∷ removed)) holds
          (stays_before pivot old below) (leaves_history pivot removed counted logs)

    pub do_filter-Filtered :
        (save : Block → Bool) (s : entry.State) (old : List Log) (added removed : List Block)
        → added ≢ []
        → entry.logs s ≡ old ++ history removed
        → Below old removed
        → IsCounted removed
        → All HasItsLogs removed
        → Filtered old added removed (do_filter entry get_logs save s added removed)
    unfolding do_filter
    do_filter-Filtered save s old added removed some_added holds below counted logs =
        add_blocks_logs-Filtered save old added removed some_added (remove_blocks entry s removed)
          (remove_blocks-Cut s old removed holds below counted logs)
