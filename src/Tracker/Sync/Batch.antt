-- ===== src/Tracker/Sync/Batch.antt =====
-- tracker/tracker.go, syncBatch: the logs of a range of blocks are stored, batch by batch.
use web.Base.{
  ℕ, zero, suc, ◌+◌, ◌-◌, ◌*◌, ◌/◌, ◌%◌, ◌≤◌, ◌<◌, ◌≡◌, ◌≢◌, refl, sym, ap, ◌∙◌, List, [], ◌++◌,
  append-nil, append_assoc, not, ◌&&◌, some, leb, leb→le, min, if◌then◌else◌, Outcome, ok, panic,
  ◌>>=◌, arith, inl, inr, Bool-cases, Option-cases,
}
use web.Base.Bytes.{u64_mod}
use web.Tracker.Provider.{Reply, refused, missing, found}
use web.Tracker.Entry.{Log, Entry}
use web.Tracker.Sync.{
  RangeReply, too_much, failed, logs, Synced, done, stopped, unfinished, Source, save_reply,
  increased, sync_from, sync_batch,
}

module _ (logs_at : ℕ → List Log) where
  -- The logs of `n` blocks from a height on.
  abbrev pub logs_from : ℕ → ℕ → List Log
  logs_from i zero = []
  logs_from i (suc n) = logs_at i ++ logs_from (i + 1) n

  logs_from-add : (i m n : ℕ) → logs_from i m ++ logs_from (i + m) n ≡ logs_from i (m + n)
  logs_from-add i zero n =
      ap (λ (k : ℕ). logs_from k n) {x = i + 0} (omega arith)
      ∙ ap (λ (k : ℕ). logs_from i k) {x = n} (omega arith)
  logs_from-add i (suc m) n =
      append_assoc (logs_at i) (logs_from (i + 1) m) (logs_from (i + suc m) n)
      ∙ ap (λ (k : ℕ). logs_at i ++ (logs_from (i + 1) m ++ logs_from k n)) {x = i + suc m}
          (omega arith)
      ∙ ap (λ l. logs_at i ++ l) (logs_from-add (i + 1) m n)
      ∙ ap (λ (k : ℕ). logs_from i k) {x = suc (m + n)} (omega arith)

-- To split on a reply and keep the equation.
data Replied (r : RangeReply) : Type 0 where
  was_too_much : r ≡ too_much → Replied r
  was_failed : r ≡ failed → Replied r
  was_logs : (ls : List Log) → r ≡ logs ls → Replied r

replied : (r : RangeReply) → Replied r
replied too_much = was_too_much refl
replied failed = was_failed refl
replied (logs ls) = was_logs ls refl

rounds_fall : (a c x size : ℕ) → a < c → x ≤ size → a * (size + 1) + x < c * (size + 1)
rounds_fall a c x size h k = grind arith

module _ (entry : Entry) (source : Source) (logs_at : ℕ → List Log) (old : List Log)
    (from to : ℕ) where
  -- The store holds the logs of `n` blocks of the range.
  abbrev pub Holds : ℕ → entry.State → Type 0
  Holds n s = entry.logs s ≡ old ++ logs_from logs_at from n

  -- An error leaves the logs of some of the blocks, and a panic comes of a nil block.
  abbrev pub Syncs : Outcome (Synced entry.State) → Type 0
  Syncs panic = (turn : ℕ) × (height : ℕ) × (source.get_block turn height ≡ missing)
  Syncs (ok unfinished) = ⊥
  Syncs (ok (stopped s)) = (n : ℕ) × (n ≤ to + 1 - from) × Holds n s
  Syncs (ok (done s)) = Holds (to + 1 - from) s

module _ (entry : Entry) (source : Source) (batch_limit to : ℕ)
    (fits : to + batch_limit + 1 < u64_mod) where
  open source use {get_logs, get_block, cancelled, additive_factor, save}

  increased_bounds :
      (batch : ℕ) → batch ≤ batch_limit → increased entry source batch_limit to batch ≤ batch_limit
  unfolding increased
  increased_bounds batch h = ground arith

  module _ (logs_at : ℕ → List Log)
      (honest : (turn a b : ℕ) (ls : List Log)
        → get_logs turn a b ≡ logs ls
        → ls ≡ logs_from logs_at a (b + 1 - a))
      (one_block : (turn a : ℕ) → get_logs turn a a ≢ too_much) (old : List Log) (from : ℕ)
      (ordered : from ≤ to) where
    stored :
        (turn n i batch : ℕ) (s s' : entry.State) (ls : List Log)
        → i ≡ from + n
        → Holds entry source logs_at old from to n s
        → get_logs turn i (min to ((i + batch) % u64_mod)) ≡ logs ls
        → entry.store_logs s ls ≡ some s'
        → Holds entry source logs_at old from to (n + (min to ((i + batch) % u64_mod) + 1 - i)) s'
    stored turn n i batch s s' ls at holds asked kept =
        let dst = min to ((i + batch) % u64_mod) in
        entry.store_logs_lem s s' ls kept
        ∙ ap (λ l. l ++ ls) holds
        ∙ append_assoc old (logs_from logs_at from n) ls
        ∙ ap (λ l. old ++ (logs_from logs_at from n ++ l)) (honest turn i dst ls asked)
        ∙ ap (λ (k : ℕ). old ++ (logs_from logs_at from n ++ logs_from logs_at k (dst + 1 - i))) at
        ∙ ap (λ l. old ++ l) (logs_from-add logs_at from n (dst + 1 - i))

    -- What is known when a batch was stored: the rest of the loop, and the end of the range.
    after_batch :
        (turn i batch : ℕ) (s' : entry.State) (again : Outcome (Synced entry.State)) (m : ℕ)
        → m ≤ to + 1 - from
        → Holds entry source logs_at old from to m s'
        → ((i + (batch + 1)) % u64_mod ≤ to → Syncs entry source logs_at old from to again)
        → (to < (i + (batch + 1)) % u64_mod → m ≡ to + 1 - from)
        → (reply : Reply) → get_block turn (min to ((i + batch) % u64_mod)) ≡ reply
        → Syncs entry source logs_at old from to (
            save_reply save reply >>= λ saved.
            if saved && not (cancelled turn)
            then (if leb ((i + (batch + 1)) % u64_mod) to then again else ok (done s'))
            else ok (stopped s'))
    unfolding save_reply
    after_batch turn i batch s' again m within holds more end refused asked = (m, within, holds)
    after_batch turn i batch s' again m within holds more end missing asked =
        (turn, min to ((i + batch) % u64_mod), asked)
    after_batch turn i batch s' again m within holds more end (found b) asked =
        elim (Bool-cases (save b && not (cancelled turn))) [
          | inr halted ↦ rw halted (m, within, holds)
          | inl going ↦ rw going (elim (Bool-cases (leb ((i + (batch + 1)) % u64_mod) to)) [
            | inl next ↦ rw next (more (leb→le ((i + (batch + 1)) % u64_mod) to next))
            | inr last ↦ rw last (let e = end (ground arith) in rw e at holds)
          ])
        ]

    sync_from-Syncs :
        (fuel turn n i batch : ℕ) (s : entry.State)
        → i ≡ from + n
        → i ≤ to
        → batch ≤ batch_limit
        → (to + 1 - i) * (batch_limit + 1) + batch < fuel
        → Holds entry source logs_at old from to n s
        → Syncs entry source logs_at old from to
            (sync_from entry source batch_limit to fuel turn i batch s)
    unfolding sync_from
    sync_from-Syncs zero turn n i batch s at low small enough holds = absurd (omega arith)
    sync_from-Syncs (suc fuel) turn n i batch s at low small enough holds =
        elim (replied (get_logs turn i dst)) [
          | was_too_much asked ↦
              rw (asked, sync_from)
                (sync_from-Syncs fuel (turn + 1) n i (batch / 2) s at low (omega arith)
                  (halved (λ e. one_block turn i (rw e at asked))) holds)
          | was_failed asked ↦ rw (asked, sync_from) (n, omega arith, holds)
          | was_logs ls asked ↦
              rw (asked, sync_from)
                (elim (Option-cases (entry.store_logs s ls)) [
                  | inl full ↦ rw full (n, omega arith, holds)
                  | inr (s', kept) ↦ rw kept (
                      after_batch turn i batch s'
                        (sync_from entry source batch_limit to fuel (turn + 1)
                          ((i + (batch + 1)) % u64_mod)
                          (increased entry source batch_limit to batch) s')
                        (n + (dst + 1 - i)) (omega arith)
                        (stored turn n i batch s s' ls at holds asked kept)
                        (λ next.
                          sync_from-Syncs fuel (turn + 1) (n + (dst + 1 - i))
                            ((i + (batch + 1)) % u64_mod)
                            (increased entry source batch_limit to batch) s' (omega arith) next
                            (increased_bounds batch small) (advanced next)
                            (stored turn n i batch s s' ls at holds asked kept))
                        (λ last. omega arith) (get_block turn dst) refl)
                ])
        ]
      where
        dst : ℕ
        dst = min to ((i + batch) % u64_mod)

        halved : (dst ≢ i) → (to + 1 - i) * (batch_limit + 1) + batch / 2 < fuel
        halved differ = ground (arith, differ)

        advanced :
            (i + (batch + 1)) % u64_mod ≤ to
            → (to + 1 - (i + (batch + 1)) % u64_mod) * (batch_limit + 1)
                + increased entry source batch_limit to batch
              < fuel
        advanced next =
            let nearer : to + 1 - (i + (batch + 1)) % u64_mod < to + 1 - i = omega arith in
            omega (
              arith,
              enough,
              rounds_fall (to + 1 - (i + (batch + 1)) % u64_mod) (to + 1 - i)
                  (increased entry source batch_limit to batch) batch_limit nearer
                  (increased_bounds batch small),
            )

    -- Where a range query returns the logs of its blocks in order and is never refused as too
    -- large for one block, the range is not empty and no sum overflows, syncBatch ends within a
    -- number of turns that the size of the range and of a batch bound; if it returns no error,
    -- the logs of exactly the blocks of the range were stored, each once and in order, and an
    -- error leaves those of the first blocks of the range; it panics only on a nil block.
    pub sync_batch_lem :
        (fuel : ℕ) (s : entry.State)
        → (to + 1 - from) * (batch_limit + 1) + batch_limit < fuel
        → entry.logs s ≡ old
        → Syncs entry source logs_at old from to
            (sync_batch entry source batch_limit to fuel from s)
    unfolding sync_batch
    sync_batch_lem fuel s enough holds =
        sync_from-Syncs fuel 0 0 from batch_limit s (omega arith) ordered (omega arith) enough
          (holds ∙ sym (append-nil old))
