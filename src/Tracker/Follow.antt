-- ===== src/Tracker/Follow.antt =====
-- tracker/tracker.go, handleReconcile: a new head, and the filters that follow it.
pub mod Mirror
pub mod Heads
use web.Base.{
  ℕ, Bool, true, false, List, [], ◌∷◌, ◌++◌, Option, none, some, if◌then◌else◌, Outcome, ok, panic,
  ◌>>=◌,
}
use web.Tracker.Chain.{Block, BlockEvent}
use web.Tracker.Provider.{Fetch}
use web.Tracker.Reconcile.{Handled, unchanged, emitted, failed, running, handle_block_event}
use web.Tracker.Entry.{Entry}
use web.Tracker.Logs.{Event, GetLogs, do_filter}

-- A filter: whether it is synced, what it asks for, and the store of its logs.
pub record Filter (entry : Entry) : Type 0 where
  pub synced : Bool
  pub query : ℕ
  pub logs : entry.State

module _ (entry : Entry) (get_logs : ℕ → GetLogs) (save : ℕ → Block → Bool) where
  -- One turn of the loop over the filters; none is an error.
  unfoldable pub follow_one :
      BlockEvent → Filter entry → Outcome (Option (Filter entry × List Event))
  follow_one event f =
      if f.synced
      then (do
        filtered ←
            do_filter entry (get_logs f.query) (save f.query) f.logs event.added event.removed
        ok (elim filtered [
          | none ↦ none
          | some (s, emission) ↦ some (record f { logs = s }, emission ∷ [])
        ]))
      else ok (some (f, []))

  -- The other filters have their turn if there was no error.
  unfoldable pub then_others :
      Outcome (Option (List (Filter entry) × List Event))
      → Option (Filter entry × List Event)
      → Outcome (Option (List (Filter entry) × List Event))
  then_others rest none = ok none
  then_others rest (some (f, events)) = do
    others ← rest
    ok (elim others [
      | none ↦ none
      | some (filters, events') ↦ some (f ∷ filters, events ++ events')
    ])

  -- The loop over the filters, and the events that they emit.
  unfoldable pub follow :
      BlockEvent → List (Filter entry) → Outcome (Option (List (Filter entry) × List Event))
  unfolding follow_one then_others
  follow event [] = ok (some ([], []))
  follow event (f ∷ filters) = do turn ← follow_one event f; then_others (follow event filters) turn

  unfoldable pub follow_handled :
      List (Filter entry)
      → List Block × Handled
      → Outcome (List Block × Option (List (Filter entry) × List Event))
  unfolding follow
  follow_handled filters (blocks, unchanged) = ok (blocks, some (filters, []))
  follow_handled filters (blocks, failed) = ok (blocks, none)
  follow_handled filters (blocks, running) = ok (blocks, none)
  follow_handled filters (blocks, emitted event) = do
    followed ← follow event filters
    ok (blocks, followed)

  unfoldable pub handle_reconcile :
      Fetch
      → ℕ
      → List Block
      → List (Filter entry)
      → Block
      → Outcome (List Block × Option (List (Filter entry) × List Event))
  unfolding follow_handled
  handle_reconcile fetch limit blocks filters block = do
    handled ← handle_block_event fetch limit blocks block
    follow_handled filters handled
