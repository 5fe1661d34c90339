-- ===== src/Tracker/Inmem.antt =====
-- tracker/store/inmem/inmem_store.go: the logs of a filter in a slice. An index out of range panics;
-- cutting beyond the length is refused here, as the capacity of the slice is not modelled.
use web.Base.{
  ℕ, ◌≤◌, ◌<◌, ◌≡◌, sym, ◌∙◌, List, [], ◌∷◌, ◌++◌, append-nil, append_assoc, Option, none, some,
  leb, if◌then◌else◌, length, get_elem?, take, Outcome, ok, panic, arith,
}
use web.Base.Indices.{get_elem?-lt}
use web.Tracker.Entry.{Log, Entry}

unfoldable pub last_index : List Log → Option ℕ
last_index logs = some (length logs)

unfoldable pub append_logs : List Log → List Log → List Log
append_logs logs [] = logs
append_logs logs (log ∷ added) = append_logs (logs ++ log ∷ []) added

unfoldable pub store_logs : List Log → List Log → Option (List Log)
unfolding append_logs
store_logs logs added = some (append_logs logs added)

unfoldable pub remove_logs : List Log → ℕ → Outcome (Option (List Log))
remove_logs logs indx = if leb indx (length logs) then ok (some (take indx logs)) else panic

unfoldable pub get_log : List Log → ℕ → Outcome (Option Log)
get_log logs indx = elim (get_elem? logs indx) [ some log ↦ ok (some log) | none ↦ panic ]

append_logs_lem : (logs added : List Log) → append_logs logs added ≡ logs ++ added
unfolding append_logs
append_logs_lem logs [] = sym (append-nil logs)
append_logs_lem logs (log ∷ added) =
    append_logs_lem (logs ++ log ∷ []) added ∙ append_assoc logs (log ∷ []) added

pub store_logs_lem :
    (logs logs' added : List Log) → store_logs logs added ≡ some logs' → logs' ≡ logs ++ added
unfolding store_logs
store_logs_lem logs logs' added h =
    let e : append_logs logs added ≡ logs' = cc in sym e ∙ append_logs_lem logs added

pub remove_logs_lem :
    (logs logs' : List Log) (i : ℕ) → remove_logs logs i ≡ ok (some logs') → logs' ≡ take i logs
unfolding remove_logs
remove_logs_lem logs logs' i h = ground arith

pub remove_logs-ne-panic :
    (logs : List Log) (i : ℕ) → i ≤ length logs → remove_logs logs i ≡ panic → ⊥
unfolding remove_logs
remove_logs-ne-panic logs i h e = ground arith

pub get_log_lem :
    (logs : List Log) (i : ℕ) (log : Log)
    → get_log logs i ≡ ok (some log)
    → get_elem? logs i ≡ some log
unfolding get_log
get_log_lem logs i log h = ground arith

pub get_log-ne-panic : (logs : List Log) (i : ℕ) → i < length logs → get_log logs i ≡ panic → ⊥
unfolding get_log
get_log-ne-panic logs i h e = ground (arith, get_elem?-lt logs i h)

pub last_index_lem : (logs : List Log) (n : ℕ) → last_index logs ≡ some n → n ≡ length logs
unfolding last_index
last_index_lem logs n h = cc

-- The in-memory store keeps every promise of an entry.
abbrev pub entry : Entry
entry = record {
  State = List Log;
  logs = λ logs. logs;
  last_index = last_index;
  store_logs = store_logs;
  remove_logs = remove_logs;
  get_log = get_log;
  last_index_lem = last_index_lem;
  store_logs_lem = store_logs_lem;
  remove_logs_lem = remove_logs_lem;
  remove_logs-ne-panic = remove_logs-ne-panic;
  get_log_lem = get_log_lem;
  get_log-ne-panic = get_log-ne-panic;
}
