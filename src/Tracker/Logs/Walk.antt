-- ===== src/Tracker/Logs/Walk.antt =====
-- tracker/tracker.go, removeLogs: the walk from the last log down to the first that stays.
use web.Base.{
  ℕ, zero, suc, ◌≤◌, ◌<◌, ◌≡◌, refl, sym, ap, ◌∙◌, List, [], ◌∷◌, ◌++◌, append-nil, append_assoc,
  true, false, Option, none, some, ◌==◌, if◌then◌else◌, length, get_elem?, take, drop,
  drop-append_left, drop-length, take-suc, take-length, length-take, Outcome, ok, panic, ◌>>=◌,
  arith, inl, inr, Bool-cases, ==_iff, All, drop-append_self, length-append, take-append_self,
}
use web.Tracker.Entry.{Log, Entry}
use web.Tracker.Logs.{stays, revert_logs, walk_back, remove_logs, cut_at}
use mathlib.Core.List.{reverse, reverse-append, reverse-reverse}
use mathlib.Core.Path.{subst}
use native.Mathlib.Decide.{dec_lt}

revert_logs-eq-reverse : (logs : List Log) → revert_logs logs ≡ reverse logs
unfolding revert_logs
revert_logs-eq-reverse [] = refl
revert_logs-eq-reverse (log ∷ logs) =
    ap (λ l. l ++ log ∷ []) (revert_logs-eq-reverse logs) ∙ sym (reverse-append (log ∷ []) logs)

pub revert_logs-reverse : (logs : List Log) → revert_logs (reverse logs) ≡ logs
revert_logs-reverse logs = revert_logs-eq-reverse (reverse logs) ∙ reverse-reverse logs

-- A walk, if it returns no error, ends at index `n` with the logs `out`.
abbrev Walked : ℕ → List Log → Outcome (Option (ℕ × List Log)) → Type 0
Walked n out panic = ⊥
Walked n out (ok none) = Unit {0}
Walked n out (ok (some walked)) = walked ≡ (n, out)

module _ (entry : Entry) (s : entry.State) (number : ℕ) (hash : Option ℕ) (n : ℕ)
    (below : (i : ℕ) (log : Log)
      → get_elem? (entry.logs s) i ≡ some log
      → i < n
      → stays number hash log ≡ true)
    (above : (i : ℕ) (log : Log)
      → get_elem? (entry.logs s) i ≡ some log
      → n ≤ i
      → stays number hash log ≡ false) where
  walk_back_lem :
      (i : ℕ) (removed : List Log)
      → n ≤ i
      → i ≤ length (entry.logs s)
      → Walked n
          (removed ++ reverse (drop n (take i (entry.logs s))))
          (walk_back entry s number hash i removed)
  unfolding walk_back
  walk_back_lem zero removed h fits =
      let e : n ≡ 0 = omega arith in rw e (ap (λ l. (0, l)) (sym (append-nil removed)))
  walk_back_lem (suc i) removed h fits =
      go (entry.get_log s i) refl λ le log. walk_back_lem i (removed ++ log ∷ []) le (omega arith)
    where
      logs : List Log
      logs = entry.logs s

      stop :
          n ≡ suc i
          → Walked n (removed ++ reverse (drop n (take (suc i) logs))) (ok (some (suc i, removed)))
      stop e =
          let none_left : drop (suc i) (take (suc i) logs) ≡ [] =
            ap (λ (k : ℕ). drop k (take (suc i) logs)) {x = suc i}
              (omega (arith, length-take (suc i) logs))
            ∙ drop-length (take (suc i) logs) in
          rw (e, none_left) (ap (λ l. (suc i, l)) (sym (append-nil removed)))

      more :
          (log : Log)
          → n ≤ i
          → get_elem? logs i ≡ some log
          → removed ++ reverse (drop n (take (suc i) logs))
            ≡ (removed ++ log ∷ []) ++ reverse (drop n (take i logs))
      more log le at =
          let split : drop n (take (suc i) logs) ≡ drop n (take i logs) ++ log ∷ [] =
            ap (drop n) (take-suc logs i log at)
            ∙ drop-append_left n (take i logs) (log ∷ []) (omega (arith, length-take i logs)) in
          ap (λ l. removed ++ l)
            (ap reverse split ∙ reverse-append (drop n (take i logs)) (log ∷ []))
          ∙ sym (append_assoc removed (log ∷ []) (reverse (drop n (take i logs))))

      go :
          (r : Outcome (Option Log))
          → entry.get_log s i ≡ r
          → (n ≤ i
              → (log : Log)
              → Walked n
                  ((removed ++ log ∷ []) ++ reverse (drop n (take i logs)))
                  (walk_back entry s number hash i (removed ++ log ∷ [])))
          → Walked n (removed ++ reverse (drop n (take (suc i) logs))) (
              r >>= λ read. elim read [
                | none ↦ ok none
                | some log ↦ elim (stays number hash log) [
                  | true ↦ ok (some (suc i, removed))
                  | false ↦ walk_back entry s number hash i (removed ++ log ∷ [])
                ]
              ])
      go panic e next = absurd (entry.get_log-ne-panic s i (omega arith) e)
      go (ok none) e next = tt
      go (ok (some log)) e next =
          let at = entry.get_log_lem s i log e in
          elim (dec_lt i n) [
            | yes lt ↦ rw (below i log at lt, Walked) (stop (omega arith))
            | no ge ↦
                let le : n ≤ i = omega arith in
                rw (above i log at le, Walked)
                  (subst (λ l. Walked n l (walk_back entry s number hash i (removed ++ log ∷ [])))
                    (sym (more log le at)) (next le log))
          ]

-- An entry that was cut, if no error is returned: what it holds, and the logs that were removed.
abbrev pub Cut :
    (entry : Entry) → List Log → List Log → Outcome (Option (entry.State × List Log)) → Type 0
Cut entry old gone panic = ⊥
Cut entry old gone (ok none) = Unit {0}
Cut entry old gone (ok (some (s, removed))) = (entry.logs s ≡ old) × (removed ≡ reverse gone)

cut_at-Cut :
    (entry : Entry) (s : entry.State) (old gone : List Log)
    → entry.logs s ≡ old ++ gone
    → (walked : Outcome (Option (ℕ × List Log))) → Walked (length old) (reverse gone) walked
    → Cut entry old gone (walked >>= cut_at entry s)
unfolding cut_at
cut_at-Cut entry s old gone holds panic h = h
cut_at-Cut entry s old gone holds (ok none) h = tt
cut_at-Cut entry s old gone holds (ok (some walked)) h =
    subst (λ w. Cut entry old gone (cut_at entry s (some w))) (sym h)
      (go (entry.remove_logs s (length old)) refl)
  where
    go :
        (r : Outcome (Option entry.State))
        → entry.remove_logs s (length old) ≡ r
        → Cut entry old gone
            (r >>= λ cut. ok (elim cut [ none ↦ none | some s' ↦ some (s', reverse gone) ]))
    go panic e = absurd (
        entry.remove_logs-ne-panic s (length old)
          (omega (arith, ap length holds, length-append old gone)) e)
    go (ok none) e = tt
    go (ok (some s')) e = (
      entry.remove_logs_lem s s' (length old) e
          ∙ ap (take (length old)) holds
          ∙ take-append_self old gone,
      refl,
    )

All-low :
    (P : Log → Type 0) (old gone : List Log) (i : ℕ) (log : Log)
    → All P old
    → get_elem? (old ++ gone) i ≡ some log
    → i < length old
    → P log
All-low P [] gone i log h at lt = absurd (omega arith)
All-low P (x ∷ old) gone zero log h at lt = let e : x ≡ log = cc in rw (← e) h.0
All-low P (x ∷ old) gone (suc i) log h at lt = All-low P old gone i log h.1 at (omega arith)

All-high :
    (P : Log → Type 0) (old gone : List Log) (i : ℕ) (log : Log)
    → All P gone
    → get_elem? (old ++ gone) i ≡ some log
    → length old ≤ i
    → P log
All-high P [] [] i log h at le = cc
All-high P [] (x ∷ gone) zero log h at le = let e : x ≡ log = cc in rw (← e) h.0
All-high P [] (x ∷ gone) (suc i) log h at le = All-high P [] gone i log h.1 at (omega arith)
All-high P (x ∷ old) gone zero log h at le = absurd (omega arith)
All-high P (x ∷ old) gone (suc i) log h at le = All-high P old gone i log h at (omega arith)

nothing_left :
    (logs old gone : List Log)
    → logs ≡ old ++ gone
    → length logs ≡ 0
    → (logs ≡ old) × ([] ≡ reverse gone)
nothing_left logs [] [] e h = (e, refl)
nothing_left logs [] (x ∷ gone) e h = absurd (omega (arith, ap length e))
nothing_left logs (x ∷ old) gone e h = absurd (omega (arith, ap length e))

-- `old` stays and `gone` is removed, the last log first.
pub remove_logs_lem :
    (entry : Entry) (s : entry.State) (number : ℕ) (hash : Option ℕ) (old gone : List Log)
    → entry.logs s ≡ old ++ gone
    → All (λ log. stays number hash log ≡ true) old
    → All (λ log. stays number hash log ≡ false) gone
    → Cut entry old gone (remove_logs entry s number hash)
unfolding remove_logs
remove_logs_lem entry s number hash old gone holds below above =
    go (entry.last_index s) (entry.last_index_lem s)
  where
    go :
        (index : Option ℕ)
        → ((n : ℕ) → index ≡ some n → n ≡ length (entry.logs s))
        → Cut entry old gone (elim index [
          | none ↦ ok none
          | some n ↦
              if n == 0
              then ok (some (s, []))
              else (walk_back entry s number hash n [] >>= cut_at entry s)
        ])
    go none h = tt
    go (some n) h = elim (Bool-cases (n == 0)) [
      | inl nil ↦
          rw nil (
            nothing_left (entry.logs s) old gone holds
              (omega (arith, h n refl, (==_iff n 0).0 nil)))
      | inr more ↦
          let whole : drop (length old) (take n (entry.logs s)) ≡ gone =
            ap (λ (k : ℕ). drop (length old) (take k (entry.logs s))) (h n refl)
            ∙ ap (drop (length old)) (take-length (entry.logs s) ∙ holds)
            ∙ drop-append_self old gone in
          let walked : Walked (length old) (reverse gone) (walk_back entry s number hash n []) =
            rw whole at (
              walk_back_lem entry s number hash (length old)
                (λ i log at lt. All-low _ old gone i log below (rw holds at at) lt)
                (λ i log at le. All-high _ old gone i log above (rw holds at at) le) n []
                (omega (arith, h n refl, ap length holds, length-append old gone))
                (omega (arith, h n refl))) in
          rw more (cut_at-Cut entry s old gone holds (walk_back entry s number hash n []) walked)
    ]
