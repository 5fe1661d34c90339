-- ===== src/Storage/StateDb/Guards.antt =====
-- evm/storage/statedb.go: what every operation after a snapshot leaves of it.
use web.Base.{
  ℕ, suc, ◌-◌, ◌≤◌, ◌≡◌, refl, sym, ◌∙◌, Bool, true, false, ltb, List, [], ◌∷◌, none, some,
  if◌then◌else◌, length, take, get_elem?, length-append, length-take, take-append, take-length,
  take-append_self, Outcome, ok, panic, ok_inj, Post, Post-ok, arith, inl, inr, Option-cases,
}
use web.Base.Indices.{
  get_elem?-append_left, get_elem?-append_one, get_elem?-append_length, get_elem?-take_lt,
  get_elem?-take-some, take-take, lt-length_of_get_elem?,
}
use web.Storage.SortedMap.{SortedMap}
use web.Storage.Word256.{Word256}
use web.Storage.StateDb.{
  StateDb, Snapshot, StorageLog, add_refund, sub_refund, add_log, snapshot, take_snapshot, restore,
  revert_to_snapshot,
}
use web.Storage.StateDb.Frame.{SameFrame}
use web.Storage.StateDb.FrameOps.{
  set_nonce-Frames, set_code-Frames, sub_balance-Frames, add_balance-Frames,
}
use web.Storage.StateDb.FrameResults.{
  suicide-Frames, get_balance-Frames, exist-Frames, empty-Frames, get_nonce-Frames, get_code-Frames,
  get_code_hash-Frames, get_state-Frame, set_state-Frame, get_committed_state-Frame,
}
use web.Storage.StateDb.Steps.{
  Step, Steps, done, next, reads_slot, writes_slot, reads_committed, adds_refund, subs_refund,
  sets_nonce, sets_code, subs_balance, adds_balance, suicides, reads_nonce, reads_code,
  reads_code_hash, reads_balance, asks_exist, asks_empty, logs_one, takes_snapshot, reverts,
}

module _ (keccak : List ℕ → List ℕ) (w : Word256) (m : SortedMap) where
  open m use {Db}

  -- The snapshot `sn` at `id`, the snapshots before it, the logs that it counts and what lies
  -- below the cache are still those of the state `base`.
  pub record Guards (id : ℕ) (base : StateDb Db) (sn : Snapshot Db) (t : StateDb Db) : Type 0 where
    pub at_id : get_elem? t.snapshots id ≡ some sn
    pub before : take id t.snapshots ≡ base.snapshots
    pub logs_long : sn.logs_size ≤ length t.logs
    pub logs_same : take sn.logs_size t.logs ≡ base.logs
    pub later :
        (i : ℕ) (x : Snapshot Db)
        → id ≤ i
        → get_elem? t.snapshots i ≡ some x
        → sn.logs_size ≤ x.logs_size
    pub memdb_same : t.cache_db.backend.memdb ≡ base.cache_db.backend.memdb
    pub store_same : t.cache_db.backend.store ≡ base.cache_db.backend.store

  panic_ne_ok : {a : StateDb Db} → panic ≡ ok a → ⊥
  panic_ne_ok h = cc

  pub revert_none :
      (j : ℕ) (s : StateDb Db) → get_elem? s.snapshots j ≡ none → revert_to_snapshot w m j s ≡ panic
  unfolding revert_to_snapshot
  revert_none j s e = rw (e, revert_to_snapshot)

  pub revert_some :
      (j : ℕ) (x : Snapshot Db) (s : StateDb Db)
      → get_elem? s.snapshots j ≡ some x
      → revert_to_snapshot w m j s ≡ ok (restore w m x j s)
  unfolding revert_to_snapshot
  revert_some j x s e = rw (e, revert_to_snapshot)

  result_frame {ℓ} :
      {A : Type ℓ} (s t : StateDb Db) (r : A) (call : Outcome (A × StateDb Db))
      → Post (λ (x : A × StateDb Db). SameFrame w m s x.1) call
      → call ≡ ok (r, t)
      → SameFrame w m s t
  result_frame {A} s t r call h run =
      Post-ok (λ (x : A × StateDb Db). SameFrame w m s x.1) call (r, t) h run

  -- the refund counter is outside the frame
  refund_frame : (s : StateDb Db) (gas : ℕ) → SameFrame w m s (record s { refund = gas })
  refund_frame s gas = record {
    snapshots_kept = refl;
    logs_kept = refl;
    backend_kept = record { memdb_kept = refl; store_kept = refl };
  }

  sub_refund-frame : (gas : ℕ) (s t : StateDb Db) → sub_refund w m gas s ≡ ok t → SameFrame w m s t
  unfolding sub_refund
  sub_refund-frame gas s t run = choose (ltb s.refund gas) run
    where
      choose :
          (b : Bool)
          → (if b then panic else ok (record s { refund = s.refund - gas })) ≡ ok t
          → SameFrame w m s t
      choose true e = absurd (panic_ne_ok e)
      choose false e = rw (← ok_inj e) (refund_frame s (s.refund - gas))

  module _ (id : ℕ) (base : StateDb Db) (sn : Snapshot Db) where
    frame-Guards :
        {s t : StateDb Db} → Guards id base sn s → SameFrame w m s t → Guards id base sn t
    frame-Guards g f = record {
      at_id = rw f.snapshots_kept g.at_id;
      before = rw f.snapshots_kept g.before;
      logs_long = rw f.logs_kept g.logs_long;
      logs_same = rw f.logs_kept g.logs_same;
      later = λ i x h e. g.later i x h (rw f.snapshots_kept at e);
      memdb_same = f.backend_kept.memdb_kept ∙ g.memdb_same;
      store_same = f.backend_kept.store_kept ∙ g.store_same;
    }

    add_log-Guards :
        (log : StorageLog) (s : StateDb Db)
        → Guards id base sn s
        → Guards id base sn (add_log w m log s)
    unfolding add_log
    add_log-Guards log s g = record {
      at_id = g.at_id;
      before = g.before;
      logs_long = omega (arith, g.logs_long, length-append s.logs (log ∷ []));
      logs_same = take-append sn.logs_size s.logs (log ∷ []) g.logs_long ∙ g.logs_same;
      later = g.later;
      memdb_same = g.memdb_same;
      store_same = g.store_same;
    }

    snapshot-Guards : (s : StateDb Db) → Guards id base sn s → Guards id base sn (snapshot w m s).1
    unfolding snapshot take_snapshot
    snapshot-Guards s g = record {
      at_id = get_elem?-append_left s.snapshots _ id sn g.at_id;
      before =
          take-append id s.snapshots _
            (omega (arith, lt-length_of_get_elem? s.snapshots id sn g.at_id))
          ∙ g.before;
      logs_long = g.logs_long;
      logs_same = g.logs_same;
      later = λ i x h e. elim (get_elem?-append_one s.snapshots _ i x e) [
        | inl old ↦ g.later i x h old
        | inr new ↦ rw new g.logs_long
      ];
      memdb_same = g.memdb_same;
      store_same = g.store_same;
    }

    restore-Guards :
        (j : ℕ) (x : Snapshot Db) (s : StateDb Db)
        → suc id ≤ j
        → get_elem? s.snapshots j ≡ some x
        → Guards id base sn s
        → Guards id base sn (restore w m x j s)
    unfolding restore
    restore-Guards j x s above e g =
        let long : sn.logs_size ≤ x.logs_size = g.later j x (omega arith) e in
        record {
          at_id = get_elem?-take_lt j id s.snapshots above ∙ g.at_id;
          before = take-take id j s.snapshots (omega arith) ∙ g.before;
          logs_long = omega (arith, long, length-take x.logs_size s.logs, g.logs_long);
          logs_same = take-take sn.logs_size x.logs_size s.logs long ∙ g.logs_same;
          later = λ i y h e'. g.later i y h (get_elem?-take-some j i s.snapshots y e');
          memdb_same = g.memdb_same;
          store_same = g.store_same;
        }

    revert-Guards :
        (j : ℕ) (s t : StateDb Db)
        → suc id ≤ j
        → revert_to_snapshot w m j s ≡ ok t
        → Guards id base sn s
        → Guards id base sn t
    revert-Guards j s t above run g = elim (Option-cases (get_elem? s.snapshots j)) [
      | inl e ↦ absurd (panic_ne_ok (sym (revert_none j s e) ∙ run))
      | inr (x, e) ↦
          rw (← ok_inj (sym (revert_some j x s e) ∙ run)) (restore-Guards j x s above e g)
    ]

    Step-Guards :
        {s t : StateDb Db}
        → Step keccak w m (suc id) s t
        → Guards id base sn s
        → Guards id base sn t
    unfolding add_refund
    Step-Guards (reads_slot contract key s) g =
        frame-Guards g (get_state-Frame keccak w m contract key s)
    Step-Guards (writes_slot contract key value s) g =
        frame-Guards g (set_state-Frame keccak w m contract key value s)
    Step-Guards (reads_committed addr key s) g =
        frame-Guards g (get_committed_state-Frame keccak w m addr key s)
    Step-Guards (adds_refund gas s) g = frame-Guards g (refund_frame s _)
    Step-Guards (subs_refund gas {s} {t} run) g = frame-Guards g (sub_refund-frame gas s t run)
    Step-Guards (sets_nonce addr nonce {s} {t} run) g =
        frame-Guards g
          (Post-ok (SameFrame w m s) _ t (set_nonce-Frames keccak w m addr nonce s) run)
    Step-Guards (sets_code addr code {s} {t} run) g =
        frame-Guards g (Post-ok (SameFrame w m s) _ t (set_code-Frames keccak w m addr code s) run)
    Step-Guards (subs_balance addr val {s} {t} run) g =
        frame-Guards g
          (Post-ok (SameFrame w m s) _ t (sub_balance-Frames keccak w m addr val s) run)
    Step-Guards (adds_balance addr val {s} {t} run) g =
        frame-Guards g
          (Post-ok (SameFrame w m s) _ t (add_balance-Frames keccak w m addr val s) run)
    Step-Guards (suicides addr r {s} {t} run) g =
        frame-Guards g (result_frame s t r _ (suicide-Frames keccak w m addr s) run)
    Step-Guards (reads_nonce addr r {s} {t} run) g =
        frame-Guards g (result_frame s t r _ (get_nonce-Frames keccak w m addr s) run)
    Step-Guards (reads_code addr r {s} {t} run) g =
        frame-Guards g (result_frame s t r _ (get_code-Frames keccak w m addr s) run)
    Step-Guards (reads_code_hash addr r {s} {t} run) g =
        frame-Guards g (result_frame s t r _ (get_code_hash-Frames keccak w m addr s) run)
    Step-Guards (reads_balance addr r {s} {t} run) g =
        frame-Guards g (result_frame s t r _ (get_balance-Frames keccak w m addr s) run)
    Step-Guards (asks_exist addr r {s} {t} run) g =
        frame-Guards g (result_frame s t r _ (exist-Frames keccak w m addr s) run)
    Step-Guards (asks_empty addr r {s} {t} run) g =
        frame-Guards g (result_frame s t r _ (empty-Frames keccak w m addr s) run)
    Step-Guards (logs_one log s) g = add_log-Guards log s g
    Step-Guards (takes_snapshot s) g = snapshot-Guards s g
    Step-Guards (reverts idx {s} {t} above run) g = revert-Guards idx s t above run g

    pub Steps-Guards :
        {s t : StateDb Db}
        → Guards id base sn s
        → Steps keccak w m (suc id) s t
        → Guards id base sn t
    Steps-Guards g done = g
    Steps-Guards g (next steps step) = Step-Guards step (Steps-Guards g steps)

  pub snapshot-Guards_start :
      (s : StateDb Db) → Guards (length s.snapshots) s (take_snapshot w m s) (snapshot w m s).1
  unfolding snapshot take_snapshot
  snapshot-Guards_start s = record {
    at_id = get_elem?-append_length s.snapshots _ [];
    before = take-append_self s.snapshots _;
    logs_long = omega arith;
    logs_same = take-length s.logs;
    later = λ i x h e. elim (get_elem?-append_one s.snapshots _ i x e) [
      | inl old ↦ absurd (omega (arith, lt-length_of_get_elem? s.snapshots i x old))
      | inr new ↦ rw new (omega arith)
    ];
    memdb_same = refl;
    store_same = refl;
  }
