-- ===== src/Evm/Calls/Contained.antt =====
-- evm/evm.go: the states that each of the four calls leads to, and the gas that it returns.
use web.Base.{
  ℕ, ◌≤◌, ◌≡◌, Bool, true, false, not, ◌&&◌, List, ◌==◌, ltb, if◌then◌else◌, length, Outcome, panic,
  ◌>>=◌, Post, Post-bind, Post-imp, arith,
}
use web.Storage.SortedMap.{SortedMap}
use web.Storage.Word256.{Word256}
use web.Storage.StateDb.{StateDb, snapshot}
use web.Storage.StateDb.Operations.{add_balance, exist}
use web.Evm.Contract.{Contract}
use web.Evm.Calls.{
  VmError, depth_exceeded, insufficient_balance, call_create_depth, Ran, Caller, account, contract,
  address_of, contract_of, Evm, failed, succeeded, can_transfer, transfer, settle, call_moving,
  call_checked, call, snapshot_and_run, call_code, as_delegate, delegate_call, static_call,
  is_precompiled,
}
use web.Evm.Calls.Leads.{
  either, Leads, Leads-trans, Leads-refl, Keeps, IsContained, can_transfer-Leads, exist-Leads,
  add_balance-Leads, snapshot-Leads, transfer-Leads, settle-Keeps,
}
use web.Evm.Calls.Runs.{run_at-Keeps, run_called-Keeps, contract_of-gas}

module _ (keccak : List ℕ → List ℕ) (w : Word256) (m : SortedMap) where
  open m use {Db}

  module _ (evm : Evm keccak w m) (contained : IsContained keccak w m evm) (depth : ℕ) where
    -- From a state before a snapshot on.
    after_snapshot :
        (s t : StateDb Db) (gas id : ℕ)
        → Leads keccak w m depth s t
        → depth ≤ id
        → (run : Outcome (Ran Db)) → Post (Keeps keccak w m depth t gas) run
        → Post (Keeps keccak w m depth s gas) (run >>= settle keccak w m id)
    after_snapshot s t gas id leads low run kept =
        Post-bind (Keeps keccak w m depth t gas) (Keeps keccak w m depth s gas) run _ kept λ r h.
          Post-imp _ (Keeps keccak w m depth s gas) (settle keccak w m id r)
            (settle-Keeps keccak w m depth id gas t r low h)
            (λ r' k. (Leads-trans keccak w m leads k.0, k.1))

    call_moving-Keeps :
        (caller : Caller) (addr input : List ℕ) (gas value id : ℕ) (s t : StateDb Db)
        → Leads keccak w m depth s t
        → depth ≤ id
        → Post
            (Keeps keccak w m depth s gas)
            (call_moving keccak w m evm caller addr input gas value id t)
    unfolding call_moving
    call_moving-Keeps caller addr input gas value id s t leads low =
        Post-bind (Leads keccak w m depth t) (Keeps keccak w m depth s gas)
          (transfer keccak w m (address_of caller) addr value t) _
          (transfer-Leads keccak w m depth t (address_of caller) addr value leads.deep)
          λ u moved. after_snapshot s u gas id (Leads-trans keccak w m leads moved) low _ (
            run_called-Keeps keccak w m evm contained depth caller addr input gas value u
              moved.deep)

    call_checked-Keeps :
        (caller : Caller) (addr input : List ℕ) (gas value : ℕ) (s t : StateDb Db)
        → Leads keccak w m depth s t
        → Post
            (Keeps keccak w m depth s gas)
            (call_checked keccak w m evm caller addr input gas value t)
    unfolding call_checked snapshot succeeded
    call_checked-Keeps caller addr input gas value s t leads =
        let snap : Leads keccak w m depth t (snapshot w m t).1 =
          snapshot-Leads keccak w m depth t leads.deep in
        Post-bind (λ (r : Bool × StateDb Db). Leads keccak w m depth (snapshot w m t).1 r.1)
          (Keeps keccak w m depth s gas) (exist keccak w m addr (snapshot w m t).1) _
          (exist-Leads keccak w m depth (snapshot w m t).1 snap.deep addr)
          λ (found, u) asked.
            let way = Leads-trans keccak w m leads (Leads-trans keccak w m snap asked) in
            split found u way
      where
        split :
            (found : Bool) (u : StateDb Db)
            → Leads keccak w m depth s u
            → Post (Keeps keccak w m depth s gas) (
                if not found
                  && (not (is_precompiled keccak w m evm addr) && (evm.is_eip158 && value == 0))
                then succeeded keccak w m gas u
                else call_moving keccak w m evm caller addr input gas value (length t.snapshots) u)
        split found u way =
            either
              (not found
                && (not (is_precompiled keccak w m evm addr) && (evm.is_eip158 && value == 0)))
              (Keeps keccak w m depth s gas) _ _ (way, omega arith)
              (call_moving-Keeps caller addr input gas value (length t.snapshots) s u way
                leads.deep)

    -- The early returns of every call.
    pub failed-Keeps :
        (e : VmError) (gas : ℕ) (s t : StateDb Db)
        → Leads keccak w m depth s t
        → Post (Keeps keccak w m depth s gas) (failed keccak w m e gas t)
    unfolding failed
    failed-Keeps e gas s t leads = (leads, omega arith)

    pub succeeded-Keeps :
        (gas : ℕ) (s t : StateDb Db)
        → Leads keccak w m depth s t
        → Post (Keeps keccak w m depth s gas) (succeeded keccak w m gas t)
    unfolding succeeded
    succeeded-Keeps gas s t leads = (leads, omega arith)

    guarded-Keeps :
        (gas : ℕ) (s : StateDb Db)
        → depth ≤ length s.snapshots
        → (run : Outcome (Ran Db)) → Post (Keeps keccak w m depth s gas) run
        → Post (Keeps keccak w m depth s gas) (
            if evm.no_recursion && ltb 0 evm.depth
            then succeeded keccak w m gas s
            else (if ltb call_create_depth evm.depth
                then failed keccak w m depth_exceeded gas s
                else run))
    guarded-Keeps gas s deep run kept =
        either (evm.no_recursion && ltb 0 evm.depth) (Keeps keccak w m depth s gas) _ _
          (succeeded-Keeps gas s s (Leads-refl keccak w m depth s deep))
          (either (ltb call_create_depth evm.depth) (Keeps keccak w m depth s gas) _ _
            (failed-Keeps depth_exceeded gas s s (Leads-refl keccak w m depth s deep)) kept)

    -- The check of the caller's balance.
    funded-Keeps :
        (addr : List ℕ) (value gas : ℕ) (s : StateDb Db)
        → depth ≤ length s.snapshots
        → (run : StateDb Db → Outcome (Ran Db))
        → ((t : StateDb Db)
            → Leads keccak w m depth s t
            → Post (Keeps keccak w m depth s gas) (run t))
        → Post (Keeps keccak w m depth s gas) (
            can_transfer keccak w m addr value s >>= λ r.
            if r.0 then run r.1 else failed keccak w m insufficient_balance gas r.1)
    funded-Keeps addr value gas s deep run kept =
        Post-bind (λ (r : Bool × StateDb Db). Leads keccak w m depth s r.1)
          (Keeps keccak w m depth s gas) (can_transfer keccak w m addr value s) _
          (can_transfer-Leads keccak w m depth s deep addr value)
          λ (enough, t) leads. split enough t leads
      where
        split :
            (enough : Bool) (t : StateDb Db)
            → Leads keccak w m depth s t
            → Post
                (Keeps keccak w m depth s gas)
                (if enough then run t else failed keccak w m insufficient_balance gas t)
        split true t leads = kept t leads
        split false t leads = failed-Keeps insufficient_balance gas s t leads

    pub call-Keeps :
        (caller : Caller) (addr input : List ℕ) (gas value : ℕ) (s : StateDb Db)
        → depth ≤ length s.snapshots
        → Post (Keeps keccak w m depth s gas) (call keccak w m evm caller addr input gas value s)
    unfolding call
    call-Keeps caller addr input gas value s deep = guarded-Keeps gas s deep _ (
        either (value == 0) (Keeps keccak w m depth s gas) _ _
          (call_checked-Keeps caller addr input gas value s s (Leads-refl keccak w m depth s deep))
          (funded-Keeps (address_of caller) value gas s deep
            (call_checked keccak w m evm caller addr input gas value)
            (λ t leads. call_checked-Keeps caller addr input gas value s t leads)))

    snapshot_and_run-Keeps :
        (c : Contract) (addr input : List ℕ) (gas : ℕ) (s t : StateDb Db)
        → c.gas ≡ gas
        → Leads keccak w m depth s t
        → Post (Keeps keccak w m depth s gas) (snapshot_and_run keccak w m evm c addr input gas t)
    unfolding snapshot_and_run snapshot
    snapshot_and_run-Keeps c addr input gas s t has leads =
        let snap : Leads keccak w m depth t (snapshot w m t).1 =
          snapshot-Leads keccak w m depth t leads.deep in
        after_snapshot s (snapshot w m t).1 gas (length t.snapshots)
          (Leads-trans keccak w m leads snap) leads.deep _
          (run_at-Keeps keccak w m evm contained depth c addr input gas false (snapshot w m t).1 has
            snap.deep)

    pub call_code-Keeps :
        (caller : Caller) (addr input : List ℕ) (gas value : ℕ) (s : StateDb Db)
        → depth ≤ length s.snapshots
        → Post
            (Keeps keccak w m depth s gas)
            (call_code keccak w m evm caller addr input gas value s)
    unfolding call_code
    call_code-Keeps caller addr input gas value s deep = guarded-Keeps gas s deep _ (
        funded-Keeps (address_of caller) value gas s deep
          (snapshot_and_run keccak w m evm (contract_of caller (address_of caller) value gas) addr
            input gas)
          (λ t leads.
            snapshot_and_run-Keeps (contract_of caller (address_of caller) value gas) addr input gas
              s t (contract_of-gas caller (address_of caller) value gas) leads))

    pub delegate_call-Keeps :
        (caller : Caller) (addr input : List ℕ) (gas : ℕ) (s : StateDb Db)
        → depth ≤ length s.snapshots
        → Post (Keeps keccak w m depth s gas) (delegate_call keccak w m evm caller addr input gas s)
    unfolding delegate_call as_delegate
    delegate_call-Keeps (contract parent) addr input gas s deep = guarded-Keeps gas s deep _ (
        snapshot_and_run-Keeps
          (as_delegate keccak w m evm parent
            (contract_of (contract parent) parent.self_address 0 gas))
          addr input gas s s (contract_of-gas (contract parent) parent.self_address 0 gas)
          (Leads-refl keccak w m depth s deep))
    delegate_call-Keeps (account a) addr input gas s deep = guarded-Keeps gas s deep _ (
        either (is_precompiled keccak w m evm addr) (Keeps keccak w m depth s gas) _ panic
          (snapshot_and_run-Keeps (contract_of (account a) a 0 gas) addr input gas s s
            (contract_of-gas (account a) a 0 gas) (Leads-refl keccak w m depth s deep))
          tt)

    pub static_call-Keeps :
        (caller : Caller) (addr input : List ℕ) (gas : ℕ) (s : StateDb Db)
        → depth ≤ length s.snapshots
        → Post (Keeps keccak w m depth s gas) (static_call keccak w m evm caller addr input gas s)
    unfolding static_call snapshot
    static_call-Keeps caller addr input gas s deep =
        let snap : Leads keccak w m depth s (snapshot w m s).1 =
          snapshot-Leads keccak w m depth s deep in
        guarded-Keeps gas s deep _ (
          Post-bind (Leads keccak w m depth (snapshot w m s).1) (Keeps keccak w m depth s gas)
            (add_balance keccak w m addr 0 (snapshot w m s).1) _
            (add_balance-Leads keccak w m depth (snapshot w m s).1 snap.deep addr 0)
            λ t touched.
              after_snapshot s t gas (length s.snapshots) (Leads-trans keccak w m snap touched) deep
                _
                (run_at-Keeps keccak w m evm contained depth (contract_of caller addr 0 gas) addr
                  input gas true t (contract_of-gas caller addr 0 gas) touched.deep))

  -- Where the interpreter's runs change the state by operations that do not revert below the
  -- snapshots they found, and leave no more gas than they got, the same is true of Call,
  -- CallCode, DelegateCall and StaticCall at any depth of snapshots, if they return.
  pub calls-Keeps :
      (evm : Evm keccak w m) (contained : IsContained keccak w m evm) (depth : ℕ) (caller : Caller)
      (addr input : List ℕ) (gas value : ℕ) (s : StateDb Db)
      → depth ≤ length s.snapshots
      → Post (Keeps keccak w m depth s gas) (call keccak w m evm caller addr input gas value s)
        × Post
            (Keeps keccak w m depth s gas)
            (call_code keccak w m evm caller addr input gas value s)
        × Post (Keeps keccak w m depth s gas) (delegate_call keccak w m evm caller addr input gas s)
        × Post (Keeps keccak w m depth s gas) (static_call keccak w m evm caller addr input gas s)
  calls-Keeps evm contained depth caller addr input gas value s deep = (
    call-Keeps evm contained depth caller addr input gas value s deep,
    call_code-Keeps evm contained depth caller addr input gas value s deep,
    delegate_call-Keeps evm contained depth caller addr input gas s deep,
    static_call-Keeps evm contained depth caller addr input gas s deep,
  )
