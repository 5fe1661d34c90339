-- ===== src/Evm/Calls/Undone.antt =====
-- evm/evm.go: what a call that returns an error leaves.
use web.Base.{
  ℕ, suc, ◌≡◌, refl, Bool, true, false, not, ◌&&◌, List, ◌==◌, ltb, leb, if◌then◌else◌, length,
  Outcome, ok, panic, ◌>>=◌, Post, Post-bind, inl, inr,
}
use web.Storage.SortedMap.{SortedMap}
use web.Storage.Word256.{Word256}
use web.Storage.StateDb.{StateDb, snapshot}
use web.Storage.StateDb.Operations.{get_balance, add_balance, exist}
use web.Evm.Contract.{Contract}
use web.Evm.Calls.{
  depth_exceeded, insufficient_balance, call_create_depth, Ran, Caller, account, contract,
  address_of, contract_of, Evm, failed, succeeded, can_transfer, transfer, call_moving,
  call_checked, call, snapshot_and_run, call_code, as_delegate, delegate_call, static_call,
  is_precompiled,
}
use web.Evm.Calls.Leads.{
  either, Leads, Leads-trans, Leads-refl, IsContained, exist-Leads, add_balance-Leads,
  transfer-Leads,
}
use web.Evm.Calls.Runs.{run_at-Keeps, run_called-Keeps, contract_of-gas}
use web.Evm.Calls.Errors.{IsRead, IsUndone, failed-IsUndone, run-IsUndone, snapshot_deep}

module _ (keccak : List ℕ → List ℕ) (w : Word256) (m : SortedMap) where
  open m use {Db}

  module _ (evm : Evm keccak w m) (contained : IsContained keccak w m evm) where
    guarded-IsUndone :
        (addr : List ℕ) (gas : ℕ) (s : StateDb Db) (run : Outcome (Ran Db))
        → Post (IsUndone keccak w m addr s) run
        → Post (IsUndone keccak w m addr s) (
            if evm.no_recursion && ltb 0 evm.depth
            then succeeded keccak w m gas s
            else (if ltb call_create_depth evm.depth
                then failed keccak w m depth_exceeded gas s
                else run))
    unfolding succeeded
    guarded-IsUndone addr gas s run undone =
        either (evm.no_recursion && ltb 0 evm.depth) (IsUndone keccak w m addr s) _ _ (inl refl) (
          either (ltb call_create_depth evm.depth) (IsUndone keccak w m addr s) _ _
            (failed-IsUndone keccak w m addr depth_exceeded gas s s (inl refl) (inr (inl refl)))
            undone)

    funded-IsUndone :
        (addr : List ℕ) (value gas : ℕ) (s : StateDb Db) (run : StateDb Db → Outcome (Ran Db))
        → ((t : StateDb Db)
            → IsRead keccak w m addr s t
            → Post (IsUndone keccak w m addr s) (run t))
        → Post (IsUndone keccak w m addr s) (
            can_transfer keccak w m addr value s >>= λ r.
            if r.0 then run r.1 else failed keccak w m insufficient_balance gas r.1)
    unfolding can_transfer
    funded-IsUndone addr value gas s run undone = go (get_balance keccak w m addr s) refl
      where
        asked : Outcome (ℕ × StateDb Db) → Outcome (Bool × StateDb Db)
        asked r = r >>= λ x. ok (leb value x.0, x.1)

        go :
            (r : Outcome (ℕ × StateDb Db))
            → get_balance keccak w m addr s ≡ r
            → Post (IsUndone keccak w m addr s) (
                asked r >>= λ r.
                if r.0 then run r.1 else failed keccak w m insufficient_balance gas r.1)
        go panic e = tt
        go (ok (balance, t)) e =
            either (leb value balance) (IsUndone keccak w m addr s) _ _
              (undone t (inr (balance, e)))
              (failed-IsUndone keccak w m addr insufficient_balance gas s t (inr (balance, e))
                (inr (inr refl)))

    call_checked-IsUndone :
        (caller : Caller) (addr input : List ℕ) (gas value : ℕ) (s t : StateDb Db)
        → IsRead keccak w m (address_of caller) s t
        → Post
            (IsUndone keccak w m (address_of caller) s)
            (call_checked keccak w m evm caller addr input gas value t)
    unfolding call_checked call_moving snapshot succeeded
    call_checked-IsUndone caller addr input gas value s t read =
        let depth = suc (length t.snapshots) in
        Post-bind (λ (r : Bool × StateDb Db). Leads keccak w m depth (snapshot w m t).1 r.1)
          (IsUndone keccak w m (address_of caller) s) (exist keccak w m addr (snapshot w m t).1) _
          (exist-Leads keccak w m depth (snapshot w m t).1 (snapshot_deep keccak w m t) addr)
          λ (found, u) asked.
            either
              (not found
                && (not (is_precompiled keccak w m evm addr) && (evm.is_eip158 && value == 0)))
              (IsUndone keccak w m (address_of caller) s) _ _ (inl refl)
              (Post-bind (Leads keccak w m depth u) (IsUndone keccak w m (address_of caller) s)
                (transfer keccak w m (address_of caller) addr value u) _
                (transfer-Leads keccak w m depth u (address_of caller) addr value asked.deep)
                λ v moved.
                  run-IsUndone keccak w m (address_of caller) s t v gas read
                    (Leads-trans keccak w m asked moved) _
                    (run_called-Keeps keccak w m evm contained depth caller addr input gas value v
                      moved.deep))

    call-IsUndone :
        (caller : Caller) (addr input : List ℕ) (gas value : ℕ) (s : StateDb Db)
        → Post
            (IsUndone keccak w m (address_of caller) s)
            (call keccak w m evm caller addr input gas value s)
    unfolding call
    call-IsUndone caller addr input gas value s = guarded-IsUndone (address_of caller) gas s _ (
        either (value == 0) (IsUndone keccak w m (address_of caller) s) _ _
          (call_checked-IsUndone caller addr input gas value s s (inl refl))
          (funded-IsUndone (address_of caller) value gas s
            (call_checked keccak w m evm caller addr input gas value)
            (λ t read. call_checked-IsUndone caller addr input gas value s t read)))

    snapshot_and_run-IsUndone :
        (from : List ℕ) (c : Contract) (addr input : List ℕ) (gas : ℕ) (s t : StateDb Db)
        → c.gas ≡ gas
        → IsRead keccak w m from s t
        → Post (IsUndone keccak w m from s) (snapshot_and_run keccak w m evm c addr input gas t)
    unfolding snapshot_and_run snapshot
    snapshot_and_run-IsUndone from c addr input gas s t has read =
        let depth = suc (length t.snapshots) in
        run-IsUndone keccak w m from s t (snapshot w m t).1 gas read
          (Leads-refl keccak w m depth (snapshot w m t).1 (snapshot_deep keccak w m t)) _
          (run_at-Keeps keccak w m evm contained depth c addr input gas false (snapshot w m t).1 has
            (snapshot_deep keccak w m t))

    call_code-IsUndone :
        (caller : Caller) (addr input : List ℕ) (gas value : ℕ) (s : StateDb Db)
        → Post
            (IsUndone keccak w m (address_of caller) s)
            (call_code keccak w m evm caller addr input gas value s)
    unfolding call_code
    call_code-IsUndone caller addr input gas value s =
        guarded-IsUndone (address_of caller) gas s _ (
          funded-IsUndone (address_of caller) value gas s
            (snapshot_and_run keccak w m evm (contract_of caller (address_of caller) value gas) addr
              input gas)
            (λ t read.
              snapshot_and_run-IsUndone (address_of caller)
                (contract_of caller (address_of caller) value gas) addr input gas s t
                (contract_of-gas caller (address_of caller) value gas) read))

    delegate_call-IsUndone :
        (caller : Caller) (addr input : List ℕ) (gas : ℕ) (s : StateDb Db)
        → Post
            (IsUndone keccak w m (address_of caller) s)
            (delegate_call keccak w m evm caller addr input gas s)
    unfolding delegate_call as_delegate
    delegate_call-IsUndone (contract parent) addr input gas s =
        guarded-IsUndone parent.self_address gas s _ (
          snapshot_and_run-IsUndone parent.self_address
            (as_delegate keccak w m evm parent
              (contract_of (contract parent) parent.self_address 0 gas))
            addr input gas s s (contract_of-gas (contract parent) parent.self_address 0 gas)
            (inl refl))
    delegate_call-IsUndone (account a) addr input gas s = guarded-IsUndone a gas s _ (
        either (is_precompiled keccak w m evm addr) (IsUndone keccak w m a s) _ panic
          (snapshot_and_run-IsUndone a (contract_of (account a) a 0 gas) addr input gas s s
            (contract_of-gas (account a) a 0 gas) (inl refl))
          tt)

    static_call-IsUndone :
        (caller : Caller) (addr input : List ℕ) (gas : ℕ) (s : StateDb Db)
        → Post
            (IsUndone keccak w m (address_of caller) s)
            (static_call keccak w m evm caller addr input gas s)
    unfolding static_call snapshot
    static_call-IsUndone caller addr input gas s =
        let depth = suc (length s.snapshots) in
        guarded-IsUndone (address_of caller) gas s _ (
          Post-bind (Leads keccak w m depth (snapshot w m s).1)
            (IsUndone keccak w m (address_of caller) s)
            (add_balance keccak w m addr 0 (snapshot w m s).1) _
            (add_balance-Leads keccak w m depth (snapshot w m s).1 (snapshot_deep keccak w m s) addr
              0)
            λ t touched.
              run-IsUndone keccak w m (address_of caller) s s t gas (inl refl) touched _ (
                run_at-Keeps keccak w m evm contained depth (contract_of caller addr 0 gas) addr
                  input gas true t (contract_of-gas caller addr 0 gas) touched.deep))

    -- Where the interpreter's runs change the state by operations that do not revert below the
    -- snapshots they found, and leave no more gas than they got, a Call, CallCode, DelegateCall
    -- or StaticCall that returns an error has restored the cache, the self-destructed accounts,
    -- the refund counter, the logs and the snapshots, to what they were before or when the
    -- caller's balance had been read; its gas is gone unless the code reverted, the depth was
    -- exceeded or the balance was too low.
    pub calls-IsUndone :
        (caller : Caller) (addr input : List ℕ) (gas value : ℕ) (s : StateDb Db)
        → Post
            (IsUndone keccak w m (address_of caller) s)
            (call keccak w m evm caller addr input gas value s)
          × Post
              (IsUndone keccak w m (address_of caller) s)
              (call_code keccak w m evm caller addr input gas value s)
          × Post
              (IsUndone keccak w m (address_of caller) s)
              (delegate_call keccak w m evm caller addr input gas s)
          × Post
              (IsUndone keccak w m (address_of caller) s)
              (static_call keccak w m evm caller addr input gas s)
    calls-IsUndone caller addr input gas value s = (
      call-IsUndone caller addr input gas value s,
      call_code-IsUndone caller addr input gas value s,
      delegate_call-IsUndone caller addr input gas s,
      static_call-IsUndone caller addr input gas s,
    )
