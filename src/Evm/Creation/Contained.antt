-- ===== src/Evm/Creation/Contained.antt =====
-- evm/evm.go, create: the states that a creation leads to, and the gas that it returns.
use web.Base.{
  ℕ, ◌+◌, ◌-◌, ◌*◌, ◌%◌, ◌≤◌, Bool, false, ◌&&◌, ◌||◌, List, [], Option, none, some, ltb,
  if◌then◌else◌, length, Outcome, ok, panic, ◌>>=◌, Post, Post-bind, Post-imp, arith,
}
use web.Base.Bytes.{u64_mod}
use web.Storage.SortedMap.{SortedMap}
use web.Storage.Word256.{Word256}
use web.Storage.Account.{zero_hash}
use web.Storage.StateDb.{StateDb, snapshot, revert_to_snapshot}
use web.Storage.StateDb.Operations.{get_nonce, set_nonce, get_code_hash, set_code}
use web.Storage.StateDb.FrameOps.{set_nonce-Frames, set_code-Frames}
use web.Storage.StateDb.FrameResults.{get_nonce-Frames}
use web.Storage.StateDb.Steps.{sets_nonce, sets_code, reads_nonce}
use web.Evm.Contract.{Contract}
use web.Evm.Calls.{
  VmError, depth_exceeded, insufficient_balance, address_collision, code_store_out_of_gas,
  call_create_depth, create_data_gas, Ran, Caller, address_of, contract_of, Evm, failed, succeeded,
  can_transfer, transfer,
}
use web.Evm.Calls.Leads.{
  either, Leads, Leads-trans, Leads-refl, Keeps, IsContained, can_transfer-Leads,
  get_code_hash-Leads, snapshot-Leads, transfer-Leads, revert-Leads, read-Leads, write-Leads,
}
use web.Evm.Calls.Runs.{contract_of-gas}
use web.Evm.Creation.{
  no_address, Created, at_address, too_long, store_code, undoes, kept_gas, finish, deploy, touch,
  create_at, is_taken, create_funded, create, create1, create2,
}

module _ (keccak : List ℕ → List ℕ) (w : Word256) (m : SortedMap) where
  open m use {Db}

  pub get_nonce-Leads :
      (depth : ℕ) (s : StateDb Db) (addr : List ℕ)
      → depth ≤ length s.snapshots
      → Post (λ (r : ℕ × StateDb Db). Leads keccak w m depth s r.1) (get_nonce keccak w m addr s)
  get_nonce-Leads depth s addr deep =
      read-Leads keccak w m depth s deep (get_nonce keccak w m addr s)
        (get_nonce-Frames keccak w m addr s) (λ a t run. reads_nonce addr a run)

  pub set_nonce-Leads :
      (depth : ℕ) (s : StateDb Db) (addr : List ℕ) (nonce : ℕ)
      → depth ≤ length s.snapshots
      → Post (Leads keccak w m depth s) (set_nonce keccak w m addr nonce s)
  set_nonce-Leads depth s addr nonce deep =
      write-Leads keccak w m depth s deep (set_nonce keccak w m addr nonce s)
        (set_nonce-Frames keccak w m addr nonce s) (λ t run. sets_nonce addr nonce run)

  set_code-Leads :
      (depth : ℕ) (s : StateDb Db) (addr code : List ℕ)
      → depth ≤ length s.snapshots
      → Post (Leads keccak w m depth s) (set_code keccak w m addr code s)
  set_code-Leads depth s addr code deep =
      write-Leads keccak w m depth s deep (set_code keccak w m addr code s)
        (set_code-Frames keccak w m addr code s) (λ t run. sets_code addr code run)

  module _ (evm : Evm keccak w m) (contained : IsContained keccak w m evm) (depth : ℕ) where
    store_code-Keeps :
        (addr : List ℕ) (gas : ℕ) (s : StateDb Db) (r : Ran Db)
        → Keeps keccak w m depth s gas r
        → Post (Keeps keccak w m depth s gas) (store_code keccak w m evm addr r)
    unfolding store_code
    store_code-Keeps addr gas s r kept = go r.error
      where
        go :
            (e : Option VmError)
            → Post (Keeps keccak w m depth s gas) (elim e [
              | some e ↦ ok r
              | none ↦
                  let cost = (length r.output * create_data_gas) % u64_mod in
                  if too_long keccak w m evm r.output
                  then ok r
                  else (if ltb r.gas cost
                      then ok (record r { error = some code_store_out_of_gas })
                      else (set_code keccak w m addr r.output r.state >>= λ s'.
                          ok (record r { gas = r.gas - cost; state = s' })))
            ])
        go (some e) = kept
        go none =
            either (too_long keccak w m evm r.output) (Keeps keccak w m depth s gas) _ _ kept (
              either (ltb r.gas ((length r.output * create_data_gas) % u64_mod))
                (Keeps keccak w m depth s gas) _ _ kept
                (Post-bind (Leads keccak w m depth r.state) (Keeps keccak w m depth s gas)
                  (set_code keccak w m addr r.output r.state) _
                  (set_code-Leads depth r.state addr r.output kept.0.deep)
                  (λ t leads. (Leads-trans keccak w m kept.0 leads, omega (arith, kept.1)))))

    kept_gas-le : (e : Option VmError) (gas : ℕ) → kept_gas keccak w m evm e gas ≤ gas
    unfolding kept_gas
    kept_gas-le none gas = omega arith
    kept_gas-le (some e) gas = ground arith

    finish-Keeps :
        (long : Bool) (id gas : ℕ) (s : StateDb Db) (r : Ran Db)
        → depth ≤ id
        → Keeps keccak w m depth s gas r
        → Post (Keeps keccak w m depth s gas) (finish keccak w m evm long id r)
    unfolding finish
    finish-Keeps long id gas s r low kept =
        either (long || undoes keccak w m evm r.error) (Keeps keccak w m depth s gas) _ _
          (Post-bind (Leads keccak w m depth r.state) (Keeps keccak w m depth s gas)
            (revert_to_snapshot w m id r.state) _
            (revert-Leads keccak w m depth id r.state low kept.0.deep)
            (λ t leads. (
              Leads-trans keccak w m kept.0 leads,
              omega (arith, kept.1, kept_gas-le r.error r.gas),
            )))
          kept

    deploy-Keeps :
        (id : ℕ) (addr : List ℕ) (c : Contract) (s : StateDb Db)
        → depth ≤ id
        → depth ≤ length s.snapshots
        → Post (Keeps keccak w m depth s c.gas) (deploy keccak w m evm id addr c s)
    unfolding deploy succeeded
    deploy-Keeps id addr c s low deep =
        either (evm.no_recursion && ltb 0 evm.depth) (Keeps keccak w m depth s c.gas) _ _
          (Leads-refl keccak w m depth s deep, omega arith)
          (Post-bind (Keeps keccak w m depth s c.gas) (Keeps keccak w m depth s c.gas)
            (evm.run c [] false s) _ (contained depth c [] false s deep)
            λ r kept.
              Post-bind (Keeps keccak w m depth s c.gas) (Keeps keccak w m depth s c.gas)
                (store_code keccak w m evm addr r) _ (store_code-Keeps addr c.gas s r kept)
                (λ stored k.
                  finish-Keeps (too_long keccak w m evm r.output) id c.gas s stored low k))

    create_at-Keeps :
        (caller : Caller) (code hash : List ℕ) (gas value : ℕ) (addr : List ℕ) (s t : StateDb Db)
        → Leads keccak w m depth s t
        → Post
            (Keeps keccak w m depth s gas)
            (create_at keccak w m evm caller code hash gas value addr t)
    unfolding create_at touch snapshot
    create_at-Keeps caller code hash gas value addr s t leads =
        let snap : Leads keccak w m depth t (snapshot w m t).1 =
          snapshot-Leads keccak w m depth t leads.deep in
        Post-bind (Leads keccak w m depth (snapshot w m t).1) (Keeps keccak w m depth s gas)
          (touch keccak w m evm addr (snapshot w m t).1) _ (touched (snapshot w m t).1 snap.deep)
          λ u one.
            Post-bind (Leads keccak w m depth u) (Keeps keccak w m depth s gas)
              (transfer keccak w m (address_of caller) addr value u) _
              (transfer-Leads keccak w m depth u (address_of caller) addr value one.deep)
              λ v moved.
                let c = record (contract_of caller addr value gas) {
                  code = code;
                  code_hash = hash;
                  code_addr = some addr;
                } in
                Post-imp _ (Keeps keccak w m depth s gas)
                  (deploy keccak w m evm (length t.snapshots) addr c v)
                  (deploy-Keeps (length t.snapshots) addr c v leads.deep moved.deep)
                  (λ r k. (
                    Leads-trans keccak w m leads (
                        Leads-trans keccak w m snap
                          (Leads-trans keccak w m one (Leads-trans keccak w m moved k.0))),
                    omega (arith, k.1, contract_of-gas caller addr value gas),
                  ))
      where
        touched :
            (s : StateDb Db)
            → depth ≤ length s.snapshots
            → Post (Leads keccak w m depth s) (touch keccak w m evm addr s)
        touched s deep =
            either evm.is_eip158 (Leads keccak w m depth s) _ _
              (set_nonce-Leads depth s addr 1 deep) (Leads-refl keccak w m depth s deep)

    -- What a creation leaves: an address, and a run that keeps to its steps and its gas.
    abbrev CreatedKeeps : StateDb Db → ℕ → Created keccak w m → Type 0
    CreatedKeeps s gas r = Keeps keccak w m depth s gas r.1

    at_address-Keeps :
        (addr : List ℕ) (s : StateDb Db) (gas : ℕ) (result : Outcome (Ran Db))
        → Post (Keeps keccak w m depth s gas) result
        → Post (CreatedKeeps s gas) (at_address keccak w m addr result)
    unfolding at_address
    at_address-Keeps addr s gas (ok r) h = h
    at_address-Keeps addr s gas panic h = tt

    failed-CreatedKeeps :
        (e : VmError) (left gas : ℕ) (s t : StateDb Db)
        → left ≤ gas
        → Leads keccak w m depth s t
        → Post (CreatedKeeps s gas) (at_address keccak w m no_address (failed keccak w m e left t))
    unfolding failed at_address
    failed-CreatedKeeps e left gas s t le leads = (leads, le)

    create_funded-Keeps :
        (caller : Caller) (code hash : List ℕ) (gas value : ℕ) (addr : List ℕ) (s t : StateDb Db)
        → Leads keccak w m depth s t
        → Post (CreatedKeeps s gas) (create_funded keccak w m evm caller code hash gas value addr t)
    unfolding create_funded
    create_funded-Keeps caller code hash gas value addr s t leads =
        Post-bind (λ (r : ℕ × StateDb Db). Leads keccak w m depth t r.1) (CreatedKeeps s gas)
          (get_nonce keccak w m (address_of caller) t) _
          (get_nonce-Leads depth t (address_of caller) leads.deep)
          λ (nonce, t1) l1.
            Post-bind (Leads keccak w m depth t1) (CreatedKeeps s gas)
              (set_nonce keccak w m (address_of caller) ((nonce + 1) % u64_mod) t1) _
              (set_nonce-Leads depth t1 (address_of caller) ((nonce + 1) % u64_mod) l1.deep)
              λ t2 l2.
                Post-bind (λ (r : List ℕ × StateDb Db). Leads keccak w m depth t2 r.1)
                  (CreatedKeeps s gas) (get_code_hash keccak w m addr t2) _
                  (get_code_hash-Leads keccak w m depth t2 l2.deep addr)
                  λ (old_hash, t3) l3.
                    Post-bind (λ (r : ℕ × StateDb Db). Leads keccak w m depth t3 r.1)
                      (CreatedKeeps s gas) (get_nonce keccak w m addr t3) _
                      (get_nonce-Leads depth t3 addr l3.deep)
                      λ (old_nonce, t4) l4.
                        let way = Leads-trans keccak w m leads (
                          Leads-trans keccak w m l1
                            (Leads-trans keccak w m l2 (Leads-trans keccak w m l3 l4))) in
                        either (is_taken keccak w m evm old_nonce old_hash) (CreatedKeeps s gas) _ _
                          (failed-CreatedKeeps address_collision 0 gas s t4 (omega arith) way)
                          (at_address-Keeps addr s gas _
                            (create_at-Keeps caller code hash gas value addr s t4 way))

    pub create-Keeps :
        (caller : Caller) (code hash : List ℕ) (gas value : ℕ) (addr : List ℕ) (s t : StateDb Db)
        → Leads keccak w m depth s t
        → Post (CreatedKeeps s gas) (create keccak w m evm caller code hash gas value addr t)
    unfolding create
    create-Keeps caller code hash gas value addr s t leads =
        either (ltb call_create_depth evm.depth) (CreatedKeeps s gas) _ _
          (failed-CreatedKeeps depth_exceeded gas gas s t (omega arith) leads)
          (Post-bind (λ (r : Bool × StateDb Db). Leads keccak w m depth t r.1) (CreatedKeeps s gas)
            (can_transfer keccak w m (address_of caller) value t) _
            (can_transfer-Leads keccak w m depth t leads.deep (address_of caller) value)
            λ (enough, u) asked.
              let way = Leads-trans keccak w m leads asked in
              either enough (CreatedKeeps s gas) _ _
                (create_funded-Keeps caller code hash gas value addr s u way)
                (failed-CreatedKeeps insufficient_balance gas gas s u (omega arith) way))

  -- Where the interpreter's runs change the state by operations that do not revert below the
  -- snapshots they found, and leave no more gas than they got, the same is true of Create and
  -- Create2 at any depth of snapshots, if they return.
  pub creations-Keeps :
      (evm : Evm keccak w m) (contained : IsContained keccak w m evm) (depth : ℕ)
      (create_address : List ℕ → ℕ → List ℕ) (create_address2 : List ℕ → List ℕ → List ℕ → List ℕ)
      (caller : Caller) (code salt : List ℕ) (gas value : ℕ) (s : StateDb Db)
      → depth ≤ length s.snapshots
      → Post
          (λ (r : Created keccak w m). Keeps keccak w m depth s gas r.1)
          (create1 keccak w m evm create_address caller code gas value s)
        × Post
            (λ (r : Created keccak w m). Keeps keccak w m depth s gas r.1)
            (create2 keccak w m evm create_address2 caller code gas value salt s)
  unfolding create1 create2
  creations-Keeps evm contained depth create_address create_address2 caller code salt gas value s
        deep =
      (
        Post-bind (λ (r : ℕ × StateDb Db). Leads keccak w m depth s r.1)
            (λ (r : Created keccak w m). Keeps keccak w m depth s gas r.1)
            (get_nonce keccak w m (address_of caller) s) _
            (get_nonce-Leads depth s (address_of caller) deep)
            (λ (nonce, t) leads.
              create-Keeps evm contained depth caller code zero_hash gas value
                (create_address (address_of caller) nonce) s t leads),
        create-Keeps evm contained depth caller code (keccak code) gas value
            (create_address2 (address_of caller) salt (keccak code)) s s
            (Leads-refl keccak w m depth s deep),
      )
