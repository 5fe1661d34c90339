-- ===== src/Evm/Calls/Leads.antt =====
-- evm/evm.go: states that steps lead to, none of which goes below the snapshots of a call.
use web.Base.{
  ℕ, ap, ◌∷◌, ◌≤◌, ◌≡◌, refl, Bool, true, false, List, [], some, if◌then◌else◌, length, Outcome, ok,
  panic, Post, Post-bind, Post-imp, arith, inl, inr, Option-cases, length-append, length-take,
  get_elem?,
}
use web.Base.Indices.{lt-length_of_get_elem?}
use web.Storage.SortedMap.{SortedMap}
use web.Storage.Word256.{Word256}
use web.Storage.StateDb.{StateDb, Snapshot, snapshot, revert_to_snapshot, restore}
use web.Storage.StateDb.Operations.{
  get_balance, sub_balance, add_balance, get_code, get_code_hash, exist,
}
use web.Storage.StateDb.Frame.{SameFrame}
use web.Storage.StateDb.FrameOps.{sub_balance-Frames, add_balance-Frames}
use web.Storage.StateDb.FrameResults.{
  get_balance-Frames, exist-Frames, get_code-Frames, get_code_hash-Frames,
}
use web.Storage.StateDb.Steps.{
  Step, Steps, done, Steps-trans, one_step, subs_balance, adds_balance, reads_balance, reads_code,
  reads_code_hash, asks_exist, takes_snapshot, reverts,
}
use web.Storage.StateDb.Guards.{revert_some, revert_none}
use web.Evm.Contract.{Contract}
use web.Evm.Calls.{Ran, Evm, can_transfer, transfer, settle}

pub either {ℓ κ} :
    {A : Type ℓ} (b : Bool) (P : A → Type κ) (x y : Outcome A)
    → Post P x
    → Post P y
    → Post P (if b then x else y)
either true P x y hx hy = hx
either false P x y hx hy = hy

module _ (keccak : List ℕ → List ℕ) (w : Word256) (m : SortedMap) where
  open m use {Db}

  -- From a state to one that steps at `depth` lead to, with that many snapshots left.
  pub record Leads (depth : ℕ) (s t : StateDb Db) : Type 0 where
    pub steps : Steps keccak w m depth s t
    pub deep : depth ≤ length t.snapshots

  pub Leads-trans :
      {depth : ℕ} {s t u : StateDb Db} → Leads depth s t → Leads depth t u → Leads depth s u
  Leads-trans a b = record { steps = Steps-trans keccak w m a.steps b.steps; deep = b.deep }

  pub lead_once :
      {depth : ℕ} {s t : StateDb Db}
      → depth ≤ length s.snapshots
      → Step keccak w m depth s t
      → SameFrame w m s t
      → Leads depth s t
  lead_once deep step frame = record {
    steps = one_step keccak w m step;
    deep = omega (arith, ap length frame.snapshots_kept);
  }

  -- What a run leaves: a state that the steps lead to, and no more gas than it had.
  abbrev pub Keeps : ℕ → StateDb Db → ℕ → Ran Db → Type 0
  Keeps depth s gas r = Leads depth s r.state × (r.gas ≤ gas)

  -- What is asked of the interpreter, at every depth.
  abbrev pub IsContained : Evm keccak w m → Type 0
  IsContained evm =
      (depth : ℕ) (c : Contract) (input : List ℕ) (read_only : Bool) (s : StateDb Db)
      → depth ≤ length s.snapshots
      → Post (Keeps depth s c.gas) (evm.run c input read_only s)

  module _ (depth : ℕ) (s : StateDb Db) (deep : depth ≤ length s.snapshots) where
    pub read-Leads {ℓ} :
        {A : Type ℓ} (call : Outcome (A × StateDb Db))
        → Post (λ (r : A × StateDb Db). SameFrame w m s r.1) call
        → ((a : A) (t : StateDb Db) → call ≡ ok (a, t) → Step keccak w m depth s t)
        → Post (λ (r : A × StateDb Db). Leads depth s r.1) call
    read-Leads (ok (a, t)) frame step = lead_once deep (step a t refl) frame
    read-Leads panic frame step = tt

    pub write-Leads :
        (call : Outcome (StateDb Db))
        → Post (SameFrame w m s) call
        → ((t : StateDb Db) → call ≡ ok t → Step keccak w m depth s t)
        → Post (Leads depth s) call
    write-Leads (ok t) frame step = lead_once deep (step t refl) frame
    write-Leads panic frame step = tt

    pub can_transfer-Leads :
        (addr : List ℕ) (amount : ℕ)
        → Post
            (λ (r : Bool × StateDb Db). Leads depth s r.1)
            (can_transfer keccak w m addr amount s)
    unfolding can_transfer
    can_transfer-Leads addr amount =
        Post-bind (λ (r : ℕ × StateDb Db). Leads depth s r.1)
          (λ (r : Bool × StateDb Db). Leads depth s r.1) (get_balance keccak w m addr s) _
          (read-Leads (get_balance keccak w m addr s) (get_balance-Frames keccak w m addr s)
            (λ a t run. reads_balance addr a run))
          (λ r leads. leads)

    pub exist-Leads :
        (addr : List ℕ)
        → Post (λ (r : Bool × StateDb Db). Leads depth s r.1) (exist keccak w m addr s)
    exist-Leads addr =
        read-Leads (exist keccak w m addr s) (exist-Frames keccak w m addr s)
          (λ a t run. asks_exist addr a run)

    pub get_code-Leads :
        (addr : List ℕ)
        → Post (λ (r : List ℕ × StateDb Db). Leads depth s r.1) (get_code keccak w m addr s)
    get_code-Leads addr =
        read-Leads (get_code keccak w m addr s) (get_code-Frames keccak w m addr s)
          (λ a t run. reads_code addr a run)

    pub get_code_hash-Leads :
        (addr : List ℕ)
        → Post (λ (r : List ℕ × StateDb Db). Leads depth s r.1) (get_code_hash keccak w m addr s)
    get_code_hash-Leads addr =
        read-Leads (get_code_hash keccak w m addr s) (get_code_hash-Frames keccak w m addr s)
          (λ a t run. reads_code_hash addr a run)

    pub sub_balance-Leads :
        (addr : List ℕ) (val : ℕ) → Post (Leads depth s) (sub_balance keccak w m addr val s)
    sub_balance-Leads addr val =
        write-Leads (sub_balance keccak w m addr val s) (sub_balance-Frames keccak w m addr val s)
          (λ t run. subs_balance addr val run)

    pub add_balance-Leads :
        (addr : List ℕ) (val : ℕ) → Post (Leads depth s) (add_balance keccak w m addr val s)
    add_balance-Leads addr val =
        write-Leads (add_balance keccak w m addr val s) (add_balance-Frames keccak w m addr val s)
          (λ t run. adds_balance addr val run)

    pub snapshot-Leads : Leads depth s (snapshot w m s).1
    unfolding snapshot
    snapshot-Leads = record {
      steps = one_step keccak w m (takes_snapshot s);
      deep = omega (arith, length-append {0} s.snapshots (_ ∷ []));
    }

    pub Leads-refl : Leads depth s s
    Leads-refl = record { steps = done; deep = deep }

  pub transfer-Leads :
      (depth : ℕ) (s : StateDb Db) (sender recipient : List ℕ) (amount : ℕ)
      → depth ≤ length s.snapshots
      → Post (Leads depth s) (transfer keccak w m sender recipient amount s)
  unfolding transfer
  transfer-Leads depth s sender recipient amount deep =
      Post-bind (Leads depth s) (Leads depth s) (sub_balance keccak w m sender amount s) _
        (sub_balance-Leads depth s deep sender amount)
        λ t leads.
          Post-imp (Leads depth t) (Leads depth s) (add_balance keccak w m recipient amount t)
            (add_balance-Leads depth t leads.deep recipient amount)
            (λ u more. Leads-trans leads more)

  restore_deep :
      (depth id : ℕ) (s : StateDb Db) (sn : Snapshot Db)
      → depth ≤ id
      → get_elem? s.snapshots id ≡ some sn
      → depth ≤ length (restore w m sn id s).snapshots
  unfolding restore
  restore_deep depth id s sn low e =
      omega (arith, length-take id s.snapshots, lt-length_of_get_elem? s.snapshots id sn e)

  -- Reverting to a snapshot that was taken at the depth is a step, and leaves it.
  pub revert-Leads :
      (depth id : ℕ) (s : StateDb Db)
      → depth ≤ id
      → depth ≤ length s.snapshots
      → Post (Leads depth s) (revert_to_snapshot w m id s)
  revert-Leads depth id s low deep = elim (Option-cases (get_elem? s.snapshots id)) [
    | inl e ↦ rw (revert_none keccak w m id s e) tt
    | inr (sn, e) ↦
        let run : revert_to_snapshot w m id s ≡ ok (restore w m sn id s) =
          revert_some keccak w m id sn s e in
        rw run (record {
          steps = one_step keccak w m (reverts id low run);
          deep = restore_deep depth id s sn low e;
        })
  ]

  -- A run that began at a snapshot ends above it, with the gas it had at most.
  pub settle-Keeps :
      (depth id gas : ℕ) (s : StateDb Db) (r : Ran Db)
      → depth ≤ id
      → Keeps depth s gas r
      → Post (Keeps depth s gas) (settle keccak w m id r)
  unfolding settle
  settle-Keeps depth id gas s r low h = elim (Option-cases r.error) [
    | inl fine ↦ rw fine h
    | inr (e, wrong) ↦ rw wrong (
        Post-bind (Leads depth r.state) (Keeps depth s gas) (revert_to_snapshot w m id r.state) _
          (revert-Leads depth id r.state low h.0.deep)
          (λ t leads. (Leads-trans h.0 leads, ground (arith, h.1))))
  ]
