-- ===== src/Evm/Calls/Errors.antt =====
-- evm/evm.go: the state and the gas that a run which ends in an error leaves behind.
use web.Base.{
  ℕ, suc, ◌≤◌, ◌≡◌, ◌⊎◌, refl, List, [], ◌∷◌, none, some, if◌then◌else◌, length, length-append,
  Outcome, ok, ◌>>=◌, Post, Post-bind, arith, inl, inr, Option-cases,
}
use web.Storage.SortedMap.{SortedMap}
use web.Storage.Word256.{Word256}
use web.Storage.StateDb.{StateDb, snapshot, revert_to_snapshot}
use web.Storage.StateDb.Operations.{get_balance}
use web.Storage.StateDb.Steps.{Steps}
use web.Storage.StateDb.Revert.{Restored, revert-snapshot}
use web.Evm.Calls.{
  VmError, is_reverted, depth_exceeded, insufficient_balance, execution_reverted, Ran, failed,
  settle,
}
use web.Evm.Calls.Leads.{Leads, Leads-trans, Keeps}

module _ (keccak : List ℕ → List ℕ) (w : Word256) (m : SortedMap) where
  open m use {Db}

  -- The state itself, or as it is when the balance of an account has been read.
  abbrev pub IsRead : List ℕ → StateDb Db → StateDb Db → Type 0
  IsRead addr s t = (t ≡ s) ⊎ ((balance : ℕ) × (get_balance keccak w m addr s ≡ ok (balance, t)))

  -- The errors after which the gas is kept.
  abbrev pub KeepsGas : VmError → Type 0
  KeepsGas e = (e ≡ execution_reverted) ⊎ ((e ≡ depth_exceeded) ⊎ (e ≡ insufficient_balance))

  -- No error, or the state is restored, and the gas is gone unless the error keeps it.
  abbrev pub IsUndone : List ℕ → StateDb Db → Ran Db → Type 0
  IsUndone addr s r =
      (r.error ≡ none)
      ⊎ ((e : VmError) × (r.error ≡ some e)
          × ((t : StateDb Db) × IsRead addr s t × Restored keccak w m t r.state)
          × ((r.gas ≡ 0) ⊎ KeepsGas e))

  Restored-refl : (s : StateDb Db) → Restored keccak w m s s
  Restored-refl s = record {
    memdb = refl;
    backend_memdb = refl;
    backend_store = refl;
    suicided = refl;
    refund = refl;
    logs = refl;
    snapshots = refl;
  }

  pub failed-IsUndone :
      (addr : List ℕ) (e : VmError) (gas : ℕ) (s t : StateDb Db)
      → IsRead addr s t
      → KeepsGas e
      → Post (IsUndone addr s) (failed keccak w m e gas t)
  unfolding failed
  failed-IsUndone addr e gas s t read keeps = inr (e, refl, (t, read, Restored-refl t), inr keeps)

  reverted_or_gone : (e : VmError) (gas : ℕ) → ((if is_reverted e then gas else 0) ≡ 0) ⊎ KeepsGas e
  reverted_or_gone execution_reverted gas = inr (inl refl)
  reverted_or_gone e gas = inl refl

  settle_fine : (id : ℕ) (r : Ran Db) → r.error ≡ none → settle keccak w m id r ≡ ok r
  unfolding settle
  settle_fine id r fine = rw fine refl

  settle_wrong :
      (id : ℕ) (r : Ran Db) (e : VmError) (u : StateDb Db)
      → r.error ≡ some e
      → revert_to_snapshot w m id r.state ≡ ok u
      → settle keccak w m id r
        ≡ ok (record r { gas = if is_reverted e then r.gas else 0; state = u })
  unfolding settle
  settle_wrong id r e u wrong run = rw (wrong, run) refl

  -- An error after a snapshot is undone.
  settle-IsUndone :
      (addr : List ℕ) (s t : StateDb Db) (r : Ran Db)
      → IsRead addr s t
      → Steps keccak w m (suc (length t.snapshots)) (snapshot w m t).1 r.state
      → Post (IsUndone addr s) (settle keccak w m (length t.snapshots) r)
  settle-IsUndone addr s t r read steps = elim (Option-cases r.error) [
    | inl fine ↦ rw (settle_fine (length t.snapshots) r fine) (inl fine)
    | inr (e, wrong) ↦
        let (u, run, restored) = revert-snapshot keccak w m t r.state steps in
        rw (settle_wrong (length t.snapshots) r e u wrong run)
          (inr (e, wrong, (t, read, restored), reverted_or_gone e r.gas))
  ]

  pub snapshot_deep :
      (t : StateDb Db) → suc (length t.snapshots) ≤ length (snapshot w m t).1.snapshots
  unfolding snapshot
  snapshot_deep t = omega (arith, length-append {0} t.snapshots (_ ∷ []))

  -- A run from a state that the snapshot leads to.
  pub run-IsUndone :
      (addr : List ℕ) (s t u : StateDb Db) (gas : ℕ)
      → IsRead addr s t
      → Leads keccak w m (suc (length t.snapshots)) (snapshot w m t).1 u
      → (run : Outcome (Ran Db)) → Post (Keeps keccak w m (suc (length t.snapshots)) u gas) run
      → Post (IsUndone addr s) (run >>= settle keccak w m (length t.snapshots))
  run-IsUndone addr s t u gas read leads run kept =
      Post-bind (Keeps keccak w m (suc (length t.snapshots)) u gas) (IsUndone addr s) run _ kept
        λ r k. settle-IsUndone addr s t r read (Leads-trans keccak w m leads k.0).steps
