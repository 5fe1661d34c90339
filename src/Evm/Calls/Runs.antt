-- ===== src/Evm/Calls/Runs.antt =====
-- evm/evm.go: the states that a run of a precompiled contract or of code leads to.
use web.Base.{
  ℕ, ◌≤◌, ◌≡◌, refl, Bool, false, List, ◌==◌, ltb, if◌then◌else◌, length, ok, ◌>>=◌, Post,
  Post-bind, Post-imp, arith, inl, inr, Bool-cases, Option-cases,
}
use mathlib.Core.Path.{subst}
use web.Storage.SortedMap.{SortedMap}
use web.Storage.Word256.{Word256}
use web.Storage.StateDb.{StateDb}
use web.Storage.StateDb.Operations.{get_code, get_code_hash}
use web.Evm.Contract.{Contract, new_contract, set_call_code}
use web.Evm.Calls.{
  Precompiled, Caller, account, contract, contract_of, Evm, succeeded, run_code, run_at, run_called,
  run_precompiled,
}
use web.Evm.Calls.Leads.{
  Leads, Leads-trans, Leads-refl, Keeps, IsContained, get_code-Leads, get_code_hash-Leads,
}

pub contract_of-gas :
    (caller : Caller) (object : List ℕ) (value gas : ℕ)
    → (contract_of caller object value gas).gas ≡ gas
unfolding contract_of new_contract
contract_of-gas (account a) object value gas = refl
contract_of-gas (contract c) object value gas = refl

module _ (keccak : List ℕ → List ℕ) (w : Word256) (m : SortedMap) where
  open m use {Db}

  module _ (evm : Evm keccak w m) (contained : IsContained keccak w m evm) (depth : ℕ) where
    precompiled-Keeps :
        (p : Precompiled) (input : List ℕ) (gas : ℕ) (s : StateDb Db)
        → depth ≤ length s.snapshots
        → Post (Keeps keccak w m depth s gas) (
            run_precompiled p input gas λ output left error.
              ok (record { output = output; gas = left; error = error; state = s }))
    unfolding run_precompiled
    precompiled-Keeps p input gas s deep = elim (Bool-cases (ltb gas (p.required_gas input))) [
      | inl poor ↦ rw poor (Leads-refl keccak w m depth s deep, omega arith)
      | inr rich ↦ rw rich (Leads-refl keccak w m depth s deep, omega arith)
    ]

    run_code-Keeps :
        (c : Contract) (addr input : List ℕ) (read_only : Bool) (s : StateDb Db)
        → depth ≤ length s.snapshots
        → Post (Keeps keccak w m depth s c.gas) (run_code keccak w m evm c addr input read_only s)
    unfolding run_code set_call_code
    run_code-Keeps c addr input read_only s deep =
        Post-bind (λ (r : List ℕ × StateDb Db). Leads keccak w m depth s r.1)
          (Keeps keccak w m depth s c.gas) (get_code_hash keccak w m addr s) _
          (get_code_hash-Leads keccak w m depth s deep addr)
          λ (hash, s1) leads1.
            Post-bind (λ (r : List ℕ × StateDb Db). Leads keccak w m depth s1 r.1)
              (Keeps keccak w m depth s c.gas) (get_code keccak w m addr s1) _
              (get_code-Leads keccak w m depth s1 leads1.deep addr)
              λ (code, s2) leads2.
                Post-imp _ (Keeps keccak w m depth s c.gas)
                  (evm.run (set_call_code addr hash code c) input read_only s2)
                  (contained depth (set_call_code addr hash code c) input read_only s2 leads2.deep)
                  (λ r kept.
                    (Leads-trans keccak w m leads1 (Leads-trans keccak w m leads2 kept.0), kept.1))

    pub run_at-Keeps :
        (c : Contract) (addr input : List ℕ) (gas : ℕ) (read_only : Bool) (s : StateDb Db)
        → c.gas ≡ gas
        → depth ≤ length s.snapshots
        → Post (Keeps keccak w m depth s gas) (run_at keccak w m evm c addr input gas read_only s)
    unfolding run_at
    run_at-Keeps c addr input gas read_only s has deep = elim (Option-cases (evm.precompile addr)) [
      | inr (p, known) ↦ rw (known, run_at) (precompiled-Keeps p input gas s deep)
      | inl other ↦
          rw (other, run_at)
            (subst
              (λ (g : ℕ).
                Post (Keeps keccak w m depth s g)
                  (run_code keccak w m evm c addr input read_only s))
              has (run_code-Keeps c addr input read_only s deep))
    ]

    pub run_called-Keeps :
        (caller : Caller) (addr input : List ℕ) (gas value : ℕ) (s : StateDb Db)
        → depth ≤ length s.snapshots
        → Post
            (Keeps keccak w m depth s gas)
            (run_called keccak w m evm caller addr input gas value s)
    unfolding run_called succeeded set_call_code
    run_called-Keeps caller addr input gas value s deep =
        elim (Option-cases (evm.precompile addr)) [
          | inr (p, known) ↦ rw (known, run_called) (precompiled-Keeps p input gas s deep)
          | inl other ↦
              rw (other, run_called)
                (Post-bind (λ (r : List ℕ × StateDb Db). Leads keccak w m depth s r.1)
                  (Keeps keccak w m depth s gas) (get_code keccak w m addr s) _
                  (get_code-Leads keccak w m depth s deep addr)
                  λ (code, s1) leads1. with_code code s1 leads1)
        ]
      where
        with_code :
            (code : List ℕ) (s1 : StateDb Db)
            → Leads keccak w m depth s s1
            → Post (Keeps keccak w m depth s gas) (
                if length code == 0
                then succeeded keccak w m gas s1
                else (get_code_hash keccak w m addr s1 >>= λ r.
                    evm.run
                      (set_call_code addr r.0 code (contract_of caller addr value gas))
                      input
                      false
                      r.1))
        with_code code s1 leads1 = elim (Bool-cases (length code == 0)) [
          | inl no_code ↦ rw no_code (leads1, omega arith)
          | inr some_code ↦ rw some_code (
              Post-bind (λ (r : List ℕ × StateDb Db). Leads keccak w m depth s1 r.1)
                (Keeps keccak w m depth s gas) (get_code_hash keccak w m addr s1) _
                (get_code_hash-Leads keccak w m depth s1 leads1.deep addr)
                λ (hash, s2) leads2.
                  let c = set_call_code addr hash code (contract_of caller addr value gas) in
                  Post-imp _ (Keeps keccak w m depth s gas) (evm.run c input false s2)
                    (contained depth c input false s2 leads2.deep)
                    (λ r kept. (
                      Leads-trans keccak w m leads1 (Leads-trans keccak w m leads2 kept.0),
                      omega (arith, kept.1, contract_of-gas caller addr value gas),
                    )))
        ]
