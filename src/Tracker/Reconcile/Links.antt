-- ===== src/Tracker/Reconcile/Links.antt =====
-- tracker/tracker.go, handleReconcileImpl: the blocks to add link up with those that stay.
use web.Base.{
  ℕ, zero, suc, ◌+◌, ◌%◌, ◌≤◌, ◌<◌, ◌≡◌, refl, sym, ap, ◌∙◌, List, [], ◌∷◌, ◌++◌, none, some, ◌==◌,
  ==_iff, ltb, take, All, arith, inl, inr, Bool-cases, Option-cases,
}
use web.Base.Bytes.{u64_mod}
use web.Tracker.Chain.{Block, index_from, block_at_index, last?}
use web.Tracker.Chain.Backlog.{IsLinked, LinkedAfter, IsLinked-take}
use web.Tracker.Provider.{Reply, refused, missing, found, Fetch, IsHonest}
use web.Tracker.Reconcile.{
  Reconciled, known, extended, rejected, crashed, unfinished, backfill, join, handle_reconcile_impl,
  cut_behind,
}
use mathlib.Core.List.{reverse, reverse-append}

IsLinked-append :
    (xs : List Block) (b : Block) (bs : List Block)
    → IsLinked xs
    → LinkedAfter xs b
    → IsLinked (b ∷ bs)
    → IsLinked (xs ++ b ∷ bs)
IsLinked-append [] b bs hx l h = h
IsLinked-append (p ∷ []) b bs hx l h = (l, h)
IsLinked-append (p ∷ q ∷ xs) b bs hx l h = (hx.0, IsLinked-append (q ∷ xs) b bs hx.1 l h)

LinkedAfter-last :
    (blocks : List Block) (b top : Block)
    → last? blocks ≡ some top
    → b.parent_hash ≡ top.hash
    → LinkedAfter blocks b
LinkedAfter-last [] b top h e = tt
LinkedAfter-last (p ∷ []) b top h e = ground arith
LinkedAfter-last (p ∷ q ∷ blocks) b top h e = LinkedAfter-last (q ∷ blocks) b top h e

-- A block whose parent stands at an index comes behind the blocks up to it.
LinkedAfter-index_from :
    (blocks : List Block) (b : Block) (i j : ℕ)
    → index_from b.parent_hash i blocks ≡ some j
    → (k : ℕ) × (j ≡ i + k) × LinkedAfter (take (suc k) blocks) b
unfolding index_from
LinkedAfter-index_from [] b i j h = cc
LinkedAfter-index_from (p ∷ []) b i j h = (0, ground arith, ground arith)
LinkedAfter-index_from (p ∷ q ∷ blocks) b i j h = elim (Bool-cases (p.hash == b.parent_hash)) [
  | inl here ↦ (0, ground arith, ground arith)
  | inr there ↦
      let (k, e, l) = LinkedAfter-index_from (q ∷ blocks) b (suc i) j (rw there at h) in
      (suc k, omega arith, l)
]

LinkedAfter-block_at_index :
    (blocks : List Block) (b : Block) (j : ℕ)
    → block_at_index b.parent_hash blocks ≡ some j
    → LinkedAfter (take (j + 1) blocks) b
unfolding block_at_index
LinkedAfter-block_at_index blocks b j h =
    let (k, e, l) = LinkedAfter-index_from blocks b 0 j h in
    let same : suc k ≡ j + 1 = omega arith in rw (← same) l

module _ (Known : Block → Type 0) (fetch : Fetch) (honest : IsHonest Known fetch) (limit : ℕ)
    (fits : limit + 1 < u64_mod) (blocks : List Block) (inv : IsLinked blocks) where
  -- What each result means for a new head: `added` ends in it and links up with what stays.
  abbrev pub Joins : Block → Reconciled → Type 0
  Joins block known = (i : ℕ) × (block_at_index block.hash blocks ≡ some i)
  Joins block (extended added indx) =
      IsLinked ((cut_behind indx blocks).0 ++ added) × (last? added ≡ some block) × All Known added
  Joins block rejected = Unit {0}
  Joins block crashed = (call : ℕ) × (hash : ℕ) × (fetch call hash ≡ missing)
  Joins block unfinished = ⊥

  Joins-at :
      (block b : Block) (bs : List Block) (j : ℕ)
      → IsLinked (b ∷ bs)
      → last? (b ∷ bs) ≡ some block
      → All Known (b ∷ bs)
      → block_at_index b.parent_hash blocks ≡ some j
      → Joins block (extended (b ∷ bs) (some j))
  unfolding cut_behind
  Joins-at block b bs j linked top genuine h = (
    IsLinked-append (take (j + 1) blocks) b bs (IsLinked-take (j + 1) blocks inv)
        (LinkedAfter-block_at_index blocks b j h) linked,
    top,
    genuine,
  )

  -- One more parent either closes the gap, or is what the next turn starts from.
  Joins-parent :
      (head block parent : Block) (added rest : List Block) (next : Reconciled)
      → reverse added ≡ block ∷ rest
      → IsLinked (block ∷ rest)
      → last? (block ∷ rest) ≡ some head
      → All Known (block ∷ rest)
      → (parent.hash ≡ block.parent_hash) × Known parent
      → (reverse (added ++ parent ∷ []) ≡ parent ∷ block ∷ rest
          → IsLinked (parent ∷ block ∷ rest)
          → All Known (parent ∷ block ∷ rest)
          → Joins head next)
      → Joins head (elim (block_at_index parent.parent_hash blocks) [
        | some indx ↦ extended (reverse (added ++ parent ∷ [])) (some indx)
        | none ↦ next
      ])
  Joins-parent head block parent added rest next e linked top genuine (names, fresh) after =
      let linked' : IsLinked (parent ∷ block ∷ rest) = (sym names, linked) in
      let e' : reverse (added ++ parent ∷ []) ≡ parent ∷ block ∷ rest =
        reverse-append added (parent ∷ []) ∙ ap (λ l. parent ∷ l) e in
      elim (Option-cases (block_at_index parent.parent_hash blocks)) [
        | inl gap ↦ rw gap (after e' linked' (fresh, genuine))
        | inr (j, closed) ↦
            rw (closed, e')
              (Joins-at head parent (block ∷ rest) j linked' top (fresh, genuine) closed)
      ]

  backfill_lem :
      (head : Block) (fuel count : ℕ) (block : Block) (added rest : List Block)
      → reverse added ≡ block ∷ rest
      → IsLinked (block ∷ rest)
      → last? (block ∷ rest) ≡ some head
      → All Known (block ∷ rest)
      → limit + 1 < fuel + count
      → count ≤ limit + 1
      → Joins head (backfill fetch limit blocks fuel count block added)
  unfolding backfill
  backfill_lem head zero count block added rest e linked top genuine enough small =
      absurd (omega arith)
  backfill_lem head (suc fuel) count block added rest e linked top genuine enough small =
      elim (Bool-cases (ltb limit count)) [
        | inl over ↦ rw over tt
        | inr more ↦ rw more (
            go (fetch count block.parent_hash) refl λ parent e' linked' genuine'.
              let step : (count + 1) % u64_mod ≡ count + 1 = ground arith in
              rw step (
                backfill_lem head fuel (count + 1) parent (added ++ parent ∷ []) (block ∷ rest) e'
                  linked' top genuine' (omega arith) (ground arith)))
      ]
    where
      go :
          (reply : Reply)
          → fetch count block.parent_hash ≡ reply
          → ((parent : Block)
              → reverse (added ++ parent ∷ []) ≡ parent ∷ block ∷ rest
              → IsLinked (parent ∷ block ∷ rest)
              → All Known (parent ∷ block ∷ rest)
              → Joins head (
                  backfill fetch limit blocks fuel
                    ((count + 1) % u64_mod)
                    parent
                    (added ++ parent ∷ [])))
          → Joins head (elim reply [
            | refused ↦ rejected
            | missing ↦ crashed
            | found parent ↦ elim (block_at_index parent.parent_hash blocks) [
              | some indx ↦ extended (reverse (added ++ parent ∷ [])) (some indx)
              | none ↦
                  backfill fetch limit blocks fuel
                    ((count + 1) % u64_mod)
                    parent
                    (added ++ parent ∷ [])
            ]
          ])
      go refused asked next = tt
      go missing asked next = (count, block.parent_hash, asked)
      go (found parent) asked next =
          Joins-parent head block parent added rest _ e linked top genuine
            (honest count block.parent_hash parent asked) (next parent)

  join-Joins :
      (top block : Block)
      → last? blocks ≡ some top
      → Known block
      → Joins block (join fetch limit blocks top block)
  unfolding join cut_behind
  join-Joins top block h genuine = elim (Bool-cases (top.hash == block.parent_hash)) [
    | inl head ↦ rw head (
      IsLinked-append blocks block [] inv
          (LinkedAfter-last blocks block top h (sym ((==_iff top.hash block.parent_hash).0 head)))
          (tt, tt),
      refl,
      (genuine, tt),
    )
    | inr other ↦ rw other (elim (Option-cases (block_at_index block.parent_hash blocks)) [
      | inr (j, fork) ↦ rw fork (Joins-at block block [] j (tt, tt) refl (genuine, tt) fork)
      | inl gap ↦ rw gap (
          backfill_lem block (limit + 2) 0 block (block ∷ []) [] refl (tt, tt) refl (genuine, tt)
            (omega arith) (omega arith))
    ])
  ]

  last?-none : (xs : List Block) → last? xs ≡ none → xs ≡ []
  last?-none [] h = refl
  last?-none (x ∷ []) h = cc
  last?-none (x ∷ y ∷ xs) h = cc (last?-none (y ∷ xs) h)

  pub handle_reconcile_impl-Joins :
      (block : Block) → Known block → Joins block (handle_reconcile_impl fetch limit blocks block)
  unfolding handle_reconcile_impl cut_behind
  handle_reconcile_impl-Joins block genuine =
      elim (Option-cases (block_at_index block.hash blocks)) [
        | inr (i, old) ↦ rw (old, handle_reconcile_impl) (i, old)
        | inl new ↦
            rw (new, handle_reconcile_impl)
              (elim (Option-cases (last? blocks)) [
                | inl empty ↦ rw (empty, last?-none blocks empty) ((tt, tt), refl, (genuine, tt))
                | inr (top, h) ↦ rw h (join-Joins top block h genuine)
              ])
      ]
