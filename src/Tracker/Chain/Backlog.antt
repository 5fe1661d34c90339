-- ===== src/Tracker/Chain/Backlog.antt =====
-- tracker/tracker.go: a backlog stays a chain of blocks, each the parent of the next.
use web.Base.{
  ℕ, zero, suc, ◌+◌, ◌-◌, ◌%◌, ◌≤◌, ◌<◌, ◌≡◌, ◌⊎◌, refl, sym, ap, ◌∙◌, Bool, true, false, List, [],
  ◌∷◌, ◌++◌, some, ◌==◌, ==_iff, if◌then◌else◌, length, drop, length-append, length-drop, Outcome,
  ok, panic, ◌>>=◌, arith, inl, inr, Bool-cases, Option-cases, drop-add, drop-append_left,
  append-nil, append_assoc, take,
}
use web.Base.Bytes.{u64_mod}
use web.Tracker.Chain.{Block, last?, make_room, append_next, add_block, add_blocks}

-- `b` names `p` as its parent.
abbrev pub LinkedFrom : Block → List Block → Type 0
LinkedFrom p [] = Unit {0}
LinkedFrom p (b ∷ blocks) = b.parent_hash ≡ p.hash

-- Each block names the one before as its parent.
abbrev pub IsLinked : List Block → Type 0
IsLinked [] = Unit {0}
IsLinked (b ∷ blocks) = LinkedFrom b blocks × IsLinked blocks

abbrev pub NumberedFrom : Block → List Block → Type 0
NumberedFrom p [] = Unit {0}
NumberedFrom p (b ∷ blocks) = (p.number + 1) % u64_mod ≡ b.number

-- Each block has the number after the one before, in uint64.
abbrev pub IsNumbered : List Block → Type 0
IsNumbered [] = Unit {0}
IsNumbered (b ∷ blocks) = NumberedFrom b blocks × IsNumbered blocks

-- What the tracker keeps: at most `limit` blocks that follow one another.
pub record IsBacklog (limit : ℕ) (blocks : List Block) : Type 0 where
  pub linked : IsLinked blocks
  pub numbered : IsNumbered blocks
  pub bounded : length blocks ≤ limit

pub IsLinked-drop : (n : ℕ) (blocks : List Block) → IsLinked blocks → IsLinked (drop n blocks)
IsLinked-drop zero blocks h = h
IsLinked-drop (suc n) [] h = h
IsLinked-drop (suc n) (b ∷ blocks) h = IsLinked-drop n blocks h.1

pub IsLinked-take : (n : ℕ) (blocks : List Block) → IsLinked blocks → IsLinked (take n blocks)
IsLinked-take zero blocks h = tt
IsLinked-take (suc n) [] h = tt
IsLinked-take (suc zero) (b ∷ blocks) h = (tt, tt)
IsLinked-take (suc (suc n)) (b ∷ []) h = (tt, tt)
IsLinked-take (suc (suc n)) (b ∷ c ∷ blocks) h = (h.0, IsLinked-take (suc n) (c ∷ blocks) h.1)

pub IsNumbered-take : (n : ℕ) (blocks : List Block) → IsNumbered blocks → IsNumbered (take n blocks)
IsNumbered-take zero blocks h = tt
IsNumbered-take (suc n) [] h = tt
IsNumbered-take (suc zero) (b ∷ blocks) h = (tt, tt)
IsNumbered-take (suc (suc n)) (b ∷ []) h = (tt, tt)
IsNumbered-take (suc (suc n)) (b ∷ c ∷ blocks) h = (h.0, IsNumbered-take (suc n) (c ∷ blocks) h.1)

-- The newest blocks, `limit` at most.
abbrev pub newest : ℕ → List Block → List Block
newest limit blocks = drop (length blocks - limit) blocks

pub newest-newest :
    (limit : ℕ) (xs ys : List Block)
    → newest limit (newest limit xs ++ ys) ≡ newest limit (xs ++ ys)
newest-newest limit xs ys =
    let cut = length xs - limit in
    let e : newest limit xs ++ ys ≡ drop cut (xs ++ ys) =
      sym (drop-append_left cut xs ys (omega arith)) in
    let total : cut + (length (drop cut (xs ++ ys)) - limit) ≡ length (xs ++ ys) - limit =
      omega (arith, length-drop cut (xs ++ ys), length-append xs ys) in
    ap (newest limit) e
    ∙ sym (drop-add cut (length (drop cut (xs ++ ys)) - limit) (xs ++ ys))
    ∙ ap (λ (n : ℕ). drop n (xs ++ ys)) total

pub newest_short : (limit : ℕ) (xs : List Block) → length xs ≤ limit → newest limit xs ≡ xs
newest_short limit xs h = let e : length xs - limit ≡ 0 = omega arith in ap (λ (n : ℕ). drop n xs) e

-- `b` comes behind the blocks: it names the last of them as its parent.
abbrev pub LinkedAfter : List Block → Block → Type 0
LinkedAfter [] b = Unit {0}
LinkedAfter (p ∷ []) b = b.parent_hash ≡ p.hash
LinkedAfter (p ∷ q ∷ blocks) b = LinkedAfter (q ∷ blocks) b

pub IsLinked-append_one :
    (blocks : List Block) (b : Block)
    → IsLinked blocks
    → LinkedAfter blocks b
    → IsLinked (blocks ++ b ∷ [])
IsLinked-append_one [] b h l = (tt, tt)
IsLinked-append_one (p ∷ []) b h l = (l, (tt, tt))
IsLinked-append_one (p ∷ q ∷ blocks) b h l = (h.0, IsLinked-append_one (q ∷ blocks) b h.1 l)

pub LinkedAfter-of_append :
    (blocks : List Block) (b : Block) (bs : List Block)
    → IsLinked (blocks ++ b ∷ bs)
    → LinkedAfter blocks b
LinkedAfter-of_append [] b bs h = tt
LinkedAfter-of_append (p ∷ []) b bs h = h.0
LinkedAfter-of_append (p ∷ q ∷ blocks) b bs h = LinkedAfter-of_append (q ∷ blocks) b bs h.1

pub IsLinked-prefix : (xs ys : List Block) → IsLinked (xs ++ ys) → IsLinked xs
IsLinked-prefix [] ys h = tt
IsLinked-prefix (x ∷ []) ys h = (tt, tt)
IsLinked-prefix (x ∷ z ∷ xs) ys h = (h.0, IsLinked-prefix (z ∷ xs) ys h.1)

pub IsNumbered-append_one :
    (blocks : List Block) (b : Block)
    → IsNumbered blocks
    → ((p : Block) → last? blocks ≡ some p → (p.number + 1) % u64_mod ≡ b.number)
    → IsNumbered (blocks ++ b ∷ [])
IsNumbered-append_one [] b h l = (tt, tt)
IsNumbered-append_one (p ∷ []) b h l = (l p refl, (tt, tt))
IsNumbered-append_one (p ∷ q ∷ blocks) b h l = (h.0, IsNumbered-append_one (q ∷ blocks) b h.1 l)

pub append_next_lem :
    (blocks : List Block) (b : Block)
    → ((append_next blocks b ≡ (blocks ++ b ∷ [], true))
        × ((p : Block) → last? blocks ≡ some p → (p.number + 1) % u64_mod ≡ b.number))
      ⊎ (append_next blocks b ≡ (blocks, false))
unfolding append_next
append_next_lem blocks b = elim (Option-cases (last? blocks)) [
  | inl none_last ↦ inl (rw (none_last, append_next), λ p h. cc)
  | inr (top, e) ↦ elim (Bool-cases ((top.number + 1) % u64_mod == b.number)) [
    | inl next ↦ inl (rw (e, append_next) (rw next), λ p h. ground arith)
    | inr other ↦ inr (rw (e, append_next) (rw other))
  ]
]

pub IsNumbered-drop : (n : ℕ) (blocks : List Block) → IsNumbered blocks → IsNumbered (drop n blocks)
IsNumbered-drop zero blocks h = h
IsNumbered-drop (suc n) [] h = h
IsNumbered-drop (suc n) (b ∷ blocks) h = IsNumbered-drop n blocks h.1

-- Room for one more is made by dropping the oldest block.
pub make_room_lem :
    (limit : ℕ) (blocks : List Block)
    → 0 < limit
    → length blocks ≤ limit
    → make_room limit blocks ≡ ok (newest (limit - 1) blocks)
unfolding make_room
make_room_lem limit [] pos h = ground arith
make_room_lem limit (b ∷ blocks) pos h = elim (Bool-cases (length (b ∷ blocks) == limit)) [
  | inl full ↦ rw full (
      let e : length (b ∷ blocks) - (limit - 1) ≡ 1 =
        omega (arith, (==_iff (length (b ∷ blocks)) limit).0 full) in
      ap (λ (n : ℕ). ok (drop n (b ∷ blocks))) (sym e))
  | inr free ↦ rw free (
      let e : length (b ∷ blocks) - (limit - 1) ≡ 0 = ground arith in
      ap (λ (n : ℕ). ok (drop n (b ∷ blocks))) (sym e))
]

module _ (limit : ℕ) (pos : 0 < limit) where
  kept_block :
      (blocks : List Block) (b : Block)
      → newest (limit - 1) blocks ++ b ∷ [] ≡ newest limit (blocks ++ b ∷ [])
  kept_block blocks b =
      let cut = length blocks - (limit - 1) in
      let e : cut ≡ length (blocks ++ b ∷ []) - limit =
        omega (arith, length-append blocks (b ∷ [])) in
      sym (drop-append_left cut blocks (b ∷ []) (omega arith))
      ∙ ap (λ (n : ℕ). drop n (blocks ++ b ∷ [])) e

  pub IsBacklog-newest :
      (n : ℕ) (blocks : List Block)
      → n ≤ limit
      → IsBacklog limit blocks
      → IsBacklog limit (newest n blocks)
  IsBacklog-newest n blocks h inv = record {
    linked = IsLinked-drop (length blocks - n) blocks inv.linked;
    numbered = IsNumbered-drop (length blocks - n) blocks inv.numbered;
    bounded = omega (arith, length-drop (length blocks - n) blocks);
  }

  -- The blocks that are left, whether the new one was added, and how.
  abbrev pub Added : List Block → Outcome (List Block × Bool) → Type 0
  Added blocks panic = ⊥
  Added blocks (ok (blocks', done)) =
      IsBacklog limit blocks' × (done ≡ true → blocks' ≡ newest limit blocks)

  Added-same :
      (xs ys : List Block) (r : Outcome (List Block × Bool))
      → newest limit xs ≡ newest limit ys
      → Added xs r
      → Added ys r
  Added-same xs ys panic e h = h
  Added-same xs ys (ok (blocks', done)) e h = (h.0, λ d. h.1 d ∙ e)

  append_next-Added :
      (kept : List Block) (b : Block) (whole : List Block)
      → IsBacklog limit kept
      → length kept < limit
      → IsLinked (kept ++ b ∷ [])
      → kept ++ b ∷ [] ≡ newest limit whole
      → Added whole (ok (append_next kept b))
  append_next-Added kept b whole inv room linked e = elim (append_next_lem kept b) [
    | inl added ↦ rw added.0 (
      record {
        linked = linked;
        numbered = IsNumbered-append_one kept b inv.numbered added.1;
        bounded = omega (arith, length-append kept (b ∷ []));
      },
      λ _. e,
    )
    | inr refused ↦ rw refused (inv, λ h. cc)
  ]

  pub add_block_lem :
      (blocks : List Block) (b : Block)
      → IsBacklog limit blocks
      → IsLinked (blocks ++ b ∷ [])
      → Added (blocks ++ b ∷ []) (add_block limit blocks b)
  unfolding add_block
  add_block_lem blocks b inv linked =
      let whole = blocks ++ b ∷ [] in
      let kept = newest (limit - 1) blocks in
      let e : kept ++ b ∷ [] ≡ newest limit whole = kept_block blocks b in
      rw (make_room_lem limit blocks pos inv.bounded) (
        append_next-Added kept b whole (IsBacklog-newest (limit - 1) blocks (omega arith) inv)
          (omega (arith, length-drop (length blocks - (limit - 1)) blocks))
          (rw e (IsLinked-drop (length whole - limit) whole linked)) e)

  pub add_blocks_lem :
      (blocks bs : List Block)
      → IsBacklog limit blocks
      → IsLinked (blocks ++ bs)
      → Added (blocks ++ bs) (add_blocks limit blocks bs)
  unfolding add_blocks
  add_blocks_lem blocks [] inv linked =
      (inv, λ _. rw (append-nil blocks) (sym (newest_short limit blocks inv.bounded)))
  add_blocks_lem blocks (b ∷ bs) inv linked =
      go (add_block limit blocks b)
        (add_block_lem blocks b inv (IsLinked-prefix (blocks ++ b ∷ []) bs (rw regroup linked)))
        λ blocks' inv' l. add_blocks_lem blocks' bs inv' l
    where
      regroup : (blocks ++ b ∷ []) ++ bs ≡ blocks ++ b ∷ bs
      regroup = append_assoc blocks (b ∷ []) bs

      whole : List Block
      whole = blocks ++ b ∷ []

      go :
          (r : Outcome (List Block × Bool))
          → Added (blocks ++ b ∷ []) r
          → ((blocks' : List Block)
              → IsBacklog limit blocks'
              → IsLinked (blocks' ++ bs)
              → Added (blocks' ++ bs) (add_blocks limit blocks' bs))
          → Added (blocks ++ b ∷ bs) (
              r >>= λ (blocks', done).
              if done then add_blocks limit blocks' bs else ok (blocks', false))
      go panic h rest = h
      go (ok (blocks', false)) h rest = (h.0, λ e. cc)
      go (ok (blocks', true)) h rest =
          let step : newest limit (blocks' ++ bs) ≡ newest limit (newest limit whole ++ bs) =
            ap (λ l. newest limit (l ++ bs)) (h.1 refl) in
          let same : newest limit (blocks' ++ bs) ≡ newest limit (blocks ++ b ∷ bs) =
            step ∙ newest-newest limit whole bs ∙ ap (newest limit) regroup in
          let cut : newest limit whole ++ bs ≡ drop (length whole - limit) (whole ++ bs) =
            sym (drop-append_left (length whole - limit) whole bs (omega arith)) in
          let still : IsLinked (drop (length whole - limit) (whole ++ bs)) =
            IsLinked-drop (length whole - limit) (whole ++ bs) (rw regroup linked) in
          Added-same (blocks' ++ bs) (blocks ++ b ∷ bs) _ same
            (rest blocks' h.0 (rw (h.1 refl, cut) still))
