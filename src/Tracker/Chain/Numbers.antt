-- ===== src/Tracker/Chain/Numbers.antt =====
-- tracker/tracker.go, addBlockLocked: blocks that were added have consecutive numbers.
use web.Base.{
  ℕ, zero, suc, ◌+◌, ◌-◌, ◌%◌, ◌<◌, ◌≡◌, refl, sym, ◌∙◌, Bool, true, false, List, [], ◌∷◌, ◌++◌,
  some, if◌then◌else◌, length, drop, length-append, drop-append_left, All, Outcome, ok, panic,
  ◌>>=◌, arith, inl, inr, append_assoc, append-nil,
}
use web.Base.Bytes.{u64_mod}
use web.Tracker.Chain.{Block, last?, add_block, add_blocks}
use web.Tracker.Chain.Backlog.{
  IsNumbered, IsLinked, IsBacklog, newest, Added, IsNumbered-append_one, append_next_lem,
  make_room_lem, add_block_lem, IsLinked-prefix, IsLinked-drop,
}

-- Each block has the number after the one before, with no overflow.
abbrev pub CountedFrom : Block → List Block → Type 0
CountedFrom p [] = Unit {0}
CountedFrom p (b ∷ blocks) = p.number + 1 ≡ b.number

abbrev pub IsCounted : List Block → Type 0
IsCounted [] = Unit {0}
IsCounted (b ∷ blocks) = CountedFrom b blocks × IsCounted blocks

-- The number after a block's is a uint64 again.
abbrev pub HasNext : Block → Type 0
HasNext b = b.number + 1 < u64_mod

pub IsCounted-of : (blocks : List Block) → IsNumbered blocks → All HasNext blocks → IsCounted blocks
IsCounted-of [] h small = tt
IsCounted-of (b ∷ []) h small = (tt, tt)
IsCounted-of (b ∷ c ∷ blocks) h small =
    (omega (arith, h.0, small.0), IsCounted-of (c ∷ blocks) h.1 small.1)

last?-drop :
    (n : ℕ) (blocks : List Block) → n < length blocks → last? (drop n blocks) ≡ last? blocks
last?-drop zero blocks h = refl
last?-drop (suc n) [] h = absurd (omega arith)
last?-drop (suc n) (b ∷ []) h = absurd (omega arith)
last?-drop (suc n) (b ∷ c ∷ blocks) h = last?-drop n (c ∷ blocks) (omega arith)

IsNumbered-glue :
    (n : ℕ) (xs ys : List Block)
    → n < length xs
    → IsNumbered xs
    → IsNumbered (drop n xs ++ ys)
    → IsNumbered (xs ++ ys)
IsNumbered-glue zero xs ys h front back = back
IsNumbered-glue (suc n) [] ys h front back = absurd (omega arith)
IsNumbered-glue (suc n) (x ∷ []) ys h front back = absurd (omega arith)
IsNumbered-glue (suc n) (x ∷ z ∷ xs) ys h front back =
    (front.0, IsNumbered-glue n (z ∷ xs) ys (omega arith) front.1 back)

module _ (limit : ℕ) (roomy : 1 < limit) where
  pos : 0 < limit
  pos = omega arith

  abbrev pub NumberedIf : List Block → Outcome (List Block × Bool) → Type 0
  NumberedIf whole panic = Unit {0}
  NumberedIf whole (ok (blocks', done)) = done ≡ true → IsNumbered whole

  next_of_last :
      (blocks : List Block) (b : Block)
      → IsNumbered blocks
      → ((p : Block)
          → last? (newest (limit - 1) blocks) ≡ some p
          → (p.number + 1) % u64_mod ≡ b.number)
      → IsNumbered (blocks ++ b ∷ [])
  next_of_last [] b inv h = (tt, tt)
  next_of_last (c ∷ blocks) b inv h =
      let cut = length (c ∷ blocks) - (limit - 1) in
      IsNumbered-append_one (c ∷ blocks) b inv
        λ p e. h p (last?-drop cut (c ∷ blocks) (omega arith) ∙ e)

  add_block-NumberedIf :
      (blocks : List Block) (b : Block)
      → IsBacklog limit blocks
      → NumberedIf (blocks ++ b ∷ []) (add_block limit blocks b)
  unfolding add_block
  add_block-NumberedIf blocks b inv =
      rw (make_room_lem limit blocks pos inv.bounded)
        (elim (append_next_lem (newest (limit - 1) blocks) b) [
          | inl (added, next) ↦ rw added (λ _. next_of_last blocks b inv.numbered next)
          | inr refused ↦ rw refused (λ h. cc)
        ])

  pub add_blocks-NumberedIf :
      (blocks bs : List Block)
      → IsBacklog limit blocks
      → IsLinked (blocks ++ bs)
      → NumberedIf (blocks ++ bs) (add_blocks limit blocks bs)
  unfolding add_blocks
  add_blocks-NumberedIf blocks [] inv linked = λ _. rw (append-nil blocks) inv.numbered
  add_blocks-NumberedIf blocks (b ∷ bs) inv linked =
      go (add_block limit blocks b)
        (add_block_lem limit pos blocks b inv (IsLinked-prefix whole bs (rw regroup linked)))
        (add_block-NumberedIf blocks b inv)
        λ blocks' inv' l. add_blocks-NumberedIf blocks' bs inv' l
    where
      whole : List Block
      whole = blocks ++ b ∷ []

      regroup : whole ++ bs ≡ blocks ++ b ∷ bs
      regroup = append_assoc blocks (b ∷ []) bs

      go :
          (r : Outcome (List Block × Bool))
          → Added limit pos whole r
          → NumberedIf whole r
          → ((blocks' : List Block)
              → IsBacklog limit blocks'
              → IsLinked (blocks' ++ bs)
              → NumberedIf (blocks' ++ bs) (add_blocks limit blocks' bs))
          → NumberedIf (blocks ++ b ∷ bs) (
              r >>= λ (blocks', done).
              if done then add_blocks limit blocks' bs else ok (blocks', false))
      go panic h numbered rest = tt
      go (ok (blocks', false)) h numbered rest = λ e. cc
      go (ok (blocks', true)) h numbered rest =
          let cut = length whole - limit in
          let tail : newest limit whole ++ bs ≡ drop cut (whole ++ bs) =
            sym (drop-append_left cut whole bs (omega arith)) in
          let still : IsLinked (blocks' ++ bs) =
            rw (h.1 refl, tail) (IsLinked-drop cut (whole ++ bs) (rw regroup linked)) in
          let short : cut < length whole = omega (arith, length-append blocks (b ∷ [])) in
          finish (add_blocks limit blocks' bs) (rest blocks' h.0 still) λ back.
            rw (← regroup)
              (IsNumbered-glue cut whole bs short (numbered refl) (rw (h.1 refl) at back))
        where
          finish :
              (q : Outcome (List Block × Bool))
              → NumberedIf (blocks' ++ bs) q
              → (IsNumbered (blocks' ++ bs) → IsNumbered (blocks ++ b ∷ bs))
              → NumberedIf (blocks ++ b ∷ bs) q
          finish panic n k = tt
          finish (ok (blocks'', done)) n k = λ e. k (n e)
