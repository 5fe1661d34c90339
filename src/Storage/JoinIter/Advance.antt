-- ===== src/Storage/JoinIter/Advance.antt =====
-- evm/storage/overlaydb/iterator.go: where the two iterators stand before and after a step.
use web.Base.{
  ℕ, ◌≡◌, refl, sym, ap, ◌∙◌, Bool, true, false, not, ◌&&◌, List, [], ◌∷◌, none, inl, inr, ◌⊎◌,
  Bool-cases,
}
use web.Storage.SortedMap.{Entries}
use web.Storage.Iterator.{StoreIterator, is_some_left, first_key, first_value, tail}
use web.Storage.JoinIter.{
  JoinIter, KeyOrigin, from_mem, from_back, from_both, reads_mem, reads_back, error, advance_mem,
  advance_back,
}

-- What an iterator is still to yield, by what is left and whether its end was noticed. One that is
-- at its end, where that was not noticed, yields an entry with no key and no value.
abbrev pub Views : Entries → Bool → Entries → Type 0
Views l true es = es ≡ []
Views l false es = ((l ≡ es) × (is_some_left es ≡ true)) ⊎ ((l ≡ []) × (es ≡ ([], []) ∷ []))

-- What an iterator at its first entry is still to yield.
abbrev pub start_view : Entries → Entries
start_view [] = ([], []) ∷ []
start_view (e ∷ es) = e ∷ es

pub Views-start : (es : Entries) → Views es false (start_view es)
Views-start [] = inr (refl, refl)
Views-start (e ∷ es) = inl (refl, refl)

cons_ne_nil : (e : List ℕ × List ℕ) (es : Entries) → e ∷ es ≡ [] → ⊥
cons_ne_nil e es h = cc

tail_eq : (e d : List ℕ × List ℕ) (es ds : Entries) → e ∷ es ≡ d ∷ ds → es ≡ ds
tail_eq e d es ds h = ap tail h

Views-tail : (l es : Entries) → tail l ≡ es → Views (tail l) (not (is_some_left (tail l))) es
Views-tail l [] h = rw h refl
Views-tail l (e ∷ es) h = rw h (inl (refl, refl))

Views-next :
    (l : Entries) (b : Bool) (e : List ℕ × List ℕ) (es : Entries)
    → Views l b (e ∷ es)
    → (b ≡ false) × Views (tail l) (not (is_some_left (tail l))) es
Views-next l true e es view = absurd (cons_ne_nil e es view)
Views-next l false e es (inl (h, f)) = (refl, Views-tail l es (ap tail h))
Views-next l false e es (inr (h, f)) = (refl, Views-tail l es (ap tail h ∙ sym (ap tail f)))

-- The first entry of what is still to come.
pub Views-key :
    (l : Entries) (e : List ℕ × List ℕ) (es : Entries)
    → Views l false (e ∷ es)
    → (first_key l ≡ e.0) × (first_value l ≡ e.1)
Views-key l e es (inl (h, f)) = (ap first_key h, ap first_value h)
Views-key l e es (inr (h, f)) =
    (ap first_key h ∙ sym (ap first_key f), ap first_value h ∙ sym (ap first_value f))

pub some_view :
    (l es : Entries) → Views l false es → (e : List ℕ × List ℕ) × (ms : Entries) × (es ≡ e ∷ ms)
some_view l [] (inl (h, f)) = cc
some_view l [] (inr (h, f)) = cc
some_view l (e ∷ ms) view = (e, ms, refl)

module _ (it : StoreIterator) (quiet : (i : it.Iter) → it.error i ≡ none) where
  open it use {Iter, left, all}

  abbrev pub MemViews : JoinIter Iter → Entries → Type 0
  MemViews j ms = Views (left j.memdb) j.next_mem_end ms

  abbrev pub BackViews : JoinIter Iter → Entries → Type 0
  BackViews j bs = Views (left j.backend) j.next_back_end bs

  -- What is behind the current entry, by where that one stands.
  abbrev pub Behind : KeyOrigin → JoinIter Iter → Entries → Entries → Type 0
  Behind from_mem j ms bs = (e : List ℕ × List ℕ) × MemViews j (e ∷ ms) × BackViews j bs
  Behind from_back j ms bs = (e : List ℕ × List ℕ) × MemViews j ms × BackViews j (e ∷ bs)
  Behind from_both j ms bs =
      (e : List ℕ × List ℕ) × (d : List ℕ × List ℕ) × MemViews j (e ∷ ms) × BackViews j (d ∷ bs)

  pub no_error : (j : JoinIter Iter) → error it j ≡ none
  unfolding error
  no_error j = rw (quiet j.backend, error, quiet j.memdb)

  mem_advanced :
      (j : JoinIter Iter) (e : List ℕ × List ℕ) (ms : Entries)
      → reads_mem j.key_origin ≡ true
      → MemViews j (e ∷ ms)
      → MemViews (advance_mem it j) ms
  unfolding advance_mem
  mem_advanced j e ms r view =
      let (open_, next_view) = Views-next (left j.memdb) j.next_mem_end e ms view in
      rw (r, open_, it.left-next j.memdb, it.next_found j.memdb) next_view

  back_advanced :
      (j : JoinIter Iter) (e : List ℕ × List ℕ) (bs : Entries)
      → reads_back j.key_origin ≡ true
      → BackViews j (e ∷ bs)
      → BackViews (advance_back it j) bs
  unfolding advance_back
  back_advanced j e bs r view =
      let (open_, next_view) = Views-next (left j.backend) j.next_back_end e bs view in
      rw (r, open_, it.left-next j.backend, it.next_found j.backend) next_view

  mem-advance_back :
      (j : JoinIter Iter) (ms : Entries) → MemViews j ms → MemViews (advance_back it j) ms
  unfolding advance_back
  mem-advance_back j ms view = elim (Bool-cases (reads_back j.key_origin && not j.next_back_end)) [
    | inl e ↦ rw e view
    | inr e ↦ rw e view
  ]

  back-advance_mem :
      (j : JoinIter Iter) (bs : Entries) → BackViews j bs → BackViews (advance_mem it j) bs
  unfolding advance_mem
  back-advance_mem j bs view = elim (Bool-cases (reads_mem j.key_origin && not j.next_mem_end)) [
    | inl e ↦ rw e view
    | inr e ↦ rw e view
  ]

  origin-advance_mem : (j : JoinIter Iter) → (advance_mem it j).key_origin ≡ j.key_origin
  unfolding advance_mem
  origin-advance_mem j = elim (Bool-cases (reads_mem j.key_origin && not j.next_mem_end)) [
    | inl e ↦ rw e refl
    | inr e ↦ rw e refl
  ]

  mem_kept :
      (j : JoinIter Iter) (ms : Entries)
      → reads_mem j.key_origin ≡ false
      → MemViews j ms
      → MemViews (advance_mem it j) ms
  unfolding advance_mem
  mem_kept j ms r view = rw r view

  back_kept :
      (j : JoinIter Iter) (bs : Entries)
      → reads_back j.key_origin ≡ false
      → BackViews j bs
      → BackViews (advance_back it j) bs
  unfolding advance_back
  back_kept j bs r view = rw r view

  abbrev pub advanced : JoinIter Iter → JoinIter Iter
  advanced j = advance_back it (advance_mem it j)

  reads_back_then :
      (j : JoinIter Iter) (o : KeyOrigin)
      → j.key_origin ≡ o
      → reads_back (advance_mem it j).key_origin ≡ reads_back o
  reads_back_then j o e = ap reads_back (origin-advance_mem j ∙ e)

  pub advanced_views :
      (j : JoinIter Iter) (o : KeyOrigin) (ms bs : Entries)
      → j.key_origin ≡ o
      → Behind o j ms bs
      → MemViews (advanced j) ms × BackViews (advanced j) bs
  advanced_views j from_mem ms bs e (x, mv, bv) = (
    mem-advance_back (advance_mem it j) ms (mem_advanced j x ms (ap reads_mem e) mv),
    back_kept (advance_mem it j) bs (reads_back_then j from_mem e) (back-advance_mem j bs bv),
  )
  advanced_views j from_back ms bs e (x, mv, bv) = (
    mem-advance_back (advance_mem it j) ms (mem_kept j ms (ap reads_mem e) mv),
    back_advanced (advance_mem it j) x bs (reads_back_then j from_back e)
        (back-advance_mem j (x ∷ bs) bv),
  )
  advanced_views j from_both ms bs e (x, y, mv, bv) = (
    mem-advance_back (advance_mem it j) ms (mem_advanced j x ms (ap reads_mem e) mv),
    back_advanced (advance_mem it j) y bs (reads_back_then j from_both e)
        (back-advance_mem j (y ∷ bs) bv),
  )
