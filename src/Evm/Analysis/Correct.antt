-- ===== src/Evm/Analysis/Correct.antt =====
-- evm/analysis.go: codeBitmap marks exactly the data of the PUSH instructions.
use web.Base.{
  ℕ, zero, suc, ◌+◌, ◌-◌, ◌*◌, ◌/◌, ◌%◌, ◌<◌, ◌≤◌, ◌≡◌, refl, sym, ap, ◌∙◌, Bool, true, false, ◌||◌,
  not, List, [], ◌∷◌, some, none, length, get_elem?, drop, ltb, ◌==◌, ok, arith, inl, inr,
  Option-cases, Bool-cases, ltb→lt, length-drop,
}
use web.Evm.Analysis.{push_size, bitmap_loop, code_bitmap, code_segment, set8_run, set_run}
use web.Evm.Analysis.Marks.{
  Marks, Marks-ext, in_range, set_run-Marks, set8_run-Marks, or_assoc, range_join, replicate-Marks,
}
use web.Base.Indices.{lt-length_of_get_elem?}

-- Whether the byte at `q` is data, read off the program from the left: `skip` bytes of data come
-- first, then an instruction.
unfoldable pub is_data : ℕ → List ℕ → ℕ → Bool
is_data skip [] q = false
is_data zero (op ∷ code) zero = false
is_data zero (op ∷ code) (suc q) = is_data (push_size op) code q
is_data (suc skip) (op ∷ code) zero = true
is_data (suc skip) (op ∷ code) (suc q) = is_data skip code q

push_size_le : (op : ℕ) → push_size op ≤ 32
unfolding push_size
push_size_le op = ground arith

-- Behind the skipped bytes the program starts afresh.
is_data-drop :
    (skip : ℕ) (code : List ℕ) (q : ℕ) → is_data skip code (skip + q) ≡ is_data 0 (drop skip code) q
unfolding is_data
is_data-drop zero code q = ap (is_data 0 code) (omega arith)
is_data-drop (suc skip) [] q = refl
is_data-drop (suc skip) (op ∷ code) q =
    ap (is_data (suc skip) (op ∷ code)) {y = suc (skip + q)} (omega arith)
    ∙ is_data-drop skip code q

is_data_skipped :
    (skip : ℕ) (code : List ℕ) (q : ℕ) → q < skip → q < length code → is_data skip code q ≡ true
unfolding is_data
is_data_skipped zero code q h l = absurd (omega arith)
is_data_skipped (suc skip) [] q h l = absurd (omega arith)
is_data_skipped (suc skip) (op ∷ code) zero h l = refl
is_data_skipped (suc skip) (op ∷ code) (suc q) h l =
    is_data_skipped skip code q (omega arith) (omega arith)

get_elem?-drop :
    (pc : ℕ) (code : List ℕ) (op : ℕ)
    → get_elem? code pc ≡ some op
    → drop pc code ≡ op ∷ drop (suc pc) code
get_elem?-drop pc [] op h = cc
get_elem?-drop zero (x ∷ code) op h = cc
get_elem?-drop (suc pc) (x ∷ code) op h = get_elem?-drop pc code op h

get_elem?-none : (pc : ℕ) (code : List ℕ) → get_elem? code pc ≡ none → length code ≤ pc
get_elem?-none pc [] h = omega arith
get_elem?-none zero (x ∷ code) h = cc
get_elem?-none (suc pc) (x ∷ code) h = omega (arith, get_elem?-none pc code h)

drop_nil : (n : ℕ) → drop {A = ℕ} n [] ≡ []
drop_nil zero = refl
drop_nil (suc n) = refl

or_of_false : (a c d : Bool) → c ≡ false → a ≡ d → (a || c) ≡ d
or_of_false true c d h e = e
or_of_false false c d h e = h ∙ e

drop-drop : (a b : ℕ) (code : List ℕ) → drop (b + a) code ≡ drop a (drop b code)
drop-drop a zero code = ap (λ x. drop x code) (omega arith)
drop-drop a (suc b) [] = drop_nil (suc b + a) ∙ sym (drop_nil a)
drop-drop a (suc b) (x ∷ code) =
    ap (λ i. drop i (x ∷ code)) {y = suc (b + a)} (omega arith) ∙ drop-drop a b code

-- The loop stands at an instruction: what is behind is marked, what is ahead is not.
record Reached (code : List ℕ) (pc : ℕ) (f : ℕ → Bool) : Type 0 where
  behind : (q : ℕ) → q < pc → q < length code → f q ≡ is_data 0 code q
  clear : (q : ℕ) → pc ≤ q → f q ≡ false
  ahead : (j : ℕ) → is_data 0 code (pc + j) ≡ is_data 0 (drop pc code) j

module _ (code : List ℕ) (pc op : ℕ) (f : ℕ → Bool) (at_pc : get_elem? code pc ≡ some op)
    (r : Reached code pc f) where
  inside : (j : ℕ) → is_data 0 code (pc + j) ≡ is_data 0 (op ∷ drop (suc pc) code) j
  inside j = r.ahead j ∙ ap (λ c. is_data 0 c j) (get_elem?-drop pc code op at_pc)

  behind_next :
      (q : ℕ)
      → q < pc + 1 + push_size op
      → q < length code
      → (f q || in_range (pc + 1) (push_size op) q) ≡ is_data 0 code q
  unfolding is_data
  behind_next q h l = elim (Bool-cases (ltb q pc)) [
    | inl e ↦ or_of_false (f q) _ (is_data 0 code q) (ground arith) (r.behind q (ltb→lt _ _ e) l)
    | inr e ↦ elim (Bool-cases (q == pc)) [
      | inl s ↦
          let same : pc + 0 ≡ q = ground arith in
          or_of_false (f q) _ (is_data 0 code q) (ground arith)
            (r.clear q (ground arith) ∙ sym (inside 0) ∙ ap (is_data 0 code) same)
      | inr s ↦
          let j = q - suc pc in
          let place : pc + suc j ≡ q = ground arith in
          rw (r.clear q (ground arith)) (
            (ground arith)
            ∙ sym (
                is_data_skipped (push_size op) (drop (suc pc) code) j (ground arith)
                  (ground (arith, length-drop (suc pc) code)))
            ∙ sym (inside (suc j))
            ∙ ap (is_data 0 code) place)
    ]
  ]

  ahead_next :
      (j : ℕ)
      → is_data 0 code (pc + 1 + push_size op + j) ≡ is_data 0 (drop (pc + 1 + push_size op) code) j
  unfolding is_data
  ahead_next j =
      ap (is_data 0 code) {y = pc + suc (push_size op + j)} (omega arith)
      ∙ inside (suc (push_size op + j))
      ∙ is_data-drop (push_size op) (drop (suc pc) code) j
      ∙ ap (λ c. is_data 0 c j)
          (sym (drop-drop (push_size op) (suc pc) code) ∙ ap (λ x. drop x code) (omega arith))

  Reached-next :
      Reached code (pc + 1 + push_size op) (λ q. f q || in_range (pc + 1) (push_size op) q)
  Reached-next = record {
    behind = behind_next;
    clear = λ q h. rw (r.clear q (omega arith)) (ground arith);
    ahead = ahead_next;
  }

-- One PUSH, or another instruction: its data are marked.
Marks-data :
    (n pc size : ℕ) (f : ℕ → Bool) (bits : List ℕ)
    → Marks n bits f
    → size ≤ 32
    → pc + 32 < 8 * n
    → (pc + 1) / 8 + 4 < n
    → (bits₁ : List ℕ) × (bits₂ : List ℕ) × (set8_run (size / 8) (pc + 1) bits ≡ ok bits₁)
      × (set_run (size % 8) (pc + 1 + 8 * (size / 8)) bits₁ ≡ ok bits₂)
      × Marks n bits₂ (λ q. f q || in_range (pc + 1) size q)
Marks-data n pc size f bits m small room room8 =
    let (bits₁, e₁, m₁) = set8_run-Marks (size / 8) n (pc + 1) f bits m (omega arith) in
    let (bits₂, e₂, m₂) =
      set_run-Marks (size % 8) n (pc + 1 + 8 * (size / 8)) _ bits₁ m₁ (omega arith) in
    (
      bits₁,
      bits₂,
      e₁,
      e₂,
      Marks-ext n bits₂ _ _
          (λ q.
            or_assoc (f q) _ _ _
              (range_join (pc + 1) (8 * (size / 8)) (size % 8) size q (omega arith)))
          m₂,
    )

loop_step :
    (fuel : ℕ) (code : List ℕ) (pc op : ℕ) (bits bits₁ bits₂ : List ℕ)
    → get_elem? code pc ≡ some op
    → set8_run (push_size op / 8) (pc + 1) bits ≡ ok bits₁
    → set_run (push_size op % 8) (pc + 1 + 8 * (push_size op / 8)) bits₁ ≡ ok bits₂
    → bitmap_loop (suc fuel) code pc bits ≡ bitmap_loop fuel code (pc + 1 + push_size op) bits₂
unfolding bitmap_loop
loop_step fuel code pc op bits bits₁ bits₂ e e₁ e₂ = rw (e, bitmap_loop, e₁, e₂) refl

loop-Marks :
    (fuel : ℕ) (code : List ℕ) (pc : ℕ) (f : ℕ → Bool) (bits : List ℕ)
    → 0 < fuel
    → length code < fuel + pc
    → Marks (length code / 8 + 1 + 4) bits f
    → Reached code pc f
    → (bits' : List ℕ) × (bitmap_loop fuel code pc bits ≡ ok bits')
      × ((q : ℕ) → q < length code → code_segment q bits' ≡ ok (not (is_data 0 code q)))
unfolding bitmap_loop
loop-Marks zero code pc f bits some_fuel enough m r = absurd (omega arith)
loop-Marks (suc fuel) code pc f bits some_fuel enough m r =
    elim (Option-cases (get_elem? code pc)) [
      | inl e ↦ (
        bits,
        rw (e, bitmap_loop),
        λ q h.
            m.answers q (omega arith)
            ∙ ap (λ b. ok (not b)) (r.behind q (omega (arith, get_elem?-none pc code e)) h),
      )
      | inr (op, e) ↦
          let inside : pc < length code = lt-length_of_get_elem? code pc op e in
          let (bits₁, bits₂, e₁, e₂, m₂) =
            Marks-data _ pc (push_size op) f bits m (push_size_le op) (omega arith) (omega arith) in
          let (bits', run, answers) =
            loop-Marks fuel code (pc + 1 + push_size op) _ bits₂ (omega arith) (omega arith) m₂
              (Reached-next code pc op f e r) in
          (bits', loop_step fuel code pc op bits bits₁ bits₂ e e₁ e₂ ∙ run, answers)
    ]

-- For every program, codeBitmap returns, without an index out of range, and codeSegment on its
-- vector calls a position within the program code exactly if it is not data of a PUSH, read off
-- the program from the left.
pub code_bitmap_lem :
    (code : List ℕ)
    → (bits : List ℕ) × (code_bitmap code ≡ ok bits)
      × ((q : ℕ) → q < length code → code_segment q bits ≡ ok (not (is_data 0 code q)))
unfolding code_bitmap
code_bitmap_lem code =
    loop-Marks (suc (length code)) code 0 (λ q. false) _ (omega arith) (omega arith)
      (replicate-Marks _)
      (record {
        behind = λ q h. absurd (omega arith);
        clear = λ q h. refl;
        ahead = λ j. ap (is_data 0 code) (omega arith);
      })
