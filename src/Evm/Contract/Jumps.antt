-- ===== src/Evm/Contract/Jumps.antt =====
-- evm/contract.go: validJumpdest and validJumpSubdest, with the analysis that they remember.
use web.Base.{
  ℕ, ◌^◌, ◌<◌, ◌≡◌, refl, sym, ap, ◌∙◌, Bool, true, false, ◌&&◌, not, List, some, none, length,
  get_or, ltb, leb, ◌==◌, ok, arith, inl, inr, Bool-cases, Option-cases, ltb→lt, lt→ltb, leb-false,
  ok_inj,
}
use web.Base.Keys.{bytes_eq}
use web.Base.Bytes.{u64_mod}
use web.Storage.SortedMap.{Entries, find, insert, find-insert_self}
use web.Storage.Account.{zero_hash}
use web.Evm.Word.{Word}
use web.Evm.Analysis.{code_bitmap, code_segment}
use web.Evm.Analysis.Correct.{is_data, code_bitmap_lem}
use web.Evm.Contract.{
  Contract, analysed, is_code, valid_jumpdest, valid_jump_subdest, jumpdest, beginsub,
}

-- What is remembered of this code, in the contract and in the map, is its analysis.
pub record Remembers (c : Contract) : Type 0 where
  pub own : (bits : List ℕ) → c.analysis ≡ some bits → code_bitmap c.code ≡ ok bits
  pub shared :
      (bits : List ℕ)
      → bytes_eq c.code_hash zero_hash ≡ false
      → find c.code_hash c.jumpdests ≡ (bits, false)
      → code_bitmap c.code ≡ ok bits

-- Only what is remembered may change.
pub record SameCode (c c' : Contract) : Type 0 where
  pub code : c'.code ≡ c.code
  pub code_hash : c'.code_hash ≡ c.code_hash
  pub gas : c'.gas ≡ c.gas
  pub remembers : Remembers c'

-- The byte at `dest` is an instruction `op` of the program, and no data.
abbrev pub is_instruction : ℕ → List ℕ → ℕ → Bool
is_instruction op code dest =
    ltb dest (length code) && (get_or code dest 0 == op) && not (is_data 0 code dest)

-- The analysis of the code, and the contract that remembers it.
abbrev Analyses : Contract → Type 0
Analyses c =
    (bits : List ℕ) × (c' : Contract) × (analysed c ≡ ok (bits, c'))
    × (code_bitmap c.code ≡ ok bits)
    × SameCode c c'

some_inj : {a b : List ℕ} → some a ≡ some b → a ≡ b
some_inj h = cc

pair_inj : {a b : List ℕ} {p q : Bool} → ◌≡◌ {A = List ℕ × Bool} (a, p) (b, q) → a ≡ b
pair_inj h = ap (λ (x : List ℕ × Bool). x.0) h

le_true : (a b : ℕ) → ltb b a ≡ false → leb a b ≡ true
le_true a b h = ground arith

-- The contract's own analysis, set to that of its code, and a map that agrees.
stash :
    (c : Contract) (bits : List ℕ) (m : Entries)
    → code_bitmap c.code ≡ ok bits
    → ((b : List ℕ)
        → bytes_eq c.code_hash zero_hash ≡ false
        → find c.code_hash m ≡ (b, false)
        → code_bitmap c.code ≡ ok b)
    → SameCode c (record c { analysis = some bits; jumpdests = m })
stash c bits m made agrees = record {
  code = refl;
  code_hash = refl;
  gas = refl;
  remembers = record { own = λ b e. made ∙ ap ok (some_inj e); shared = agrees };
}

module _ (c : Contract) (r : Remembers c) where
  from_own : (bits : List ℕ) → c.analysis ≡ some bits → Analyses c
  unfolding analysed
  from_own bits e = (
    bits,
    c,
    simp (e, analysed),
    r.own bits e,
    record { code = refl; code_hash = refl; gas = refl; remembers = r },
  )

  from_map :
      (bits : List ℕ)
      → c.analysis ≡ none
      → bytes_eq c.code_hash zero_hash ≡ false
      → find c.code_hash c.jumpdests ≡ (bits, false)
      → Analyses c
  unfolding analysed
  from_map bits e h f = (
    bits,
    record c { analysis = some bits },
    rw (e, analysed, h, f),
    r.shared bits h f,
    stash c bits c.jumpdests (r.shared bits h f) r.shared,
  )

  from_code :
      (bits : List ℕ)
      → c.analysis ≡ none
      → bytes_eq c.code_hash zero_hash ≡ true
      → code_bitmap c.code ≡ ok bits
      → Analyses c
  unfolding analysed
  from_code bits e h made = (
    bits,
    record c { analysis = some bits },
    rw (e, analysed, h, made),
    made,
    stash c bits c.jumpdests made r.shared,
  )

  from_code_shared :
      (bits old : List ℕ)
      → c.analysis ≡ none
      → bytes_eq c.code_hash zero_hash ≡ false
      → find c.code_hash c.jumpdests ≡ (old, true)
      → code_bitmap c.code ≡ ok bits
      → Analyses c
  unfolding analysed
  from_code_shared bits old e h f made = (
    bits,
    record c { analysis = some bits; jumpdests = insert c.code_hash bits c.jumpdests },
    rw (e, analysed, h, f, made),
    made,
    stash c bits (insert c.code_hash bits c.jumpdests) made (λ b h' f'.
        made ∙ ap ok (pair_inj (sym (find-insert_self c.code_hash bits c.jumpdests) ∙ f'))),
  )

  analysed_lem : Analyses c
  analysed_lem =
      let (made, e, answers) = code_bitmap_lem c.code in
      elim (Option-cases c.analysis) [
        | inr (bits, own) ↦ from_own bits own
        | inl none_yet ↦ elim (Bool-cases (bytes_eq c.code_hash zero_hash)) [
          | inl h ↦ from_code made none_yet h e
          | inr h ↦ elim (Bool-cases (find c.code_hash c.jumpdests).1) [
            | inl f ↦
                from_code_shared made (find c.code_hash c.jumpdests).0 none_yet h
                  (ap (λ b. ((find c.code_hash c.jumpdests).0, b)) f) e
            | inr f ↦
                from_map (find c.code_hash c.jumpdests).0 none_yet h
                  (ap (λ b. ((find c.code_hash c.jumpdests).0, b)) f)
          ]
        ]
      ]

  is_code_lem :
      (udest : ℕ)
      → udest < length c.code
      → (c' : Contract) × (is_code udest c ≡ ok (not (is_data 0 c.code udest), c')) × SameCode c c'
  unfolding is_code
  is_code_lem udest h =
      let (bits, c', e, made, same) = analysed_lem in
      let (made', e', answers) = code_bitmap_lem c.code in
      let bits_same : made' ≡ bits = ok_inj (sym e' ∙ made) in
      (c', rw (e, ap (code_segment udest) (sym bits_same) ∙ answers udest h) refl, same)

  unchanged : SameCode c c
  unchanged = record { code = refl; code_hash = refl; gas = refl; remembers = r }

  -- For a contract of which only right analyses are remembered, in itself and in the shared map,
  -- and a program shorter than 2^64 bytes, validJumpdest answers, for any 256-bit destination,
  -- whether it is a JUMPDEST within the code that is no push data, and what it remembers then is
  -- right again.
  pub valid_jumpdest_lem :
      (w : Word) (dest : ℕ)
      → length c.code < u64_mod
      → (c' : Contract) × (valid_jumpdest w dest c ≡ ok (is_instruction jumpdest c.code dest, c'))
        × SameCode c c'
  unfolding valid_jumpdest
  valid_jumpdest_lem w dest short = elim (Bool-cases (ltb dest (length c.code))) [
    | inr out ↦ (c, outside w dest out, unchanged)
    | inl inside ↦
        let lt : dest < length c.code = ltb→lt _ _ inside in
        let u : w.uint64 dest ≡ dest = w.uint64_truncates dest ∙ omega arith in
        let fits : w.is_uint64 dest ≡ true = w.is_uint64_lem dest ∙ lt→ltb _ _ (omega arith) in
        elim (Bool-cases (get_or c.code dest 0 == jumpdest)) [
          | inr other ↦
              (c, rw (fits, u, leb-false (length c.code) dest lt, inside, other) refl, unchanged)
          | inl op ↦
              let (c', e, same) = is_code_lem dest lt in
              (c', rw (fits, u, leb-false (length c.code) dest lt, inside, op) e, same)
        ]
  ]
    where
      outside :
          (w : Word) (dest : ℕ)
          → ltb dest (length c.code) ≡ false
          → valid_jumpdest w dest c ≡ ok (is_instruction jumpdest c.code dest, c)
      outside w dest out = elim (Bool-cases (ltb dest u64_mod)) [
        | inr large ↦ rw (w.is_uint64_lem dest ∙ large, out) refl
        | inl small ↦
            let u : w.uint64 dest ≡ dest =
              w.uint64_truncates dest ∙ omega (arith, ltb→lt _ _ small) in
            rw (w.is_uint64_lem dest ∙ small, u, out, le_true (length c.code) dest out) refl
      ]

  pub valid_jump_subdest_lem :
      (udest : ℕ)
      → length c.code < 2 ^ 63
      → (c' : Contract) × (valid_jump_subdest udest c
          ≡ ok (is_instruction beginsub c.code udest, c'))
        × SameCode c c'
  unfolding valid_jump_subdest
  valid_jump_subdest_lem udest short = elim (Bool-cases (ltb udest (length c.code))) [
    | inr out ↦ (c, ground arith, unchanged)
    | inl inside ↦ elim (Bool-cases (get_or c.code udest 0 == beginsub)) [
      | inr other ↦ (c, ground arith, unchanged)
      | inl op ↦
          let (c', e, same) = is_code_lem udest (ltb→lt _ _ inside) in
          (
            c',
            rw
                (
                  leb-false (2 ^ 63) udest (omega (arith, ltb→lt _ _ inside)),
                  leb-false (length c.code) udest (ltb→lt _ _ inside),
                  inside,
                  op,
                )
                e,
            same,
          )
    ]
  ]
