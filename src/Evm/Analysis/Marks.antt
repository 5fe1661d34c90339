-- ===== src/Evm/Analysis/Marks.antt =====
-- evm/analysis.go: what set, set8 and their loops mark in the bit vector.
use web.Base.{
  ℕ, zero, suc, ◌+◌, ◌-◌, ◌*◌, ◌/◌, ◌%◌, ◌^◌, ◌<◌, ◌≤◌, ◌≡◌, refl, sym, ap, ◌∙◌, Bool, true, false,
  ◌&&◌, ◌||◌, not, List, [], ◌∷◌, some, length, get_elem?, set, All, ltb, leb, ◌==◌, Outcome, ok,
  arith, inl, inr, Bool-cases, ==_iff, length-set, replicate, length-replicate, if◌then◌else◌,
}
use web.Base.Bytes.{IsByte}
use web.Base.Indices.{get_elem?-set, get_elem?-set_ne}
use web.Evm.Analysis.{or_byte, set_bit, set8, set8_run, set_run, code_segment}
use web.Evm.Analysis.Bits.{is_clear, is_clear-one, is_clear-low, is_clear-high, is_clear-zero}
use Prim.Native.Nat.{bit_or}

abbrev pub in_range : ℕ → ℕ → ℕ → Bool
in_range p k q = leb p q && ltb q (p + k)

-- A vector of `n` bytes in which exactly the positions of `f` are set.
pub record Marks (n : ℕ) (bits : List ℕ) (f : ℕ → Bool) : Type 0 where
  pub bytes : All IsByte bits
  pub size : length bits ≡ n
  pub answers : (q : ℕ) → q < 8 * n → code_segment q bits ≡ ok (not (f q))

pub Marks-ext :
    (n : ℕ) (bits : List ℕ) (f g : ℕ → Bool)
    → ((q : ℕ) → f q ≡ g q)
    → Marks n bits f
    → Marks n bits g
Marks-ext n bits f g e m = record {
  bytes = m.bytes;
  size = m.size;
  answers = λ q h. m.answers q h ∙ ap (λ b. ok (not b)) (e q);
}

-- The call returns a vector with these marks.
abbrev pub Gives : ℕ → (ℕ → Bool) → Outcome (List ℕ) → Type 0
Gives n f r = (bits : List ℕ) × (r ≡ ok bits) × Marks n bits f

byte_at :
    (bits : List ℕ) (i : ℕ)
    → All IsByte bits
    → i < length bits
    → (b : ℕ) × (get_elem? bits i ≡ some b) × (b < 256)
byte_at [] i a h = absurd (omega arith)
byte_at (b ∷ bits) zero a h = (b, refl, a.0)
byte_at (b ∷ bits) (suc i) a h = byte_at bits i a.1 (omega arith)

set-IsByte : (bits : List ℕ) (i b : ℕ) → All IsByte bits → b < 256 → All IsByte (set bits i b)
set-IsByte [] i b a h = tt
set-IsByte (x ∷ bits) zero b a h = (h, a.1)
set-IsByte (x ∷ bits) (suc i) b a h = (a.0, set-IsByte bits i b a.1 h)

segment_of :
    (q b : ℕ) (bits : List ℕ)
    → get_elem? bits (q / 8) ≡ some b
    → code_segment q bits ≡ ok (is_clear (q % 8) b)
unfolding code_segment
segment_of q b bits e = rw (e, code_segment)

-- Storing a byte changes the positions of that byte.
segment-set :
    (q i b : ℕ) (bits : List ℕ)
    → i < length bits
    → code_segment q (set bits i b)
      ≡ (if q / 8 == i then ok (is_clear (q % 8) b) else code_segment q bits)
unfolding code_segment
segment-set q i b bits h = elim (Bool-cases (q / 8 == i)) [
  | inl e ↦
      let same : q / 8 ≡ i = (==_iff (q / 8) i).0 e in
      rw e (segment_of q b (set bits i b) (rw same (get_elem?-set bits i b h)))
  | inr e ↦ rw e (other (get_elem?-set_ne bits i (q / 8) b (λ s. ground arith)))
]
  where
    other :
        get_elem? (set bits i b) (q / 8) ≡ get_elem? bits (q / 8)
        → code_segment q (set bits i b) ≡ code_segment q bits
    other e = rw (e, code_segment)

abbrev Keeps : ℕ → (ℕ → Bool) → Type 0
Keeps mask keeps =
    (b j : ℕ)
    → b < 256
    → j < 8
    → (is_clear j (bit_or b mask) ≡ (is_clear j b && keeps j)) × (bit_or b mask < 256)

not-or : (a c : Bool) → (not a && c) ≡ not (a || not c)
not-or true c = refl
not-or false true = refl
not-or false false = refl

ok_inj_bool : {a b : Bool} → ok a ≡ ok b → a ≡ b
ok_inj_bool h = cc

or_byte-Marks :
    (n i mask : ℕ) (keeps f : ℕ → Bool) (bits : List ℕ)
    → Keeps mask keeps
    → Marks n bits f
    → i < n
    → Gives n (λ q. f q || ((q / 8 == i) && not (keeps (q % 8)))) (or_byte i mask bits)
unfolding or_byte
or_byte-Marks n i mask keeps f bits law m h =
    let inside : i < length bits = omega (arith, m.size) in
    let (b, e, small) = byte_at bits i m.bytes inside in
    (
      set bits i (bit_or b mask),
      rw (e, or_byte),
      record {
        bytes = set-IsByte bits i (bit_or b mask) m.bytes (law b 0 small (omega arith)).1;
        size = length-set bits i (bit_or b mask) ∙ m.size;
        answers = λ q hq. segment-set q i (bit_or b mask) bits inside ∙ answer b small e q hq;
      },
    )
  where
    answer :
        (b : ℕ)
        → b < 256
        → get_elem? bits i ≡ some b
        → (q : ℕ) → q < 8 * n
        → (if q / 8 == i then ok (is_clear (q % 8) (bit_or b mask)) else code_segment q bits)
          ≡ ok (not (f q || ((q / 8 == i) && not (keeps (q % 8)))))
    answer b small e q hq = elim (Bool-cases (q / 8 == i)) [
      | inl s ↦
          let same : q / 8 ≡ i = (==_iff (q / 8) i).0 s in
          let old : is_clear (q % 8) b ≡ not (f q) =
            ok_inj_bool (sym (segment_of q b bits (rw same e)) ∙ m.answers q hq) in
          rw (s, (law b (q % 8) small (omega arith)).0, old) (ap ok (not-or (f q) (keeps (q % 8))))
      | inr s ↦ rw s (m.answers q hq ∙ ap (λ b. ok (not b)) (or-false (f q)))
    ]
      where
        or-false : (a : Bool) → a ≡ (a || false)
        or-false true = refl
        or-false false = refl

false-or : (a c : Bool) → c ≡ false → (a || c) ≡ a
false-or true c h = refl
false-or false c h = h

set_bit-Marks :
    (n p : ℕ) (f : ℕ → Bool) (bits : List ℕ)
    → Marks n bits f
    → p < 8 * n
    → Gives n (λ q. f q || in_range p 1 q) (set_bit p bits)
unfolding set_bit
set_bit-Marks n p f bits m h =
    let (bits', e, m') =
      or_byte-Marks n (p / 8) (0x80 / 2 ^ (p % 8)) (λ j. not (p % 8 == j)) f bits
        (λ b j hb hj. is_clear-one b (p % 8) j hb (omega arith) hj) m (omega arith) in
    (bits', e, Marks-ext n bits' _ _ (λ q. ap (◌||◌ (f q)) (here q)) m')
  where
    here : (q : ℕ) → ((q / 8 == p / 8) && not (not (p % 8 == q % 8))) ≡ in_range p 1 q
    here q = ground arith

pub or_assoc : (a b c d : Bool) → (b || c) ≡ d → ((a || b) || c) ≡ (a || d)
or_assoc true b c d h = refl
or_assoc false b c d h = h

-- Eight positions, over two bytes: the one past the last is needed even where no bit of it is set.
set8-Marks :
    (n p : ℕ) (f : ℕ → Bool) (bits : List ℕ)
    → Marks n bits f
    → p / 8 + 1 < n
    → Gives n (λ q. f q || in_range p 8 q) (set8 p bits)
unfolding set8
set8-Marks n p f bits m h =
    let (bits₁, e₁, m₁) =
      or_byte-Marks n (p / 8) (0xff / 2 ^ (p % 8)) (λ j. ltb j (p % 8)) f bits
        (λ b j hb hj. is_clear-low b (p % 8) j hb (omega arith) hj) m (omega arith) in
    let (bits₂, e₂, m₂) =
      or_byte-Marks n (p / 8 + 1) (0xff - 0xff / 2 ^ (p % 8)) (λ j. leb (p % 8) j) _ bits₁
        (λ b j hb hj. is_clear-high b (p % 8) j hb (omega arith) hj) m₁ h in
    (bits₂, rw e₁ e₂, Marks-ext n bits₂ _ _ (λ q. or_assoc (f q) _ _ _ (here q)) m₂)
  where
    here :
        (q : ℕ)
        → (((q / 8 == p / 8) && not (ltb (q % 8) (p % 8)))
            || ((q / 8 == p / 8 + 1) && not (leb (p % 8) (q % 8))))
          ≡ in_range p 8 q
    here q = ground arith

pub range_join :
    (p a b c q : ℕ) → c ≡ a + b → (in_range p a q || in_range (p + a) b q) ≡ in_range p c q
range_join p a b c q h = ground arith

pub set_run-Marks :
    (k n p : ℕ) (f : ℕ → Bool) (bits : List ℕ)
    → Marks n bits f
    → p + k ≤ 8 * n
    → Gives n (λ q. f q || in_range p k q) (set_run k p bits)
unfolding set_run
set_run-Marks zero n p f bits m h =
    (bits, refl, Marks-ext n bits f _ (λ q. sym (false-or (f q) _ (ground arith))) m)
set_run-Marks (suc k) n p f bits m h =
    let (bits₁, e₁, m₁) = set_bit-Marks n p f bits m (omega arith) in
    let (bits₂, e₂, m₂) = set_run-Marks k n (p + 1) _ bits₁ m₁ (omega arith) in
    (
      bits₂,
      rw e₁ e₂,
      Marks-ext n bits₂ _ _ (λ q. or_assoc (f q) _ _ _ (range_join p 1 k (suc k) q (omega arith)))
          m₂,
    )

pub set8_run-Marks :
    (k n p : ℕ) (f : ℕ → Bool) (bits : List ℕ)
    → Marks n bits f
    → p / 8 + k < n
    → Gives n (λ q. f q || in_range p (8 * k) q) (set8_run k p bits)
unfolding set8_run
set8_run-Marks zero n p f bits m h =
    (bits, refl, Marks-ext n bits f _ (λ q. sym (false-or (f q) _ (ground arith))) m)
set8_run-Marks (suc k) n p f bits m h =
    let (bits₁, e₁, m₁) = set8-Marks n p f bits m (omega arith) in
    let (bits₂, e₂, m₂) = set8_run-Marks k n (p + 8) _ bits₁ m₁ (omega arith) in
    (
      bits₂,
      rw e₁ e₂,
      Marks-ext n bits₂ _ _
          (λ q. or_assoc (f q) _ _ _ (range_join p 8 (8 * k) (8 * suc k) q (omega arith))) m₂,
    )

replicate-IsByte : (n : ℕ) → All IsByte (replicate n 0)
replicate-IsByte zero = tt
replicate-IsByte (suc n) = (omega arith, replicate-IsByte n)

get_elem?-replicate : (n i : ℕ) → i < n → get_elem? {A = ℕ} (replicate n 0) i ≡ some 0
get_elem?-replicate zero i h = absurd (omega arith)
get_elem?-replicate (suc n) zero h = refl
get_elem?-replicate (suc n) (suc i) h = get_elem?-replicate n i (omega arith)

pub replicate-Marks : (n : ℕ) → Marks n (replicate n 0) (λ q. false)
replicate-Marks n = record {
  bytes = replicate-IsByte n;
  size = length-replicate n 0;
  answers = λ q h.
      segment_of q 0 (replicate n 0) (get_elem?-replicate n (q / 8) (omega arith))
      ∙ ap ok (is_clear-zero (q % 8) (omega arith));
}
