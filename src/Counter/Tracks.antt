-- ===== src/Counter/Tracks.antt =====
-- What the bitmap holds: the bits of the nonces seen, in the words that the ring has for its position.
use native.Mathlib.Decide.{dec_lt, ℕ_discrete}
use amneziawg_nt.Base.{
  ℕ, ◌+◌, ◌-◌, ◌*◌, ◌/◌, ◌%◌, ◌≤◌, ◌<◌, ◌≡◌, refl, sym, ◌∙◌, ap, inl, inr, Bool, true, false, not,
  ◌||◌, List, [], ◌∷◌, arith, ltb, ◌==◌, if◌then◌else◌, Bool-cases, length, get_or, length-set,
  get_or-set_self, get_or-set_ne, min,
}
use amneziawg_nt.Counter.{
  ReplayCounter, backtrack_words, window_size, test_bit, set_bit, clear_words, advance, mark,
}
use amneziawg_nt.Counter.Window.{limit, contains}
use amneziawg_nt.Counter.Bits.{test_bit-set_bit_self, test_bit-set_bit_ne, test_bit-zero}
use amneziawg_nt.Counter.Clear.{length-clear_words, clear_words_miss, clear_words_hit}

-- The bit that stands for `m` is that of the nonce `m - 1`.
unfoldable pub marked : List ℕ → ℕ → Bool
marked [] m = false
marked (x ∷ seen) m = m == x + 1 || marked seen m

pub marked-suc : (seen : List ℕ) (n : ℕ) → marked seen (n + 1) ≡ contains seen n
unfolding marked contains
marked-suc [] n = refl
marked-suc (x ∷ seen) n = ground (arith, marked-suc seen n)

marked_above : (seen : List ℕ) (m : ℕ) → limit seen < m → marked seen m ≡ false
unfolding marked limit
marked_above [] m h = refl
marked_above (x ∷ seen) m h = ground (arith, marked_above seen m)

-- `c` holds exactly the bits of `seen`, in the words that the ring has for its position.
pub record Tracks (c : ReplayCounter) (seen : List ℕ) : Type 0 where
  pub words : length c.backtrack ≡ backtrack_words
  pub above : limit seen ≤ c.counter
  pub bits :
      (j b : ℕ)
      → b < 64
      → j ≤ c.counter / 64
      → c.counter / 64 < j + backtrack_words
      → test_bit (get_or c.backtrack (j % backtrack_words) 0) b ≡ marked seen (64 * j + b)

-- Going forward clears the words that the ring takes over.
advance_bits :
    (c : ReplayCounter) (seen : List ℕ) (n : ℕ)
    → Tracks c seen
    → c.counter < n
    → (j b : ℕ) → b < 64
    → j ≤ n / 64
    → n / 64 < j + backtrack_words
    → test_bit
        (get_or
          (clear_words
            (min (n / 64 - c.counter / 64) backtrack_words)
            1
            (c.counter / 64)
            c.backtrack)
          (j % backtrack_words)
          0)
        b
      ≡ marked seen (64 * j + b)
advance_bits c seen n t ahead j b hb hi lo = elim (dec_lt (c.counter / 64) j) [
  | yes newer ↦
      rw
        (clear_words_hit top 1 (c.counter / 64) (j % backtrack_words)
          ((j - c.counter / 64 - 1) % backtrack_words) c.backtrack (omega arith) (omega arith)
          (omega (arith, t.words)))
        (test_bit-zero b ∙ sym (marked_above seen (64 * j + b) (omega (arith, t.above))))
  | no older ↦
      rw
        (clear_words_miss top 1 (c.counter / 64) (j % backtrack_words) c.backtrack
          (λ r below. omega arith))
        (t.bits j b hb (omega arith) (omega arith))
]
  where
    top : ℕ
    top = min (n / 64 - c.counter / 64) backtrack_words

pub advance-Tracks :
    (c : ReplayCounter) (seen : List ℕ) (n : ℕ) → Tracks c seen → Tracks (advance c n) seen
unfolding advance
advance-Tracks c seen n t = elim (Bool-cases (ltb c.counter n)) [
  | inl ahead ↦ rw ahead (record {
    words = length-clear_words _ 1 (c.counter / 64) c.backtrack ∙ t.words;
    above = ground (arith, t.above);
    bits = advance_bits c seen n t (ground arith);
  })
  | inr behind ↦ rw behind t
]

pub counter-advance :
    (c : ReplayCounter) (n : ℕ) → (advance c n).counter ≡ (if ltb c.counter n then n else c.counter)
unfolding advance
counter-advance c n = ground arith

-- The bit of `n + 1` in range answers whether `n` was seen.
pub mark-answer :
    (c : ReplayCounter) (seen : List ℕ) (n : ℕ)
    → Tracks c seen
    → n + 1 ≤ c.counter
    → c.counter ≤ n + 1 + window_size
    → (mark c (n + 1)).0 ≡ not (contains seen n)
unfolding mark
mark-answer c seen n t hi lo = ap not (
    t.bits ((n + 1) / 64) ((n + 1) % 64) (omega arith) (omega arith) (omega arith)
    ∙ ap (marked seen) (omega arith)
    ∙ marked-suc seen n)

mark_bits :
    (c : ReplayCounter) (seen : List ℕ) (n : ℕ)
    → Tracks c seen
    → n + 1 ≤ c.counter
    → c.counter ≤ n + 1 + window_size
    → (j b : ℕ) → b < 64
    → j ≤ c.counter / 64
    → c.counter / 64 < j + backtrack_words
    → test_bit (get_or (mark c (n + 1)).1.backtrack (j % backtrack_words) 0) b
      ≡ marked (n ∷ seen) (64 * j + b)
unfolding mark marked
mark_bits c seen n t hi lo j b hb jhi jlo = ground (
  arith,
  t.bits j b hb jhi jlo,
  get_or-set_self c.backtrack index (set_bit word ((n + 1) % 64)) 0,
  get_or-set_ne c.backtrack index (j % backtrack_words) (set_bit word ((n + 1) % 64)) 0,
  test_bit-set_bit_self ((n + 1) % 64) word,
  test_bit-set_bit_ne ((n + 1) % 64) b word,
  t.words,
)
  where
    index : ℕ
    index = (n + 1) / 64 % backtrack_words

    word : ℕ
    word = get_or c.backtrack index 0

pub mark-Tracks :
    (c : ReplayCounter) (seen : List ℕ) (n : ℕ)
    → Tracks c seen
    → n + 1 ≤ c.counter
    → c.counter ≤ n + 1 + window_size
    → Tracks (mark c (n + 1)).1 (n ∷ seen)
mark-Tracks c seen n t hi lo = record {
  words = unfold mark in length-set c.backtrack _ _ ∙ t.words;
  above = unfold mark limit in ground (arith, t.above);
  bits = unfold mark in mark_bits c seen n t hi lo;
}

-- A nonce seen before adds no bit.
pub Tracks-seen :
    (c : ReplayCounter) (seen : List ℕ) (n : ℕ)
    → contains seen n ≡ true
    → Tracks c (n ∷ seen)
    → Tracks c seen
Tracks-seen c seen n old t = record {
  words = t.words;
  above = unfold limit in ground (arith, t.above);
  bits = λ j b hb hi lo. t.bits j b hb hi lo ∙ same (64 * j + b);
}
  where
    same : (m : ℕ) → marked (n ∷ seen) m ≡ marked seen m
    same m = elim (ℕ_discrete m (n + 1)) [
      | yes e ↦ rw e (unfold marked in ground (arith, marked-suc seen n))
      | no ne ↦ unfold marked in ground arith
    ]
