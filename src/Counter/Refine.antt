-- ===== src/Counter/Refine.antt =====
-- The bitmap implements the abstract window: the same answers to every sequence of nonces.
use native.Mathlib.Decide.{dec_lt}
use amneziawg_nt.Base.{
  ℕ, ◌+◌, ◌%◌, ◌≤◌, ◌<◌, ◌≡◌, refl, ap₂, ◌⊎◌, inl, inr, false, not, List, [], ◌∷◌, arith,
  if◌then◌else◌, Bool-cases, length-replicate, get_or-replicate, count,
}
use amneziawg_nt.Counter.{
  ReplayCounter, backtrack_words, window_size, reject_after_messages, advance, mark,
  counter_validate, fresh, run,
}
use amneziawg_nt.Counter.Window.{
  limit, contains, validate, lt-limit_of_contains, run_once, accepted,
}
use amneziawg_nt.Counter.Window
use amneziawg_nt.Counter.Tracks.{
  marked, Tracks, advance-Tracks, counter-advance, mark-answer, mark-Tracks, Tracks-seen,
}
use amneziawg_nt.Counter.Bits.{test_bit-zero}

-- The relation between a counter and the nonces that it accepted.
pub record Holds (c : ReplayCounter) (seen : List ℕ) : Type 0 where
  tracks : Tracks c seen
  greatest : c.counter ≡ limit seen
  bounded : c.counter ≤ reject_after_messages

counter_validate-mark :
    (c : ReplayCounter) (n : ℕ)
    → c.counter ≤ reject_after_messages
    → n < reject_after_messages
    → c.counter ≤ n + 1 + window_size
    → counter_validate c n ≡ mark (advance c (n + 1)) (n + 1)
unfolding counter_validate
counter_validate-mark c n bounded below near = ground arith

counter_validate-reject :
    (c : ReplayCounter) (n : ℕ)
    → c.counter ≤ reject_after_messages
    → (reject_after_messages ≤ n) ⊎ (n + 1 + window_size < c.counter)
    → counter_validate c n ≡ (false, c)
unfolding counter_validate
counter_validate-reject c n bounded far = ground arith

unfoldable pub Agrees : ReplayCounter → List ℕ → ℕ → Type 0
Agrees c seen n =
    ((counter_validate c n).0 ≡ (validate seen n).0)
    × Holds (counter_validate c n).1 (validate seen n).1

validate-near :
    (seen : List ℕ) (n : ℕ)
    → n < reject_after_messages
    → limit seen ≤ n + 1 + window_size
    → validate seen n ≡ (not (contains seen n), if contains seen n then seen else n ∷ seen)
unfolding validate
validate-near seen n below near = ground arith

validate_far :
    (seen : List ℕ) (n : ℕ)
    → (reject_after_messages ≤ n) ⊎ (n + 1 + window_size < limit seen)
    → validate seen n ≡ (false, seen)
unfolding validate
validate_far seen n far = ground arith

mark-Holds :
    (c : ReplayCounter) (seen : List ℕ) (n : ℕ)
    → Holds c seen
    → n < reject_after_messages
    → Tracks (mark (advance c (n + 1)) (n + 1)).1 (n ∷ seen)
    → Holds (mark (advance c (n + 1)) (n + 1)).1 (if contains seen n then seen else n ∷ seen)
mark-Holds c seen n h below t = elim (Bool-cases (contains seen n)) [
  | inl old ↦ rw old (record {
    tracks = Tracks-seen _ seen n old t;
    greatest =
        unfold mark in
        ground (arith, counter-advance c (n + 1), lt-limit_of_contains seen n, h.greatest);
    bounded = unfold mark in ground (arith, counter-advance c (n + 1), h.bounded);
  })
  | inr new ↦ rw new (record {
    tracks = t;
    greatest = unfold mark limit in ground (arith, counter-advance c (n + 1), h.greatest);
    bounded = unfold mark in ground (arith, counter-advance c (n + 1), h.bounded);
  })
]

accept-Agrees :
    (c : ReplayCounter) (seen : List ℕ) (n : ℕ)
    → Holds c seen
    → n < reject_after_messages
    → c.counter ≤ n + 1 + window_size
    → Agrees c seen n
unfolding Agrees
accept-Agrees c seen n h below near =
    rw
      (
        counter_validate-mark c n h.bounded below near,
        validate-near seen n below (omega (arith, h.greatest)),
      )
      (
        mark-answer next seen n tracked hi lo,
        mark-Holds c seen n h below (mark-Tracks next seen n tracked hi lo),
      )
  where
    next : ReplayCounter
    next = advance c (n + 1)

    tracked : Tracks next seen
    tracked = advance-Tracks c seen (n + 1) h.tracks

    hi : n + 1 ≤ next.counter
    hi = ground (arith, counter-advance c (n + 1))

    lo : next.counter ≤ n + 1 + window_size
    lo = ground (arith, counter-advance c (n + 1))

reject-Agrees :
    (c : ReplayCounter) (seen : List ℕ) (n : ℕ)
    → Holds c seen
    → (reject_after_messages ≤ n) ⊎ (n + 1 + window_size < c.counter)
    → Agrees c seen n
unfolding Agrees
reject-Agrees c seen n h far =
    rw (counter_validate-reject c n h.bounded far, validate_far seen n (ground (arith, h.greatest)))
      (refl, h)

pub validate-Agrees : (c : ReplayCounter) (seen : List ℕ) (n : ℕ) → Holds c seen → Agrees c seen n
validate-Agrees c seen n h = elim (dec_lt n reject_after_messages) [
  | yes below ↦ elim (dec_lt (n + 1 + window_size) c.counter) [
    | yes far ↦ reject-Agrees c seen n h (inr far)
    | no near ↦ accept-Agrees c seen n h below (omega arith)
  ]
  | no big ↦ reject-Agrees c seen n h (inl (omega arith))
]

run-Agrees : (c : ReplayCounter) (seen ns : List ℕ) → Holds c seen → run c ns ≡ Window.run seen ns
unfolding run Window.run Agrees
run-Agrees c seen [] h = refl
run-Agrees c seen (n ∷ ns) h =
    let step = validate-Agrees c seen n h in
    ap₂ ◌∷◌ step.0 (run-Agrees (counter_validate c n).1 (validate seen n).1 ns step.1)

pub fresh-Holds : Holds fresh []
unfolding fresh limit marked
fresh-Holds = record {
  tracks = record {
    words = length-replicate {A = ℕ} backtrack_words 0;
    above = omega arith;
    bits = λ j b hb hi lo.
        rw (get_or-replicate {A = ℕ} backtrack_words (j % backtrack_words) 0) (test_bit-zero b);
  };
  greatest = refl;
  bounded = omega arith;
}

-- For every sequence of nonces, the bitmap counter that starts fresh gives the answers of the
-- abstract window that starts with no nonce accepted.
pub run-refines-window : (ns : List ℕ) → run fresh ns ≡ Window.run [] ns
run-refines-window ns = run-Agrees fresh [] ns fresh-Holds

-- In every sequence of nonces, whatever their order and however often they come, the counter that
-- starts fresh accepts each nonce at most once.
pub run-no_replay : (ns : List ℕ) (n : ℕ) → count n (accepted ns (run fresh ns)) ≤ 1
run-no_replay ns n = rw (run-refines-window ns) (run_once ns n)
