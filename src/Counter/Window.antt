-- ===== src/Counter/Window.antt =====
-- What a replay window promises, with no bitmap: a nonce is accepted if it is below the limit, at
-- most a window behind the greatest one accepted, and new. The state is the list of those accepted.
use amneziawg_nt.Base.{
  ℕ, ◌+◌, ◌≤◌, ◌<◌, ◌≡◌, Bool, true, false, not, ◌&&◌, ◌||◌, List, [], ◌∷◌, arith, ltb, leb, ◌==◌,
  if◌then◌else◌, count,
}
use amneziawg_nt.Counter.{window_size, reject_after_messages}

-- One more than the greatest nonce accepted, or 0.
unfoldable pub limit : List ℕ → ℕ
limit [] = 0
limit (x ∷ seen) = if ltb (limit seen) (x + 1) then x + 1 else limit seen

unfoldable pub contains : List ℕ → ℕ → Bool
contains [] n = false
contains (x ∷ seen) n = n == x || contains seen n

unfoldable pub validate : List ℕ → ℕ → Bool × List ℕ
validate seen n =
    if ltb n reject_after_messages
      && leb (limit seen) (n + 1 + window_size)
      && not (contains seen n)
    then (true, n ∷ seen)
    else (false, seen)

-- The answers to a sequence of nonces.
unfoldable pub run : List ℕ → List ℕ → List Bool
run seen [] = []
run seen (n ∷ ns) = let (r, seen') = validate seen n in r ∷ run seen' ns

-- The nonces accepted out of a sequence, given the answers.
unfoldable pub accepted : List ℕ → List Bool → List ℕ
accepted [] rs = []
accepted (n ∷ ns) [] = []
accepted (n ∷ ns) (r ∷ rs) = if r then n ∷ accepted ns rs else accepted ns rs

count-accepted_le :
    (ns seen : List ℕ) (n : ℕ)
    → count n (accepted ns (run seen ns)) ≤ (if contains seen n then 0 else 1)
unfolding accepted run validate contains
count-accepted_le [] seen n = ground arith
count-accepted_le (m ∷ ns) seen n =
    ground (arith, count-accepted_le ns seen n, count-accepted_le ns (m ∷ seen) n)

-- No nonce is accepted twice.
pub run_once : (ns : List ℕ) (n : ℕ) → count n (accepted ns (run [] ns)) ≤ 1
unfolding contains
run_once ns n = omega (arith, count-accepted_le ns [] n)

-- The position below which every accepted nonce lies.
pub lt-limit_of_contains : (seen : List ℕ) (n : ℕ) → contains seen n ≡ true → n < limit seen
unfolding contains limit
lt-limit_of_contains [] n h = absurd (ground arith)
lt-limit_of_contains (x ∷ seen) n h = ground (arith, lt-limit_of_contains seen n)
