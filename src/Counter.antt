-- ===== src/Counter.antt =====
-- driver/receive.c, `CounterValidate`: the RFC 6479 replay window over the nonces of a keypair,
-- with `NOISE_REPLAY_COUNTER` of driver/noise.h and the constants of driver/messages.h.
-- The counter's spin lock makes a call one step. `x & (2 ^ k - 1)` is written `x % 2 ^ k`.
pub mod Window
pub mod Bits
pub mod Clear
pub mod Tracks
pub mod Refine
mod Tests
use amneziawg_nt.Base.{
  ℕ, zero, suc, ◌+◌, ◌-◌, ◌*◌, ◌/◌, ◌%◌, ◌^◌, min, Bool, true, false, not, ◌||◌, List, ltb, leb,
  ◌==◌, if◌then◌else◌, get_or, set, replicate, [], ◌∷◌,
}

-- `COUNTER_BITS_TOTAL / BITS_PER_POINTER` words of 64 bits.
abbrev pub backtrack_words : ℕ
backtrack_words = 128

-- `COUNTER_WINDOW_SIZE`
abbrev pub window_size : ℕ
window_size = 8192 - 64

-- `REJECT_AFTER_MESSAGES`
abbrev pub reject_after_messages : ℕ
reject_after_messages = 2 ^ 64 - 1 - window_size - 1

-- `NOISE_REPLAY_COUNTER`
pub record ReplayCounter : Type 0 where
  pub counter : ℕ
  pub backtrack : List ℕ

-- Bit `b` of a word, and the word with that bit set.
pub test_bit : ℕ → ℕ → Bool
test_bit w zero = w % 2 == 1
test_bit w (suc b) = test_bit (w / 2) b

pub set_bit : ℕ → ℕ → ℕ
set_bit w zero = w / 2 * 2 + 1
set_bit w (suc b) = set_bit (w / 2) b * 2 + w % 2

-- The loop that clears the words between the old and the new position, with `left` rounds to go.
pub clear_words : ℕ → ℕ → ℕ → List ℕ → List ℕ
clear_words zero i current words = words
clear_words (suc left) i current words =
    clear_words left (i + 1) current (set words ((i + current) % backtrack_words) 0)

pub advance : ReplayCounter → ℕ → ReplayCounter
advance c their =
    if ltb c.counter their
    then record c { counter = their; backtrack = clear_words top 1 current c.backtrack }
    else c
  where
    current : ℕ
    current = c.counter / 64

    top : ℕ
    top = min (their / 64 - current) backtrack_words

-- `InterlockedBitTestAndSetPtr` on the word of `their`: true if the bit was clear.
pub mark : ReplayCounter → ℕ → Bool × ReplayCounter
mark c their = (
  not (test_bit (get_or c.backtrack index 0) (their % 64)),
  record c {
    backtrack = set c.backtrack index (set_bit (get_or c.backtrack index 0) (their % 64));
  },
)
  where
    index : ℕ
    index = their / 64 % backtrack_words

pub counter_validate : ReplayCounter → ℕ → Bool × ReplayCounter
counter_validate c their =
    if leb (reject_after_messages + 1) c.counter || leb reject_after_messages their
    then (false, c)
    else let next = (their + 1) % 2 ^ 64 in
      if ltb ((window_size + next) % 2 ^ 64) c.counter
      then (false, c)
      else mark (advance c next) next

-- A counter as `KeypairCreate` leaves it, and the answers to a sequence of nonces.
pub fresh : ReplayCounter
fresh = record { counter = 0; backtrack = replicate backtrack_words 0 }

pub run : ReplayCounter → List ℕ → List Bool
run c [] = []
run c (n ∷ ns) = let (r, c') = counter_validate c n in r ∷ run c' ns
