-- ===== src/Counter/Clear.antt =====
-- The clearing loop: the words it visits become 0, the others stay.
use amneziawg_nt.Base.{
  ℕ, zero, suc, ◌+◌, ◌%◌, ◌<◌, ◌≡◌, refl, ◌≢◌, ◌∙◌, List, arith, length, get_or, set, length-set,
  get_or-set_self, get_or-set_ne,
}
use amneziawg_nt.Counter.{backtrack_words, clear_words}

pub length-clear_words :
    (left i current : ℕ) (words : List ℕ) → length (clear_words left i current words) ≡ length words
unfolding clear_words
length-clear_words zero i current words = refl
length-clear_words (suc left) i current words =
    length-clear_words left (i + 1) current (set words ((i + current) % backtrack_words) 0)
    ∙ length-set words ((i + current) % backtrack_words) 0

pub clear_words_miss :
    (left i current k : ℕ) (words : List ℕ)
    → ((r : ℕ) → r < left → (i + r + current) % backtrack_words ≢ k)
    → get_or (clear_words left i current words) k 0 ≡ get_or words k 0
unfolding clear_words
clear_words_miss zero i current k words h = refl
clear_words_miss (suc left) i current k words h =
    clear_words_miss left (i + 1) current k (set words ((i + current) % backtrack_words) 0)
      (λ r below e. h (r + 1) (omega arith) (omega arith))
    ∙ get_or-set_ne words ((i + current) % backtrack_words) k 0 0
        (λ e. h 0 (omega arith) (omega arith))

-- A word that is 0 stays 0.
clear_words_zero :
    (left i current k : ℕ) (words : List ℕ)
    → get_or words k 0 ≡ 0
    → k < length words
    → get_or (clear_words left i current words) k 0 ≡ 0
unfolding clear_words
clear_words_zero zero i current k words h lt = h
clear_words_zero (suc left) i current k words h lt =
    clear_words_zero left (i + 1) current k (set words j 0)
      (ground (arith, get_or-set_self words j 0 0, get_or-set_ne words j k 0 0))
      (omega (arith, length-set words j 0))
  where
    j : ℕ
    j = (i + current) % backtrack_words

pub clear_words_hit :
    (left i current k r : ℕ) (words : List ℕ)
    → r < left
    → (i + r + current) % backtrack_words ≡ k
    → k < length words
    → get_or (clear_words left i current words) k 0 ≡ 0
unfolding clear_words
clear_words_hit zero i current k r words below e lt = absurd (omega arith)
clear_words_hit (suc left) i current k zero words below e lt =
    clear_words_zero left (i + 1) current k (set words ((i + current) % backtrack_words) 0)
      (ground (arith, get_or-set_self words k 0 0))
      (omega (arith, length-set words ((i + current) % backtrack_words) 0))
clear_words_hit (suc left) i current k (suc r) words below e lt =
    clear_words_hit left (i + 1) current k r (set words ((i + current) % backtrack_words) 0)
      (omega arith) (omega arith)
      (omega (arith, length-set words ((i + current) % backtrack_words) 0))
