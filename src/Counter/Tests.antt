-- ===== src/Counter/Tests.antt =====
-- Runs of the counter on concrete nonces, and the theorems at such runs.
use amneziawg_nt.Base.{ℕ, ◌+◌, ◌*◌, ◌-◌, ◌≤◌, ◌≡◌, refl, true, false, List, [], ◌∷◌, count}
use amneziawg_nt.Counter.{
  mark, advance, clear_words, test_bit, set_bit, fresh, run, window_size, reject_after_messages,
  counter_validate,
}
use amneziawg_nt.Counter.Window.{accepted}
use amneziawg_nt.Counter.Window
use amneziawg_nt.Counter.Refine.{run-refines-window, run-no_replay}

-- The first cases of driver/selftest/counter.c, with `t_lim` for its `T_LIM`.
abbrev t_lim : ℕ
t_lim = window_size + 1

abbrev selftest : List ℕ
selftest =
    0
    ∷ 1
    ∷ 1
    ∷ 9
    ∷ 8
    ∷ 7
    ∷ 7
    ∷ t_lim
    ∷ (t_lim - 1)
    ∷ (t_lim - 1)
    ∷ (t_lim - 2)
    ∷ 2
    ∷ 2
    ∷ (t_lim + 16)
    ∷ 3
    ∷ (t_lim + 16)
    ∷ (t_lim * 4)
    ∷ (t_lim * 4 - (t_lim - 1))
    ∷ 10
    ∷ (t_lim * 4 - t_lim)
    ∷ (t_lim * 4 - (t_lim + 1))
    ∷ (t_lim * 4 - (t_lim - 2))
    ∷ (t_lim * 4 + 1 - t_lim)
    ∷ 0
    ∷ reject_after_messages
    ∷ (reject_after_messages - 1)
    ∷ reject_after_messages
    ∷ (reject_after_messages - 1)
    ∷ (reject_after_messages - 2)
    ∷ []

selftest_answers :
    run fresh selftest
    ≡ true ∷ true ∷ false ∷ true ∷ true ∷ true ∷ false ∷ true ∷ true ∷ false ∷ true ∷ true ∷ false
      ∷ true ∷ false ∷ false ∷ true ∷ true ∷ false ∷ false ∷ false ∷ true ∷ false ∷ false ∷ false
      ∷ true ∷ false ∷ false ∷ true ∷ []
unfolding run fresh counter_validate mark advance clear_words test_bit set_bit
selftest_answers = refl

run-refines-window_example : run fresh selftest ≡ Window.run [] selftest
run-refines-window_example = run-refines-window selftest

run-no_replay_example : count 7 (accepted selftest (run fresh selftest)) ≤ 1
run-no_replay_example = run-no_replay selftest 7
