-- ===== src/Ratelimiter/Tests.antt =====
-- Runs of the limiter, and instances of its theorems.
use amneziawg_nt.Base.{ℕ, ◌+◌, ◌≡◌, refl, true, List, [], ◌∷◌, arith}
use amneziawg_nt.Ratelimiter.{
  Family, inet, inet6, address, Event, packet, collect_bucket, freed, collected, run, empty, passed,
  collect, allow, visit, find, replace, charge, refilled, elapsed, with_bucket, same_family,
  same_source,
}
use amneziawg_nt.Ratelimiter.Bound.{early_visits}
use amneziawg_nt.Ratelimiter.Total.{IsBalanced, total-bound}

-- A hash for the tests.
abbrev sum_hash : Family → ℕ → ℕ
sum_hash inet ip = ip
sum_hash inet6 ip = ip + 1

abbrev from_seven : ℕ → Event
from_seven now = packet true now (address inet 7)

abbrev burst : List Event
burst =
    from_seven 10
    ∷ from_seven 11
    ∷ from_seven 12
    ∷ from_seven 13
    ∷ from_seven 14
    ∷ from_seven 15
    ∷ from_seven 500015
    ∷ []

-- The sixth packet of a burst is refused, and one passes a twentieth of a second later.
burst_passes : passed sum_hash empty inet 7 burst ≡ 6
unfolding allow visit find replace charge refilled elapsed with_bucket same_family same_source
burst_passes = refl

-- The collector's time is read before an entry was used: the difference wraps around, and the
-- entry in use is taken out.
collected_early : collected 100 (record { ip = 7; last_time = 101; tokens = 0 } ∷ []) ≡ ([], 1)
unfolding collected elapsed
collected_early = refl

-- A pass that reads its time at 8 visits the bucket after the burst, and the address has a full bucket again.
abbrev collected_burst : List Event
collected_burst =
    from_seven 10
    ∷ from_seven 11
    ∷ from_seven 12
    ∷ from_seven 13
    ∷ from_seven 14
    ∷ collect_bucket 8 inet 7
    ∷ from_seven 15
    ∷ from_seven 16
    ∷ []

collected_burst_passes :
    (passed sum_hash empty inet 7 collected_burst ≡ 7)
    × (early_visits sum_hash inet 7 empty collected_burst ≡ 1)
unfolding allow visit find replace charge refilled elapsed with_bucket same_family same_source
    collect collected
collected_burst_passes = (refl, refl)

total-bound_example :
    IsBalanced (run sum_hash empty (from_seven 3 ∷ collect_bucket 20000000 inet 7 ∷ freed ∷ []))
total-bound_example =
    total-bound sum_hash (from_seven 3 ∷ collect_bucket 20000000 inet 7 ∷ freed ∷ [])
      (omega arith, tt)
