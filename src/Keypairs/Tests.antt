-- ===== src/Keypairs/Tests.antt =====
-- Runs of the slots, and instances of their theorems.
use amneziawg_nt.Base.{ℕ, ◌+◌, ◌≡◌, refl, true, false, some, none, List, [], ◌∷◌, count}
use amneziawg_nt.Keypairs.{
  Keypair, put, add_new_keypair, is_in, received_with_keypair, expire_current, no_keypairs, Event,
  add, received, expired, run,
}
use amneziawg_nt.Keypairs.Balance.{slots, added, run-balance}
use amneziawg_nt.Keypairs.Confirmed.{IsConfirmed, confirmations, run-IsConfirmed}

abbrev responder : ℕ → Keypair
responder id = record { id = id; initiator = false; sending = true }

abbrev events : List Event
events =
    add (responder 1)
    ∷ received 1
    ∷ add (record { id = 2; initiator = true; sending = true })
    ∷ add (responder 3)
    ∷ expired
    ∷ received 9
    ∷ []

after_six : run no_keypairs events ≡ record {
  current = some (record { id = 2; initiator = true; sending = false });
  previous = none;
  next = some (record { id = 3; initiator = false; sending = false });
  released = 1 ∷ [];
}
unfolding add_new_keypair received_with_keypair is_in put expire_current
after_six = refl

run-balance_example :
    slots 1 (run no_keypairs events) + count 1 (run no_keypairs events).released ≡ added 1 events
run-balance_example = run-balance 1 events

run-IsConfirmed_example : IsConfirmed (confirmations [] events) (run no_keypairs events).current
run-IsConfirmed_example = run-IsConfirmed events
