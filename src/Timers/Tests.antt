-- ===== src/Timers/Tests.antt =====
-- Runs of the timers, and instances of their theorems.
use amneziawg_nt.Base.{◌≤◌, ◌≡◌, refl, true, false, List, [], ◌∷◌}
use amneziawg_nt.Timers.{
  Peer, stopped, timers_init, timers_stop, Event, retransmit_fires, initiation_wanted, initiates,
  receives_data, keepalive_fires, run, step, expired_retransmit_handshake, queue_initiation,
  handshake_initiated, mod_peer_timer,
}
use amneziawg_nt.Timers.Retries.{retries, retries-bound}
use amneziawg_nt.Timers.Down.{IsQuiet, run-IsQuiet}

abbrev peer : Peer
peer = record {
  is_up = true;
  in_use = true;
  retransmit_handshake = stopped;
  send_keepalive = stopped;
  new_handshake = stopped;
  zero_key_material = stopped;
  persistent_keepalive = stopped;
  attempts = 7;
  sent_lastminute_handshake = false;
  need_another_keepalive = false;
  keepalive_interval = 0;
}

abbrev four_rounds : List Event
four_rounds = retransmit_fires ∷ initiates 0 ∷ retransmit_fires ∷ initiates 0 ∷ []

two_retried : retries (run (timers_init peer) (initiation_wanted ∷ [])) four_rounds ≡ 2
unfolding timers_init step expired_retransmit_handshake queue_initiation handshake_initiated
    mod_peer_timer
two_retried = refl

retries-bound_example : retries (run (timers_init peer) (initiation_wanted ∷ [])) four_rounds ≤ 19
retries-bound_example = retries-bound peer (initiation_wanted ∷ []) four_rounds tt

abbrev down_peer : Peer
down_peer = record peer { is_up = false; send_keepalive = record { pending = true; expires = 9 } }

run-IsQuiet_example : IsQuiet (run (timers_stop down_peer) (keepalive_fires ∷ receives_data ∷ []))
run-IsQuiet_example = run-IsQuiet down_peer (keepalive_fires ∷ receives_data ∷ []) refl
